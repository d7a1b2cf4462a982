-- ===== src/Admin/Routes/Matching.antt =====
-- Which requests the patterns of the admin API match.
use labeler_relay.Prelude.{
  ◌≡◌, refl, sym, ap, ◌∙◌, ◌⊎◌, inl, inr, String, true, false, Option, none, some, List, [], ◌∷◌,
  str_eq, eq_iff, Bool-cases, Option-cases, arith,
}
use labeler_relay.Admin.Routes.{
  Request, Segment, literal, wildcard, Endpoint, Route, match_path, match_method, find_route,
}

-- A path that a pattern matches, from the value so far to the value of the wildcard.
abbrev pub Matches : List Segment → List String → String → String → Type 0
Matches [] ss value did = (ss ≡ []) × (value ≡ did)
Matches (literal x ∷ ps) ss value did =
    (rest : List String) × (ss ≡ x ∷ rest) × Matches ps rest value did
Matches (wildcard ∷ ps) ss value did =
    (s : String) × (rest : List String) × (ss ≡ s ∷ rest) × Matches ps rest s did

match_path-Matches :
    (ps : List Segment) (ss : List String) (value did : String)
    → match_path ps ss value ≡ some did
    → Matches ps ss value did
unfolding match_path
match_path-Matches [] [] value did h = (refl, cc)
match_path-Matches [] (s ∷ ss) value did h = cc
match_path-Matches (literal x ∷ ps) [] value did h = cc
match_path-Matches (wildcard ∷ ps) [] value did h = cc
match_path-Matches (literal x ∷ ps) (s ∷ ss) value did h = elim (Bool-cases (str_eq x s)) [
  | inl q ↦ (
    ss,
    ap (λ y. y ∷ ss) (sym ((eq_iff x s).0 q)),
    match_path-Matches ps ss value did (ground (arith, h, q)),
  )
  | inr q ↦ absurd (ground (arith, h, q))
]
match_path-Matches (wildcard ∷ ps) (s ∷ ss) value did h = elim (Bool-cases (str_eq s "/")) [
  | inl q ↦ absurd (ground (arith, h, q))
  | inr q ↦ (s, ss, refl, match_path-Matches ps ss s did (ground (arith, h, q)))
]

abbrev matched : Endpoint × String → Option (Endpoint × String)
matched r = some r

found_value :
    (kind endpoint : Endpoint) (value did : String)
    → matched (kind, value) ≡ matched (endpoint, did)
    → (kind ≡ endpoint) × (value ≡ did)
found_value kind endpoint value did h = (
  ap (λ o. elim o [ none ↦ kind | some r ↦ r.0 ]) h,
  ap (λ o. elim o [ none ↦ value | some r ↦ r.1 ]) h,
)

pub method_of :
    (verb method : String)
    → str_eq verb "GET" ≡ false
    → match_method verb method ≡ true
    → method ≡ verb
method_of verb method h k = elim (Bool-cases (str_eq verb method)) [
  | inl q ↦ sym ((eq_iff verb method).0 q)
  | inr q ↦ absurd (ground (arith, h, k, q))
]

module _ (req : Request) where
  -- One of the routes matches and gives the endpoint.
  abbrev pub Found : List Route → Endpoint → String → Type 0
  Found [] endpoint did = ⊥
  Found (r ∷ rs) endpoint did =
      ((r.endpoint ≡ endpoint)
        × (match_method r.verb req.method ≡ true)
        × Matches r.pattern_path req.segments "" did)
      ⊎ Found rs endpoint did

  pub find_route-Found :
      (rs : List Route) (endpoint : Endpoint) (did : String)
      → find_route rs req ≡ some (endpoint, did)
      → Found rs endpoint did
  unfolding find_route
  find_route-Found [] endpoint did h = cc
  find_route-Found (r ∷ rs) endpoint did h = elim (Bool-cases (match_method r.verb req.method)) [
    | inr q ↦ inr (find_route-Found rs endpoint did (ground (arith, h, q)))
    | inl q ↦ elim (Option-cases (match_path r.pattern_path req.segments "")) [
      | inl k ↦ inr (find_route-Found rs endpoint did (ground (arith, h, q, k)))
      | inr (value, k) ↦
          let (kind, found) = found_value r.endpoint endpoint value did (ground (arith, h, q, k)) in
          inl (
            kind,
            q,
            match_path-Matches r.pattern_path req.segments "" did (k ∙ ap (λ v. some v) found),
          )
    ]
  ]
