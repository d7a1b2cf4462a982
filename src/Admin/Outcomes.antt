-- ===== src/Admin/Outcomes.antt =====
-- What a request to the admin API may change.
use labeler_relay.Prelude.{
  suc, ◌≡◌, refl, ap, ◌∙◌, ◌⊎◌, inl, inr, String, Option, none, some, ℤ, Result, ok, err, Fault,
  str_eq, eq_iff, if◌then◌else◌, Bool-cases,
}
use labeler_relay.Store.Registry.{Registry, find, upsert}
use labeler_relay.Store.Registry.Laws.{upserted, upsert-row}
use labeler_relay.Admin.{
  Response, Api, split_space, authorize, require_bearer, manual_labeler, after_upsert, add_resolved,
  handle_post_labeler,
}

authorize-outcome :
    {S : Type 0} (token : String) (parts : Option (String × String)) (next : S → Response × S)
    (s : S)
    → ((parts ≡ some ("Bearer", token)) × (authorize token parts next s ≡ next s))
      ⊎ (((authorize token parts next s).0.status ≡ 401) × ((authorize token parts next s).1 ≡ s))
authorize-outcome token none next s = inr (refl, refl)
authorize-outcome token (some (scheme, provided)) next s =
    elim (Bool-cases (str_eq scheme "Bearer")) [
      | inl b ↦ elim (Bool-cases (str_eq provided token)) [
        | inl t ↦
            rw (b, t)
              (inl (
                ap (λ q. some (q, provided)) ((eq_iff scheme "Bearer").0 b)
                    ∙ ap (λ q. some ("Bearer", q)) ((eq_iff provided token).0 t),
                refl,
              ))
        | inr t ↦ rw (b, t) (inr (refl, refl))
      ]
      | inr b ↦ rw b (inr (refl, refl))
    ]

-- A request whose Authorization header is not the word Bearer, a space and the token is answered with
-- 401 and changes nothing; any other is the handler's.
pub require_bearer-outcome :
    {S : Type 0} (token auth : String) (next : S → Response × S) (s : S)
    → ((split_space auth ≡ some ("Bearer", token)) × (require_bearer token auth next s ≡ next s))
      ⊎ (((require_bearer token auth next s).0.status ≡ 401)
          × ((require_bearer token auth next s).1 ≡ s))
unfolding require_bearer
require_bearer-outcome token auth next s = authorize-outcome token (split_space auth) next s

-- The effect of a POST that was accepted.
pub record Added (did endpoint : String) (now : ℤ) (a after : Api) : Type 0 where
  pub poked : after.pokes ≡ suc a.pokes
  pub rows :
      (j : String)
      → find j after.registry ≡ (
          if str_eq did j
          then some (upserted (manual_labeler did endpoint now) (find did a.registry))
          else find j a.registry)

after_upsert-outcome :
    (f g : Fault) (now : ℤ) (did endpoint : String) (a : Api) (u : Result Registry)
    → upsert f (manual_labeler did endpoint now) a.registry ≡ u
    → ((after_upsert did g u a).1 ≡ a) ⊎ Added did endpoint now a ((after_upsert did g u a).1)
after_upsert-outcome f g now did endpoint a (err e) q = inl refl
after_upsert-outcome f g now did endpoint a (ok db) q = inr (record {
  poked = refl;
  rows = λ j. upsert-row f (manual_labeler did endpoint now) a.registry db j q;
})

add_resolved-outcome :
    (f g : Fault) (now : ℤ) (did : String) (a : Api) (r : Result String)
    → ((add_resolved f g now did r a).1 ≡ a)
      ⊎ ((endpoint : String) × (r ≡ ok endpoint)
          × Added did endpoint now a ((add_resolved f g now did r a).1))
add_resolved-outcome f g now did a (err e) = inl refl
add_resolved-outcome f g now did a (ok endpoint) =
    elim (after_upsert-outcome f g now did endpoint a
      (upsert f (manual_labeler did endpoint now) a.registry) refl) [
        | inl same ↦ inl same
        | inr added ↦ inr (endpoint, refl, added)
      ]

-- The outcome of a POST: nothing has changed and no reconcile was asked for, or the endpoint of the
-- DID was resolved, one reconcile was asked for, and the rows are those after Upsert: under the DID
-- a manual, enabled labeler at that endpoint, which keeps the signature policy and the cursor of
-- the row that was there, and the others as before.
pub handle_post_labeler-outcome :
    (resolve : String → Result String) (f g : Fault) (now : ℤ) (did : String) (a : Api)
    → ((handle_post_labeler resolve f g now (some did) a).1 ≡ a)
      ⊎ ((endpoint : String) × (resolve did ≡ ok endpoint)
          × Added did endpoint now a ((handle_post_labeler resolve f g now (some did) a).1))
unfolding handle_post_labeler
handle_post_labeler-outcome resolve f g now did a = elim (Bool-cases (str_eq did "")) [
  | inl q ↦ rw q (inl refl)
  | inr q ↦ rw q (add_resolved-outcome f g now did a (resolve did))
]
