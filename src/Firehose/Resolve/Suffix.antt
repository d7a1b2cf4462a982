-- ===== src/Firehose/Resolve/Suffix.antt =====
-- The URL that LabelerEndpoint makes of a document.
use Prim.Native.String
use Prim.Native.Char.{Char, code}
use text.Mathlib.TextLemmas.{nil-append, cons-append}
use labeler_relay.Prelude.{
  ◌==◌, ◌≡◌, ◌≢◌, refl, sym, subst, ◌⊎◌, inl, inr, String, Bool, true, List, [], ◌∷◌, str_eq,
  eq_iff, Bool-cases, arith, ok, err,
}
use labeler_relay.Firehose.Resolve.{
  slash, DocService, subscribe_labels_path, err_no_labeler_endpoint, has_suffix, trim_right_slashes,
  contains, first_endpoint, by_type, by_id, labeler_base, subscription_url, labeler_endpoint,
}

has_suffix_self : (s : String) → has_suffix s s ≡ true
unfolding has_suffix
has_suffix_self String.[] = refl
has_suffix_self (String.◌∷◌ c s) = ground (arith, eq_iff (String.◌∷◌ c s) (String.◌∷◌ c s))

has_suffix-append : (s t : String) → has_suffix (String.◌++◌ s t) t ≡ true
unfolding has_suffix
has_suffix-append String.[] t =
    subst (λ u. has_suffix u t ≡ true) (sym (nil-append t)) (has_suffix_self t)
has_suffix-append (String.◌∷◌ c s) t =
    subst (λ u. has_suffix u t ≡ true) (sym (cons-append c s t))
      (ground (arith, has_suffix-append s t))

-- A service of the type of a labeler, and one with the id of a labeler.
abbrev pub HasType : DocService → Type 0
HasType svc = (svc.type ≡ "AtprotoLabeler") ⊎ (svc.type ≡ "atproto_labeler")

abbrev pub HasId : DocService → Type 0
HasId svc = contains svc.id "#atproto_labeler" ≡ true

-- The endpoint of the first service with a property is `base`, where none counts as the empty one.
pub data First (P : DocService → Type 0) : List DocService → String → Type 0 where
  missing : First P [] ""
  here :
      (svc : DocService) (svcs : List DocService)
      → P svc
      → First P (svc ∷ svcs) svc.service_endpoint
  there :
      (svc : DocService) (svcs : List DocService) (base : String)
      → ¬ P svc
      → First P svcs base
      → First P (svc ∷ svcs) base

first_endpoint-First :
    (P : DocService → Type 0) (fits : DocService → Bool)
    → ((svc : DocService) → fits svc ≡ true → P svc)
    → ((svc : DocService) → P svc → fits svc ≡ true)
    → (svcs : List DocService) → First P svcs (first_endpoint fits svcs)
unfolding first_endpoint
first_endpoint-First P fits sound complete [] = missing
first_endpoint-First P fits sound complete (x ∷ xs) = elim (Bool-cases (fits x)) [
  | inl q ↦
      let same : x.service_endpoint ≡ first_endpoint fits (x ∷ xs) = ground (arith, q) in
      subst (λ b. First P (x ∷ xs) b) same (here x xs (sound x q))
  | inr q ↦
      let same : first_endpoint fits xs ≡ first_endpoint fits (x ∷ xs) = ground (arith, q) in
      subst (λ b. First P (x ∷ xs) b) same
        (there x xs (first_endpoint fits xs) (λ p. cc (q, complete x p))
          (first_endpoint-First P fits sound complete xs))
]

by_type-HasType : (svc : DocService) → by_type svc ≡ true → HasType svc
by_type-HasType svc h = elim (Bool-cases (str_eq svc.type "AtprotoLabeler")) [
  | inl q ↦ inl ((eq_iff svc.type "AtprotoLabeler").0 q)
  | inr q ↦ inr ((eq_iff svc.type "atproto_labeler").0 (ground (arith, q, h)))
]

HasType-by_type : (svc : DocService) → HasType svc → by_type svc ≡ true
HasType-by_type svc (inl q) =
    let first : str_eq svc.type "AtprotoLabeler" ≡ true = (eq_iff svc.type "AtprotoLabeler").1 q in
    ground (arith, first)
HasType-by_type svc (inr q) =
    let second : str_eq svc.type "atproto_labeler" ≡ true =
      (eq_iff svc.type "atproto_labeler").1 q in
    ground (arith, second)

-- The endpoint that the document advertises: that of the first service of the type of a labeler, or, if there
-- is none or it is empty, that of the first service with the id of one, or nothing.
pub data Advertised (svcs : List DocService) : String → Type 0 where
  typed : (base : String) → First HasType svcs base → base ≢ "" → Advertised svcs base
  named : (base : String) → First HasType svcs "" → First HasId svcs base → Advertised svcs base

labeler_base-Advertised : (svcs : List DocService) → Advertised svcs (labeler_base svcs)
unfolding labeler_base
labeler_base-Advertised svcs =
    let by_types = first_endpoint-First HasType by_type by_type-HasType HasType-by_type svcs in
    let by_ids = first_endpoint-First HasId by_id (λ svc h. h) (λ svc h. h) svcs in
    elim (Bool-cases (str_eq (first_endpoint by_type svcs) "")) [
      | inl q ↦
          let same : first_endpoint by_id svcs ≡ labeler_base svcs = ground (arith, q) in
          subst (λ b. Advertised svcs b) same
            (named (first_endpoint by_id svcs)
              (subst (λ b. First HasType svcs b) ((eq_iff (first_endpoint by_type svcs) "").0 q)
                by_types)
              by_ids)
      | inr q ↦
          let same : first_endpoint by_type svcs ≡ labeler_base svcs = ground (arith, q) in
          subst (λ b. Advertised svcs b) same
            (typed (first_endpoint by_type svcs) by_types
              (ground (arith, q, eq_iff (first_endpoint by_type svcs) "")))
    ]

-- The URL that is dialled ends with the path of the subscription, and making a URL of it again changes
-- nothing.
subscription_url-has_suffix :
    (base : String)
    → (has_suffix (subscription_url base) subscribe_labels_path ≡ true)
      × (subscription_url (subscription_url base) ≡ subscription_url base)
unfolding subscription_url
subscription_url-has_suffix base =
    let h : has_suffix (subscription_url base) subscribe_labels_path ≡ true =
      elim (Bool-cases (has_suffix base subscribe_labels_path)) [
        | inl q ↦ ground (arith, q)
        | inr q ↦
            ground (arith, q, has_suffix-append (trim_right_slashes base) subscribe_labels_path)
      ] in
    (h, again (subscription_url base) h)
  where
    again : (u : String) → has_suffix u subscribe_labels_path ≡ true → subscription_url u ≡ u
    again u h = ground (arith, h)

abbrev AllSlashes : String → Type 0
AllSlashes String.[] = Unit {0}
AllSlashes (String.◌∷◌ c s) = (code c ≡ 47) × AllSlashes s

-- A text and what is left of it without the slashes at its end.
pub data Trimmed : String → String → Type 0 where
  all_slashes : (s : String) → AllSlashes s → Trimmed s ""
  last :
      (c : Char) (s : String)
      → code c ≢ 47
      → AllSlashes s
      → Trimmed (String.◌∷◌ c s) (String.◌∷◌ c "")
  longer :
      (c : Char) (s stem : String)
      → stem ≢ ""
      → Trimmed s stem
      → Trimmed (String.◌∷◌ c s) (String.◌∷◌ c stem)

Trimmed-AllSlashes : (s stem : String) → Trimmed s stem → stem ≡ "" → AllSlashes s
Trimmed-AllSlashes s stem (all_slashes t h) q = h
Trimmed-AllSlashes s stem (last c t n h) q = cc
Trimmed-AllSlashes s stem (longer c t rest n h) q = cc

trim_right_slashes-Trimmed : (s : String) → Trimmed s (trim_right_slashes s)
unfolding trim_right_slashes
trim_right_slashes-Trimmed String.[] = all_slashes "" tt
trim_right_slashes-Trimmed (String.◌∷◌ c s) =
    let ih = trim_right_slashes-Trimmed s in
    elim (Bool-cases (str_eq (trim_right_slashes s) "")) [
      | inr q ↦ rw q (
          longer c s (trim_right_slashes s) (ground (arith, q, eq_iff (trim_right_slashes s) ""))
            ih)
      | inl q ↦
          let h =
            Trimmed-AllSlashes s (trim_right_slashes s) ih
              ((eq_iff (trim_right_slashes s) "").0 q) in
          elim (Bool-cases (code c == slash)) [
            | inl slashed ↦
                rw (q, slashed) (all_slashes (String.◌∷◌ c s) (ground (arith, slashed), h))
            | inr other ↦ rw (q, other) (last c s (ground (arith, other)) h)
          ]
    ]

-- The URL of an endpoint: it is the endpoint or the endpoint up to its slashes at the end with the path
-- after it, it ends with the path, and making a URL of it again changes nothing.
pub record IsUrlOf (base url : String) : Type 0 where
  pub made :
      (url ≡ base)
      ⊎ ((stem : String) × Trimmed base stem × (url ≡ String.◌++◌ stem subscribe_labels_path))
  pub suffix : has_suffix url subscribe_labels_path ≡ true
  pub stable : subscription_url url ≡ url

subscription_url-IsUrlOf : (base : String) → IsUrlOf base (subscription_url base)
unfolding subscription_url
subscription_url-IsUrlOf base =
    let (suffix, stable) = subscription_url-has_suffix base in
    record {
      made = elim (Bool-cases (has_suffix base subscribe_labels_path)) [
        | inl q ↦ inl (ground (arith, q))
        | inr q ↦ inr (trim_right_slashes base, trim_right_slashes-Trimmed base, ground (arith, q))
      ];
      suffix = suffix;
      stable = stable;
    }

-- From a DID document that resolves, LabelerEndpoint takes the endpoint of the first service of the type
-- AtprotoLabeler or atproto_labeler or, if there is none or its endpoint is empty, that of the first
-- service whose id contains "#atproto_labeler". If there is none either or its endpoint is empty, it reports
-- that there is no labeler endpoint; otherwise it gives the endpoint, or the endpoint up to its
-- slashes at the end and the path of the subscription, which ends with that path, and to which appending the
-- path again would change nothing.
pub labeler_endpoint-outcome :
    (svcs : List DocService)
    → (Advertised svcs "" × (labeler_endpoint (ok svcs) ≡ err err_no_labeler_endpoint))
      ⊎ ((base url : String) × (base ≢ "")
          × Advertised svcs base
          × (labeler_endpoint (ok svcs) ≡ ok url)
          × IsUrlOf base url)
unfolding labeler_endpoint
labeler_endpoint-outcome svcs = elim (Bool-cases (str_eq (labeler_base svcs) "")) [
  | inl q ↦
      let empty = (eq_iff (labeler_base svcs) "").0 q in
      inl (subst (λ b. Advertised svcs b) empty (labeler_base-Advertised svcs), ground (arith, q))
  | inr q ↦
      let given : labeler_base svcs ≢ "" = ground (arith, q, eq_iff (labeler_base svcs) "") in
      inr (
        labeler_base svcs,
        subscription_url (labeler_base svcs),
        given,
        labeler_base-Advertised svcs,
        ground (arith, q),
        subscription_url-IsUrlOf (labeler_base svcs),
      )
]
