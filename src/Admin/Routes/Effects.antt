-- ===== src/Admin/Routes/Effects.antt =====
-- The changes that a request to the admin API may ask for, and what the handlers' updates leave.
use labeler_relay.Prelude.{
  suc, ◌≡◌, refl, ap, ◌⊎◌, inl, inr, String, Bool, true, false, Option, some, [], ◌∷◌, Fault,
  Result, ok, err, str_eq, if◌then◌else◌,
}
use labeler_relay.Store.Registry.{Labeler, Registry, find, set_enabled, set_require_sig}
use labeler_relay.Store.Registry.Laws.{upserted, changed, update_one-outcome}
use labeler_relay.Admin.{Response, Api, sets, manual_labeler, after_set_enabled, after_set_sig}
use labeler_relay.Admin.Routes.{Env, Request}

abbrev pub RowUpdate : Type 0
RowUpdate = Option Labeler → Option Labeler

-- The requests that may change a row, the row's DID, and how they change it.
pub data Allowed (env : Env) (req : Request) : String → RowUpdate → Type 0 where
  adds :
      (did endpoint : String)
      → req.method ≡ "POST"
      → req.segments ≡ "admin" ∷ "labelers" ∷ []
      → req.add_body ≡ some did
      → env.resolve did ≡ ok endpoint
      → Allowed env req did (λ o. some (upserted (manual_labeler did endpoint env.now) o))
  sets_policy :
      (did : String) (sig : Option Bool)
      → req.method ≡ "PATCH"
      → req.segments ≡ "admin" ∷ "labelers" ∷ did ∷ []
      → req.patch_body ≡ sets sig
      → Allowed env req did (changed (λ l. record l { require_sig = sig }))
  removes :
      (did : String)
      → req.method ≡ "DELETE"
      → req.segments ≡ "admin" ∷ "labelers" ∷ did ∷ []
      → Allowed env req did (changed (λ l. record l { enabled = false }))
  disables :
      (did : String)
      → req.method ≡ "POST"
      → req.segments ≡ "admin" ∷ "labelers" ∷ did ∷ "disable" ∷ []
      → Allowed env req did (changed (λ l. record l { enabled = false }))
  enables :
      (did : String)
      → req.method ≡ "POST"
      → req.segments ≡ "admin" ∷ "labelers" ∷ did ∷ "enable" ∷ []
      → Allowed env req did (changed (λ l. record l { enabled = true }))

-- The effect of an update of one row, and whether the slurper was poked.
pub record Effect (did : String) (update : RowUpdate) (a : Api) (out : Response × Api)
    : Type 0 where
  pub rows :
      (j : String)
      → find j out.1.registry
        ≡ (if str_eq did j then update (find did a.registry) else find j a.registry)
  pub poked : (out.1.pokes ≡ suc a.pokes) ⊎ ((out.0.status ≡ 404) × (out.1.pokes ≡ a.pokes))

-- What a handler does: nothing, or the update of one row.
abbrev pub Does : (String → RowUpdate → Type 0) → Api → Response × Api → Type 0
Does R a out =
    (out.1 ≡ a) ⊎ ((did : String) × (update : RowUpdate) × R did update × Effect did update a out)

after_set_enabled-Effect :
    (did : String) (update : RowUpdate) (r : Result (Unit {0}) × Registry) (a : Api)
    → ((j : String)
        → find j r.1 ≡ (if str_eq did j then update (find did a.registry) else find j a.registry))
    → Effect did update a (after_set_enabled r a)
after_set_enabled-Effect did update (err e, db) a h = record { rows = h; poked = inr (refl, refl) }
after_set_enabled-Effect did update (ok tt, db) a h = record { rows = h; poked = inl refl }

after_set_sig-Effect :
    (did : String) (update : RowUpdate) (f : Fault) (r : Result (Unit {0}) × Registry) (a : Api)
    → ((j : String)
        → find j r.1 ≡ (if str_eq did j then update (find did a.registry) else find j a.registry))
    → Effect did update a (after_set_sig did f r a)
after_set_sig-Effect did update f (err e, db) a h = record { rows = h; poked = inr (refl, refl) }
after_set_sig-Effect did update f (ok tt, db) a h = record { rows = h; poked = inl refl }

-- A handler that makes one update leaves what it leaves, or nothing when the statement fails.
pub set_enabled-Effect :
    (exec affected : Fault) (did : String) (b : Bool) (a : Api)
    → ((after_set_enabled (set_enabled exec affected did b a.registry) a).1 ≡ a)
      ⊎ Effect did
          (changed (λ l. record l { enabled = b }))
          a
          (after_set_enabled (set_enabled exec affected did b a.registry) a)
unfolding set_enabled
set_enabled-Effect exec affected did b a =
    let set : Labeler → Labeler = λ l. record l { enabled = b } in
    elim (update_one-outcome exec affected "failed to set enabled" did set a.registry (λ l. refl)) [
      | inl (e, q) ↦ inl (ap (λ r. (after_set_enabled r a).1) q)
      | inr rows ↦ inr (after_set_enabled-Effect did (changed set) _ a rows)
    ]

pub set_require_sig-Effect :
    (exec affected get_fault : Fault) (did : String) (sig : Option Bool) (a : Api)
    → ((after_set_sig did get_fault (set_require_sig exec affected did sig a.registry) a).1 ≡ a)
      ⊎ Effect did
          (changed (λ l. record l { require_sig = sig }))
          a
          (after_set_sig did get_fault (set_require_sig exec affected did sig a.registry) a)
unfolding set_require_sig
set_require_sig-Effect exec affected get_fault did sig a =
    let set : Labeler → Labeler = λ l. record l { require_sig = sig } in
    elim (update_one-outcome exec affected "failed to set require_sig" did set a.registry
      (λ l. refl)) [
        | inl (e, q) ↦ inl (ap (λ r. (after_set_sig did get_fault r a).1) q)
        | inr rows ↦ inr (after_set_sig-Effect did (changed set) get_fault _ a rows)
      ]
