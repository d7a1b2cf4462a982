-- ===== src/Admin/Routes/Handled.antt =====
-- The handlers that change a row, when no call of the database fails.
use labeler_relay.Prelude.{
  ℕ, suc, ◌<◌, ◌≡◌, ◌≢◌, refl, sym, subst, ap, ◌∙◌, inl, inr, String, Bool, false, Option, none,
  some, ℤ, Result, ok, err, ok_injective, str_eq, eq_iff, Option-cases, arith,
}
use labeler_relay.Store.Registry.{
  Labeler, Registry, find, update_one, set_enabled, set_require_sig, upsert, get,
}
use labeler_relay.Store.Registry.Laws.{changed, upserted}
use labeler_relay.Admin.Outcomes.{handle_post_labeler-outcome}
use labeler_relay.Admin.{
  Response, Api, manual_labeler, after_set_enabled, after_set_sig, echo, handle_post_labeler,
}
use labeler_relay.Admin.Routes.Effects.{
  RowUpdate, Effect, set_enabled-Effect, set_require_sig-Effect,
}

-- The update is made, the slurper is poked once, and the status says so.
pub record Performed (did : String) (update : RowUpdate) (a : Api) (out : Response × Api)
    : Type 0 where
  pub effect : Effect did update a out
  pub poked : out.1.pokes ≡ suc a.pokes
  pub accepted : out.0.status < 300

-- An update of a row that is there succeeds.
update_one-found :
    (what did : String) (f : Labeler → Labeler) (db : Registry)
    → find did db ≢ none
    → (update_one none none what did f db).0 ≡ ok tt
update_one-found what did f db there = elim (Option-cases (find did db)) [
  | inl q ↦ absurd (there q)
  | inr (l, q) ↦ rw (q, update_one) refl
]

after_set_enabled-poked :
    (r : Result (Unit {0}) × Registry) (a : Api)
    → r.0 ≡ ok tt
    → ((after_set_enabled r a).1.pokes ≡ suc a.pokes) × ((after_set_enabled r a).0.status < 300)
after_set_enabled-poked (err e, db) a h = cc
after_set_enabled-poked (ok tt, db) a h = (refl, omega arith)

changes : (n m : ℕ) → n ≡ suc m → n ≡ m → ⊥
changes n m h k = omega (arith, h, k)

set_enabled-found :
    (did : String) (b : Bool) (a : Api)
    → find did a.registry ≢ none
    → (set_enabled none none did b a.registry).0 ≡ ok tt
unfolding set_enabled
set_enabled-found did b a there =
    update_one-found "failed to set enabled" did (λ l. record l { enabled = b }) a.registry there

pub set_enabled-Performed :
    (did : String) (b : Bool) (a : Api)
    → find did a.registry ≢ none
    → Performed did
        (changed (λ l. record l { enabled = b }))
        a
        (after_set_enabled (set_enabled none none did b a.registry) a)
set_enabled-Performed did b a there =
    let (poked, accepted) =
      after_set_enabled-poked (set_enabled none none did b a.registry) a
        (set_enabled-found did b a there) in
    elim (set_enabled-Effect none none did b a) [
      | inl same ↦ absurd (changes _ _ poked (ap (λ x. x.pokes) same))
      | inr effect ↦ record { effect = effect; poked = poked; accepted = accepted }
    ]

echo-accepted :
    (status : ℕ) (r : Result (Option Labeler)) (l : Labeler)
    → r ≡ ok (some l)
    → (echo status r).status ≡ status
echo-accepted status (err e) l h = cc
echo-accepted status (ok none) l h = cc
echo-accepted status (ok (some x)) l h = refl

-- After an update of the row under the DID, it is there to be read back.
Effect-found :
    (did : String) (update : RowUpdate) (a : Api) (out : Response × Api) (l : Labeler)
    → Effect did update a out
    → update (find did a.registry) ≡ some l
    → get none did out.1.registry ≡ ok (some l)
unfolding get
Effect-found did update a out l effect q =
    let row = effect.rows did in ground (arith, row, q, eq_iff did did)

set_require_sig-found :
    (did : String) (sig : Option Bool) (a : Api)
    → find did a.registry ≢ none
    → (set_require_sig none none did sig a.registry).0 ≡ ok tt
unfolding set_require_sig
set_require_sig-found did sig a there =
    update_one-found "failed to set require_sig" did (λ l. record l { require_sig = sig })
      a.registry there

after_set_sig-poked :
    (did : String) (r : Result (Unit {0}) × Registry) (a : Api)
    → r.0 ≡ ok tt
    → ((after_set_sig did none r a).1.pokes ≡ suc a.pokes)
      × ((after_set_sig did none r a).0
          ≡ echo 200 (get none did (after_set_sig did none r a).1.registry))
after_set_sig-poked did (err e, db) a h = cc
after_set_sig-poked did (ok tt, db) a h = (refl, refl)

pub set_require_sig-Performed :
    (did : String) (sig : Option Bool) (a : Api)
    → find did a.registry ≢ none
    → Performed did
        (changed (λ l. record l { require_sig = sig }))
        a
        (after_set_sig did none (set_require_sig none none did sig a.registry) a)
set_require_sig-Performed did sig a there =
    let out = after_set_sig did none (set_require_sig none none did sig a.registry) a in
    let set : Labeler → Labeler = λ l. record l { require_sig = sig } in
    let (poked, answer) =
      after_set_sig-poked did (set_require_sig none none did sig a.registry) a
        (set_require_sig-found did sig a there) in
    elim (Option-cases (find did a.registry)) [
      | inl q ↦ absurd (there q)
      | inr (l, q) ↦ elim (set_require_sig-Effect none none none did sig a) [
        | inl same ↦ absurd (changes _ _ poked (ap (λ x. x.pokes) same))
        | inr effect ↦
            let read = Effect-found did (changed set) a out (set l) effect (ap (changed set) q) in
            let status = ap (λ x. x.status) answer ∙ echo-accepted 200 _ (set l) read in
            record { effect = effect; poked = poked; accepted = omega (arith, status) }
      ]
    ]

handle_post_labeler-poked :
    (resolve : String → Result String) (now : ℤ) (did endpoint : String) (a : Api)
    → str_eq did "" ≡ false
    → resolve did ≡ ok endpoint
    → let out = handle_post_labeler resolve none none now (some did) a in
      (out.1.pokes ≡ suc a.pokes) × (out.0 ≡ echo 201 (get none did out.1.registry))
unfolding handle_post_labeler upsert
handle_post_labeler-poked resolve now did endpoint a named resolved =
    rw (named, resolved) (refl, refl)

pub handle_post_labeler-Performed :
    (resolve : String → Result String) (now : ℤ) (did endpoint : String) (a : Api)
    → str_eq did "" ≡ false
    → resolve did ≡ ok endpoint
    → Performed did
        (λ o. some (upserted (manual_labeler did endpoint now) o))
        a
        (handle_post_labeler resolve none none now (some did) a)
handle_post_labeler-Performed resolve now did endpoint a named resolved =
    let out = handle_post_labeler resolve none none now (some did) a in
    let update : RowUpdate = λ o. some (upserted (manual_labeler did endpoint now) o) in
    let (poked, answer) = handle_post_labeler-poked resolve now did endpoint a named resolved in
    elim (handle_post_labeler-outcome resolve none none now did a) [
      | inl same ↦ absurd (changes _ _ poked (ap (λ x. x.pokes) same))
      | inr (other, found, added) ↦
          let same : endpoint ≡ other = ok_injective (sym resolved ∙ found) in
          let effect : Effect did update a out =
            subst (λ e. Effect did (λ o. some (upserted (manual_labeler did e now) o)) a out)
              (sym same) (record { rows = added.rows; poked = inl added.poked }) in
          let read =
            Effect-found did update a out
              (upserted (manual_labeler did endpoint now) (find did a.registry)) effect refl in
          let status = ap (λ x. x.status) answer ∙ echo-accepted 201 _ _ read in
          record { effect = effect; poked = poked; accepted = omega (arith, status) }
    ]
