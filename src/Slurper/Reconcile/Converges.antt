-- ===== src/Slurper/Reconcile/Converges.antt =====
-- What the slurper runs after any history, by the last registry that it could read.
use labeler_relay.Prelude.{
  Bool, true, false, if◌then◌else◌, ℕ, ◌≡◌, refl, sym, subst, ap, ◌∙◌, String, Option, none, some,
  List, [], ◌∷◌, ◌++◌, map, Result, err, Bool-cases, inl, inr,
}
use labeler_relay.Store.Registry.{Labeler, Registry, find}
use labeler_relay.Store.Registry.Keys.{IsKeyed}
use labeler_relay.Store.Listing.{list_enabled}
use labeler_relay.Store.Listing.Rows.{enabled_row}
use labeler_relay.Slurper.Policy.{subscription_config_changed, unchanged-same}
use labeler_relay.Slurper.Reconcile.{
  Slurper, reconcile, Wake, ticked, poked, after_wake, run_slurper,
}
use labeler_relay.Slurper.Reconcile.Active.{wanted}
use labeler_relay.Slurper.Reconcile.Registered.{reconcile-active}

-- The subscription that an enabled row, or none, asks for: one at its endpoint with its policy, or none.
abbrev pub Follows : Option Labeler → Option Labeler → Type 0
Follows none sc = sc ≡ none
Follows (some row) sc =
    (l : Labeler) × (sc ≡ some l) × (l.endpoint ≡ row.endpoint) × (l.require_sig ≡ row.require_sig)

wanted-Follows : (o sc : Option Labeler) → Follows o (wanted o sc)
wanted-Follows none sc = refl
wanted-Follows (some row) none = (row, refl, refl, refl)
wanted-Follows (some row) (some l) = elim (Bool-cases (subscription_config_changed l row)) [
  | inl q ↦ rw q (row, refl, refl, refl)
  | inr q ↦ rw q (l, refl, (unchanged-same l row q).0, (unchanged-same l row q).1)
]

-- A subscription at an endpoint with a signature policy if one is wanted, and otherwise none.
abbrev pub Runs : Bool → String → Option Bool → Option Labeler → Type 0
Runs true ep sig sc = (l : Labeler) × (sc ≡ some l) × (l.endpoint ≡ ep) × (l.require_sig ≡ sig)
Runs false ep sig sc = sc ≡ none

-- Such a row asks for what its flag, its endpoint and its policy say.
pub Follows-Runs :
    (row : Labeler) (sc : Option Labeler)
    → Follows (enabled_row (some row)) sc
    → Runs row.enabled row.endpoint row.require_sig sc
Follows-Runs row sc h = elim (Bool-cases row.enabled) [
  | inl q ↦
      subst (λ b. Runs b row.endpoint row.require_sig sc) (sym q)
        (subst (λ b. Follows (if b then some row else none) sc) q h)
  | inr q ↦
      subst (λ b. Runs b row.endpoint row.require_sig sc) (sym q)
        (subst (λ b. Follows (if b then some row else none) sc) q h)
]

-- A wake at which the registry could not be read.
abbrev pub missed : Wake × String → Wake × Result (List Labeler)
missed (wake, e) = (wake, err e)

-- The wake that reads the registry, and those after it.
abbrev pub last_read : Wake → Registry → List (Wake × String) → List (Wake × Result (List Labeler))
last_read wake db later = (wake, list_enabled none db) ∷ map missed later

module _ {W : Type 0} (on_reconciled : Option (ℕ → W → W)) where
  -- Such wakes leave the subscriptions.
  run_slurper-missed :
      (wakes : List (Wake × String)) (s : Slurper) (w : W)
      → (run_slurper on_reconciled (map missed wakes) s w).0.active ≡ s.active
  unfolding run_slurper reconcile
  run_slurper-missed [] s w = refl
  run_slurper-missed ((ticked, e) ∷ wakes) s w = run_slurper-missed wakes s w
  run_slurper-missed ((poked, e) ∷ wakes) s w = run_slurper-missed wakes (after_wake poked s) w

  module _ (wake : Wake) (db : Registry) (later : List (Wake × String)) (keyed : IsKeyed db) where
    last_read-Follows :
        (s : Slurper) (w : W) (j : String)
        → Follows
            (enabled_row (find j db))
            (find j (run_slurper on_reconciled (last_read wake db later) s w).0.active)
    unfolding run_slurper
    last_read-Follows s w j =
        let out = reconcile (list_enabled none db) on_reconciled (after_wake wake s) w in
        subst (λ o. Follows (enabled_row (find j db)) o)
          (sym (
            ap (find j) (run_slurper-missed later out.1 out.2)
            ∙ reconcile-active db on_reconciled (after_wake wake s) w j keyed))
          (wanted-Follows (enabled_row (find j db)) (find j (after_wake wake s).active))

    -- The slurper's loop, over any ticks and pokes and whatever it has run before: once it has read a registry
    -- with one row for each DID, and until it can read it again, it has for each DID a subscription at the
    -- endpoint and with the signature policy of the row, if there is an enabled row, and otherwise none.
    pub run_slurper-Follows :
        (wakes : List (Wake × Result (List Labeler))) (s : Slurper) (w : W) (j : String)
        → Follows
            (enabled_row (find j db))
            (find j (run_slurper on_reconciled (wakes ++ last_read wake db later) s w).0.active)
    unfolding run_slurper
    run_slurper-Follows [] s w j = last_read-Follows s w j
    run_slurper-Follows ((first, r) ∷ wakes) s w j =
        let out = reconcile r on_reconciled (after_wake first s) w in
        run_slurper-Follows wakes out.1 out.2 j
