-- ===== src/Slurper/Reconcile/Registered.antt =====
-- Reconcile against the registry that it reads.
use labeler_relay.Prelude.{ℕ, ◌≡◌, ap, ◌∙◌, String, Option, none, select}
use labeler_relay.Store.Registry.{Registry, find}
use labeler_relay.Store.Registry.Keys.{IsKeyed, select-IsKeyed}
use labeler_relay.Store.Listing.{list_enabled, order_by_did}
use labeler_relay.Store.Listing.Rows.{
  enabled_row, find-enabled_row, find-order_by_did, order_by_did-IsKeyed,
}
use labeler_relay.Slurper.Reconcile.{Slurper, reconcile}
use labeler_relay.Slurper.Reconcile.Active.{wanted, sync-active}

-- After a Reconcile whose query succeeds, over a registry with one row for each DID: a DID without an enabled
-- row has no subscription, and each other one has the subscription that ran, if its endpoint and
-- signature policy are those of the row, and otherwise a new one with the row as its snapshot.
pub reconcile-active :
    {W : Type 0} (db : Registry) (on_reconciled : Option (ℕ → W → W)) (s : Slurper) (w : W)
    (j : String)
    → IsKeyed db
    → find j (reconcile (list_enabled none db) on_reconciled s w).1.active
      ≡ wanted (enabled_row (find j db)) (find j s.active)
unfolding reconcile list_enabled
reconcile-active db on_reconciled s w j h =
    let rows = select (λ l. l.enabled) db in
    let keyed = select-IsKeyed (λ l. l.enabled) db h in
    sync-active (order_by_did rows) s j (order_by_did-IsKeyed rows keyed)
    ∙ ap (λ o. wanted o (find j s.active))
        (find-order_by_did j rows keyed ∙ find-enabled_row j db h)
