-- ===== src/Wiring/Discovery.antt =====
-- From a commit of the firehose to the subscriptions of the slurper, over the registry.
mod Tests
use labeler_relay.Prelude.{
  ℕ, ◌≡◌, refl, sym, subst, ap, ◌∙◌, String, Bool, true, false, Option, none, some, List, ◌++◌,
  Result, ok, err, eq_iff, Bool-cases, inl, inr, if◌then◌else◌, str_eq, arith,
}
use labeler_relay.Store.Events.{Encoders, LabelPersist, persist_ingest}
use labeler_relay.Store.Registry.{Labeler, Registry, find, upsert, put, on_conflict}
use labeler_relay.Store.Registry.Laws.{upserted, upsert-row}
use labeler_relay.Store.Registry.Keys.{IsKeyed, upsert-IsKeyed}
use labeler_relay.Store.Listing.Rows.{enabled_row}
use labeler_relay.Slurper.Reconcile.{Slurper, Wake, run_slurper}
use labeler_relay.Slurper.Reconcile.Converges.{
  Follows, Runs, Follows-Runs, last_read, run_slurper-Follows,
}
use labeler_relay.Firehose.{
  Relay, Resolved, endpoint, OpEnv, LabelerServiceOp, discovered, after_discovery, after_resolve,
  handle_op, poke_if, service_event, writes_record,
}

-- What the firehose makes of a labeler, from the row that it had: a new one runs if discovered labelers are
-- subscribed to, with the default policy, and a known one as its row says.
abbrev pub Discovered : Bool → String → Option Labeler → Option Labeler → Type 0
Discovered auto_subscribe ep none sc = Runs auto_subscribe ep none sc
Discovered auto_subscribe ep (some old) sc = Runs old.enabled ep old.require_sig sc

module _ {W Label Service : Type 0} (enc : Encoders Label Service) (auto_subscribe : Bool)
    (env : OpEnv) (op : LabelerServiceOp Service) (ep : String) (r : Relay W) where
  -- The row that Upsert is called with.
  abbrev pub found_row : Labeler
  found_row = discovered op.repo_did ep auto_subscribe env.now_seconds

  -- What holds of the registry of an operation that succeeded.
  abbrev Registers : Relay W → Type 0
  Registers after =
      (find op.repo_did after.registry ≡ some (upserted found_row (find op.repo_did r.registry)))
      × IsKeyed after.registry

  after_discovery-Registers :
      (db : Registry)
      → upsert env.upsert_fault found_row r.registry ≡ ok db
      → IsKeyed r.registry
      → (o : Result ℕ × LabelPersist W × W) → Registers (poke_if db r.pokes o)
  after_discovery-Registers db q h (err e, p, w) = (
    upsert-row env.upsert_fault found_row r.registry db op.repo_did q
        ∙ ground (arith, eq_iff op.repo_did op.repo_did),
    upsert-IsKeyed env.upsert_fault found_row r.registry db q h,
  )
  after_discovery-Registers db q h (ok seq, p, w) = (
    upsert-row env.upsert_fault found_row r.registry db op.repo_did q
        ∙ ground (arith, eq_iff op.repo_did op.repo_did),
    upsert-IsKeyed env.upsert_fault found_row r.registry db q h,
  )

  upserted-Registers :
      (u : Result Registry)
      → upsert env.upsert_fault found_row r.registry ≡ u
      → env.upsert_fault ≡ none
      → IsKeyed r.registry
      → Registers (after_discovery enc auto_subscribe env op r u)
  unfolding upsert
  upserted-Registers (err e) q calm h = absurd (ground (arith, q, calm))
  upserted-Registers (ok db) q calm h =
      after_discovery-Registers db q h
        (persist_ingest enc env.ingest env.now_millis (service_event op) r.persist r.world)

  handle_op-Registers :
      writes_record op.action ≡ true
      → env.resolved ≡ endpoint ep
      → env.upsert_fault ≡ none
      → IsKeyed r.registry
      → Registers (handle_op enc auto_subscribe env op r)
  unfolding handle_op
  handle_op-Registers written resolved calm h =
      let opened : handle_op enc auto_subscribe env op r
          ≡ after_discovery enc auto_subscribe env op r
              (upsert env.upsert_fault found_row r.registry) =
        rw (handle_op, written, resolved) refl in
      subst (λ x. Registers x) (sym opened)
        (upserted-Registers (upsert env.upsert_fault found_row r.registry) refl calm h)

  asked-Discovered :
      (o sc : Option Labeler)
      → Follows (enabled_row (some (upserted found_row o))) sc
      → Discovered auto_subscribe ep o sc
  asked-Discovered none sc h = Follows-Runs found_row sc h
  asked-Discovered (some old) sc h = Follows-Runs (upserted found_row (some old)) sc h

  -- A create or update of a labeler's record on the firehose, whose DID resolves to an endpoint and whose
  -- Upsert succeeds, over a registry with one row for each DID; then the slurper's loop, over any wakes, once
  -- it has read that registry and until it can read it again. A labeler without a row is subscribed to
  -- at the resolved endpoint with the default signature policy if discovered labelers are subscribed
  -- to, and one with an enabled row at that endpoint with the policy of the row; otherwise there is
  -- no subscription to it.
  pub handle_op-Discovered :
      writes_record op.action ≡ true
      → env.resolved ≡ endpoint ep
      → env.upsert_fault ≡ none
      → IsKeyed r.registry
      → (on_reconciled : Option (ℕ → W → W)) (wakes : List (Wake × Result (List Labeler)))
        (wake : Wake) (later : List (Wake × String)) (s : Slurper) (w : W)
      → Discovered auto_subscribe ep (find op.repo_did r.registry) (
          find op.repo_did
            (run_slurper on_reconciled
              (wakes ++ last_read wake (handle_op enc auto_subscribe env op r).registry later)
              s
              w).0.active)
  handle_op-Discovered written resolved calm h on_reconciled wakes wake later s w =
      let (row, keyed) = handle_op-Registers written resolved calm h in
      let after = (handle_op enc auto_subscribe env op r).registry in
      let sc =
        find op.repo_did
          (run_slurper on_reconciled (wakes ++ last_read wake after later) s w).0.active in
      asked-Discovered (find op.repo_did r.registry) sc (
        subst (λ o. Follows (enabled_row o) sc) row
          (run_slurper-Follows on_reconciled wake after later keyed wakes s w op.repo_did))
