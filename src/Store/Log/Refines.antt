-- ===== src/Store/Log/Refines.antt =====
-- The event table, under PersistIngest and the deletions of Prune, as a log.
use mathlib.Core.List.{map-append}
use labeler_relay.Prelude.{
  suc, refl, sym, subst, Bool, not, true, false, List, [], ◌∷◌, map, inl, inr, if◌then◌else◌,
  select, ℤ,
}
use labeler_relay.Store.Events.{
  Row, IngestEvent, Encoders, IngestFaults, LabelPersist, to_live, persist_ingest,
}
use labeler_relay.Store.Events.Order.{IsWellFormed, stored}
use labeler_relay.Store.Events.Ingest.{persist_ingest-outcome, persist_ingest-IsWellFormed}
use labeler_relay.Store.Prune.{is_picked, prune_batch}
use labeler_relay.Store.Prune.Safety.{prune_batch-IsWellFormed}
use labeler_relay.Store.Log.{
  Log, Thinned, added, thinned, Steps, stop, step, log_of, Command, ingest, delete_batch, exec,
  exec_all,
}

select-Thinned :
    (p : Row → Bool) (rows : List Row) → Thinned (map to_live rows) (map to_live (select p rows))
select-Thinned p [] = refl
select-Thinned p (r ∷ rs) = choose (p r) (select-Thinned p rs)
  where
    choose :
        (b : Bool)
        → Thinned (map to_live rs) (map to_live (select p rs))
        → Thinned (map to_live (r ∷ rs)) (map to_live (if b then r ∷ select p rs else select p rs))
    choose true h = inr (map to_live (select p rs), refl, h)
    choose false h = inl h

Steps_trans : {l m n : Log} → Steps l m → Steps m n → Steps l n
Steps_trans stop k = k
Steps_trans (step s h) k = step s (Steps_trans h k)

module _ {Label Service W : Type 0} (enc : Encoders Label Service) where
  ingest-Steps :
      (f : IngestFaults) (now : ℤ) (e : IngestEvent Label Service) (p : LabelPersist W) (w : W)
      → IsWellFormed p.store
      → Steps (log_of p.store) (log_of (persist_ingest enc f now e p w).1.store)
  ingest-Steps f now e p w h = elim (persist_ingest-outcome enc f now e p w h) [
    | inl r ↦ subst (λ q. Steps (log_of p.store) (log_of q.store)) (sym r.kept) stop
    | inr a ↦
        let row = stored (suc p.store.last_seq) e now a.event.frame_cbor in
        subst (λ db. Steps (log_of p.store) (log_of db)) (sym a.committed.appended)
          (step (added (to_live row) refl (map-append to_live p.store.rows (row ∷ [])) refl) stop)
  ]

  exec-Steps :
      (c : Command Label Service) (p : LabelPersist W) (w : W)
      → IsWellFormed p.store
      → IsWellFormed (exec enc c p w).0.store
        × Steps (log_of p.store) (log_of (exec enc c p w).0.store)
  unfolding exec prune_batch
  exec-Steps (ingest f now e) p w h =
      (persist_ingest-IsWellFormed enc f now e p w h, ingest-Steps f now e p w h)
  exec-Steps (delete_batch pick cutoff) p w h = (
    prune_batch-IsWellFormed pick cutoff p.store h,
    step
        (thinned (select-Thinned (λ r. not (is_picked pick cutoff p.store.rows r)) p.store.rows)
          refl)
        stop,
  )

  -- Every run of ingests and batches of a prune, with whatever faults and in whatever order, from a
  -- well-formed table leaves a well-formed one and is a run of the log: each change of the table adds one
  -- event under the number after the largest ever given, or only removes events, or changes nothing.
  pub exec_all-Steps :
      (cs : List (Command Label Service)) (p : LabelPersist W) (w : W)
      → IsWellFormed p.store
      → IsWellFormed (exec_all enc cs p w).0.store
        × Steps (log_of p.store) (log_of (exec_all enc cs p w).0.store)
  unfolding exec_all
  exec_all-Steps [] p w h = (h, stop)
  exec_all-Steps (c ∷ cs) p w h =
      let (p', w') = exec enc c p w in
      let (well_formed, first) = exec-Steps c p w h in
      let (last, rest) = exec_all-Steps cs p' w' well_formed in (last, Steps_trans first rest)
