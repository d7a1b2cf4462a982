-- ===== src/Store/Events/Ingest.antt =====
-- PersistIngest as its callers see it.
use labeler_relay.Prelude.{
  ℕ, suc, float64, ◌<◌, ◌≡◌, refl, String, arith, ℤ, Result, ok, err, ◌⊎◌, inl, inr, Result-cases,
}
use labeler_relay.Store.Events.{
  Bytes, LiveEvent, IngestEvent, Encoders, IngestFaults, LabelPersist, encode_frame, ingest_tx,
  max_int64, call, persist_ingest,
}
use labeler_relay.Store.Events.Order.{
  IsWellFormed, append_row-IsWellFormed, stored, Committed, ingest_tx-Committed, ingest_tx-commits,
  no_faults,
}

module _ {W Label Service : Type 0} (enc : Encoders Label Service) where
  -- The outcome of a call that fails: the table, the callbacks and the world stay as they were.
  pub record Refused (p : LabelPersist W) (w : W) (out : Result ℕ × LabelPersist W × W)
      : Type 0 where
    pub cause : String
    pub reported : out.0 ≡ err cause
    pub kept : out.1 ≡ p
    pub silent : out.2 ≡ w

  -- The outcome of a call that succeeds: one row more, and each callback called once with it.
  pub record Accepted (now : ℤ) (e : IngestEvent Label Service) (p : LabelPersist W) (w : W)
      (out : Result ℕ × LabelPersist W × W) : Type 0 where
    pub event : LiveEvent
    pub committed : Committed enc now e p.store event (out.1).store
    pub reported : out.0 ≡ ok (suc p.store.last_seq)
    pub kept : out.1 ≡ record p { store = (out.1).store }
    pub called :
        out.2
        ≡ call p.on_head_advanced (float64 (suc p.store.last_seq)) (call p.broadcaster event w)

  -- PersistIngest over a well-formed table: it either reports an error and has changed nothing and
  -- called nobody, or it has appended exactly one row, encoded under the number after the largest
  -- one given so far, returned that number, and called the broadcaster and then the head callback
  -- once each, with the stored frame.
  pub persist_ingest-outcome :
      (f : IngestFaults) (now : ℤ) (e : IngestEvent Label Service) (p : LabelPersist W) (w : W)
      → IsWellFormed p.store
      → Refused p w (persist_ingest enc f now e p w)
        ⊎ Accepted now e p w (persist_ingest enc f now e p w)
  unfolding persist_ingest
  persist_ingest-outcome f now e p w h = elim (Result-cases (ingest_tx enc f now e p.store)) [
    | inr (m, q) ↦ rw q (inl (record { cause = m; reported = refl; kept = refl; silent = refl }))
    | inl ((le, db), q) ↦
        let c = ingest_tx-Committed enc f now e p.store le db h q in
        rw q (
          inr (record {
            event = le;
            committed = c;
            reported = ground arith;
            kept = refl;
            called = ground arith;
          }))
  ]

  -- An event that encodes is accepted when no call of the database fails and a number is left.
  pub persist_ingest-accepts :
      (now : ℤ) (e : IngestEvent Label Service) (p : LabelPersist W) (w : W) (frame : Bytes)
      → p.store.last_seq < max_int64
      → encode_frame enc (suc p.store.last_seq) e ≡ ok frame
      → IsWellFormed p.store
      → (persist_ingest enc no_faults now e p w).0 ≡ ok (suc p.store.last_seq)
  unfolding persist_ingest
  persist_ingest-accepts now e p w frame room q h =
      let (le, db, t) = ingest_tx-commits enc now e p.store frame room q in
      let c = ingest_tx-Committed enc no_faults now e p.store le db h t in rw t (ground arith)

  pub persist_ingest-IsWellFormed :
      (f : IngestFaults) (now : ℤ) (e : IngestEvent Label Service) (p : LabelPersist W) (w : W)
      → IsWellFormed p.store
      → IsWellFormed (persist_ingest enc f now e p w).1.store
  persist_ingest-IsWellFormed f now e p w h = elim (persist_ingest-outcome f now e p w h) [
    | inl r ↦ rw r.kept h
    | inr a ↦ rw a.committed.appended (
        append_row-IsWellFormed p.store (stored (suc p.store.last_seq) e now a.event.frame_cbor)
          refl h)
  ]
