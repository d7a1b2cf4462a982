-- ===== src/Slurper/Frames.antt =====
-- internal/slurper/subscription.go: handleLabelLabels and the other handlers of a frame.
--
-- The outcomes of the limiter's waits and of the database's calls are arguments; the callbacks act
-- on the world `W` on which those of LabelPersist act.
pub mod CrashSafe
use labeler_relay.Prelude.{
  ℕ, zero, suc, ◌+◌, ◌≡◌, refl, ◌⊎◌, inl, inr, String, Bool, true, false, not, Option, none, some,
  List, [], ◌∷◌, ◌++◌, length, select, arith, ℤ, Result, ok, err, Fault, errorf, if◌then◌else◌,
  with_context,
}
use labeler_relay.Store.Events.{
  Bytes, Events, IngestEvent, IngestFaults, Encoders, LabelPersist, call, persist_ingest,
}
use labeler_relay.Store.Registry.{Labeler, Registry, write_cursor}
use labeler_relay.Slurper.Policy.{sig_required, keep_label}

-- The subscription: its snapshot of the labeler, and what it is wired to.
pub record Subscription (Label W : Type 0) : Type 0 where
  pub labeler : Labeler
  pub sig_default : Bool
  pub sig : Label → Bytes
  pub on_drop_unsigned : Option (String → W → W)
  pub on_ingested : Option (String × ℕ → W → W)

pub record FrameFaults : Type 0 where
  pub wait : ℕ → Fault
  pub ingest : IngestFaults
  pub cursor_exec : Fault
  pub cursor_affected : Fault

module _ {Label W : Type 0} where
  -- The loop over the labels of a frame: those kept so far, in order.
  unfoldable pub keep_labels :
      Subscription Label W → (ℕ → Fault) → ℕ → List Label → List Label → W → Result (List Label) × W
  unfolding keep_label
  keep_labels s waits i [] kept w = (ok kept, w)
  keep_labels s waits i (l ∷ ls) kept w =
      let taken = keep_labels s waits (suc i) ls (kept ++ l ∷ []) w in
      let dropped = keep_labels s waits (suc i) ls kept (call s.on_drop_unsigned s.labeler.did w) in
      elim (waits i) [
        | some e ↦ (err (errorf "rate limiter failed" e), w)
        | none ↦
            if keep_label s.sig l (sig_required s.labeler.require_sig s.sig_default)
            then taken
            else dropped
      ]

  -- The cursor write that ends the handling of a frame.
  abbrev pub flush_cursor :
      Subscription Label W → FrameFaults → ℤ → Registry → Result (Unit {0}) × Registry
  flush_cursor s f seq reg =
      let (r, after) = write_cursor f.cursor_exec f.cursor_affected s.labeler.did seq reg in
      (with_context "failed to flush cursor" r, after)

  abbrev pub labels_event_of :
      {Service : Type 0} → Subscription Label W → ℤ → List Label → IngestEvent Label Service
  labels_event_of s seq kept = record {
    kind = "labels";
    labeler_did = s.labeler.did;
    upstream_seq = some seq;
    labels = kept;
    op = "";
    service = none;
  }

  -- What follows PersistIngest.
  abbrev pub after_persist :
      Subscription Label W
      → FrameFaults
      → ℤ
      → ℕ
      → Result ℕ × LabelPersist W × W
      → Registry
      → Result (Unit {0}) × LabelPersist W × Registry × W
  after_persist s f seq n (err e, p, w) reg = (err (errorf "failed to persist labels" e), p, reg, w)
  after_persist s f seq n (ok relay_seq, p, w) reg =
      let (r, after) = flush_cursor s f seq reg in
      (r, p, after, call s.on_ingested (s.labeler.did, n) w)

  -- After the loop.
  abbrev pub after_keep :
      {Service : Type 0}
      → Encoders Label Service
      → Subscription Label W
      → FrameFaults
      → ℤ
      → ℤ
      → LabelPersist W
      → Registry
      → Result (List Label) × W
      → Result (Unit {0}) × LabelPersist W × Registry × W
  after_keep enc s f now seq p reg (err e, w) = (err e, p, reg, w)
  after_keep enc s f now seq p reg (ok [], w) =
      let (r, after) = flush_cursor s f seq reg in (r, p, after, w)
  after_keep enc s f now seq p reg (ok (l ∷ ls), w) =
      after_persist s f seq (length (l ∷ ls))
        (persist_ingest enc f.ingest now (labels_event_of s seq (l ∷ ls)) p w) reg

  unfoldable pub handle_label_labels :
      {Service : Type 0}
      → Encoders Label Service
      → Subscription Label W
      → FrameFaults
      → ℤ
      → ℤ
      → List Label
      → LabelPersist W
      → Registry
      → W
      → Result (Unit {0}) × LabelPersist W × Registry × W
  unfolding keep_labels
  handle_label_labels enc s f now seq labels p reg w =
      after_keep enc s f now seq p reg (keep_labels s f.wait 0 labels [] w)

-- handleError: the text of the error frame makes the connection end.
abbrev pub handle_error : String → Result (Unit {0})
handle_error name = err (errorf "upstream error" name)
