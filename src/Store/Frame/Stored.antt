-- ===== src/Store/Frame/Stored.antt =====
-- What the frames that PersistIngest stores decode to.
use labeler_relay.Prelude.{
  ℕ, ◌^◌, ◌<◌, ◌≡◌, refl, sym, ap, ◌∙◌, subst, String, Option, some, List, [], map, ℤ, pos, Result,
  ok, err, ◌>>=◌, with_context, inl, inr, ok_injective, arith, append-nil, true, false, str_eq,
}
use labeler_relay.Store.Events.{
  Bytes, IngestEvent, IngestFaults, LabelPersist, encode_frame, seq_or_zero, persist_ingest,
}
use labeler_relay.Store.Events.Order.{IsWellFormed, append_row, stored}
use labeler_relay.Store.Events.Ingest.{persist_ingest-outcome}
use labeler_relay.Store.Frame.{
  encode_labels_frame, decode_labels_frame, encode_service_frame, decode_service_frame,
  frame_encoders,
}
use labeler_relay.Cbor.{Cbg, Codec}
use labeler_relay.Cbor.Reading.{Fits}
use labeler_relay.Community.Labels
use labeler_relay.Community.Service
use labeler_relay.Community.LabelsRoundTrip.{labels-round_trip}
use labeler_relay.Community.ServiceRoundTrip.{service-round_trip}

with_context-ok :
    {A : Type 0} (context : String) (r : Result A) (a : A)
    → with_context context r ≡ ok a
    → r ≡ ok a
with_context-ok context (ok x) a h = h
with_context-ok context (err e) a h = cc

module _ {Label : Type 0} (c : Cbg) (l : Codec Label) where
  pub decode_labels_frame-encoded :
      (seq up : ℤ) (src : String) (labels : List (Option Label)) (frame : Bytes)
      → Fits seq
      → Fits up
      → encode_labels_frame c l seq src up labels ≡ ok frame
      → decode_labels_frame c l frame
        ≡ ok (record { seq = seq; src = src; upstream_seq = up; labels = labels })
  unfolding encode_labels_frame decode_labels_frame
  decode_labels_frame-encoded seq up src labels frame fits up_fits h =
      ap (λ x. x >>= (λ (a, rest). ok a))
        (subst
          (λ b.
            Labels.unmarshal c l b
            ≡ ok (record { seq = seq; src = src; upstream_seq = up; labels = labels }, []))
          (append-nil frame)
          (labels-round_trip c l
            (record { seq = seq; src = src; upstream_seq = up; labels = labels }) frame [] h fits
            up_fits))

module _ {Service : Type 0} (c : Cbg) (r : Codec Service) where
  decode_service_frame-encoded :
      (seq : ℤ) (src op : String) (rec : Option Service) (frame : Bytes)
      → Fits seq
      → encode_service_frame c r seq src op rec ≡ ok frame
      → decode_service_frame c r frame
        ≡ ok (record { seq = seq; src = src; op = op; service = rec })
  unfolding encode_service_frame decode_service_frame
  decode_service_frame-encoded seq src op rec frame fits h =
      ap (λ x. x >>= (λ (a, rest). ok a))
        (subst
          (λ b.
            package.labeler_relay.Community.Service.unmarshal c r b
            ≡ ok (record { seq = seq; src = src; op = op; service = rec }, []))
          (append-nil frame)
          (service-round_trip c r (record { seq = seq; src = src; op = op; service = rec }) frame []
            h fits))

module _ {Label Service : Type 0} (c : Cbg) (l : Codec Label) (r : Codec Service) where
  -- What an ingest that returned a number has stored under it.
  record Kept {W : Type 0} (now : ℤ) (e : IngestEvent Label Service) (p : LabelPersist W) (n : ℕ)
      (out : Result ℕ × LabelPersist W × W) : Type 0 where
    pub frame : Bytes
    pub small : n < 2 ^ 63
    pub encoded : encode_frame (frame_encoders c l r) n e ≡ ok frame
    pub appended : (out.1).store ≡ append_row p.store (stored n e now frame)

  persist_ingest-Kept :
      {W : Type 0} (f : IngestFaults) (now : ℤ) (e : IngestEvent Label Service) (p : LabelPersist W)
      (w : W) (n : ℕ)
      → IsWellFormed p.store
      → (persist_ingest (frame_encoders c l r) f now e p w).0 ≡ ok n
      → Kept now e p n (persist_ingest (frame_encoders c l r) f now e p w)
  persist_ingest-Kept f now e p w n h k =
      elim (persist_ingest-outcome (frame_encoders c l r) f now e p w h) [
        | inl q ↦ absurd (refused (sym q.reported ∙ k))
        | inr q ↦
            subst (λ n. Kept now e p n (persist_ingest (frame_encoders c l r) f now e p w))
              (ok_injective (sym q.reported ∙ k))
              (record {
                frame = q.event.frame_cbor;
                small = omega (arith, q.committed.room);
                encoded = q.committed.encoded;
                appended = q.committed.appended;
              })
      ]
    where
      refused : {m : String} {n : ℕ} → err m ≡ ok n → ⊥
      refused h = cc

  pub encode_frame-labels :
      (n : ℕ) (e : IngestEvent Label Service) (frame : Bytes)
      → e.kind ≡ "labels"
      → encode_frame (frame_encoders c l r) n e ≡ ok frame
      → encode_labels_frame c l
          (pos n)
          e.labeler_did
          (seq_or_zero e.upstream_seq)
          (map some e.labels)
        ≡ ok frame
  unfolding encode_frame
  encode_frame-labels n e frame k h =
      let is_labels = subst (λ s. str_eq s "labels" ≡ true) (sym k) refl in
      with_context-ok "failed to encode labels frame" _ frame (ground (arith, is_labels, h))

  encode_frame-service :
      (n : ℕ) (e : IngestEvent Label Service) (frame : Bytes)
      → e.kind ≡ "service"
      → encode_frame (frame_encoders c l r) n e ≡ ok frame
      → encode_service_frame c r (pos n) e.labeler_did e.op e.service ≡ ok frame
  unfolding encode_frame
  encode_frame-service n e frame k h =
      let not_labels = subst (λ s. str_eq s "labels" ≡ false) (sym k) refl in
      let is_service = subst (λ s. str_eq s "service" ≡ true) (sym k) refl in
      with_context-ok "failed to encode service frame" _ frame
        (ground (arith, not_labels, is_service, h))

  -- When PersistIngest over a well-formed table returns the number n for an event of labels whose upstream
  -- number has 64 bits, the row that it appended holds a frame that decodes to n, the labeler, the upstream
  -- number (0 for none) and the labels of the event, in order.
  pub persist_ingest-decode_labels :
      {W : Type 0} (f : IngestFaults) (now : ℤ) (e : IngestEvent Label Service) (p : LabelPersist W)
      (w : W) (n : ℕ)
      → IsWellFormed p.store
      → e.kind ≡ "labels"
      → Fits (seq_or_zero e.upstream_seq)
      → (persist_ingest (frame_encoders c l r) f now e p w).0 ≡ ok n
      → (frame : Bytes) × ((persist_ingest (frame_encoders c l r) f now e p w).1.store
          ≡ append_row p.store (stored n e now frame))
        × (decode_labels_frame c l frame
            ≡ ok (record {
              seq = pos n;
              src = e.labeler_did;
              upstream_seq = seq_or_zero e.upstream_seq;
              labels = map some e.labels;
            }))
  persist_ingest-decode_labels f now e p w n h k fits o =
      let q = persist_ingest-Kept f now e p w n h o in
      (
        q.frame,
        q.appended,
        decode_labels_frame-encoded c l (pos n) (seq_or_zero e.upstream_seq) e.labeler_did
            (map some e.labels) q.frame q.small fits (encode_frame-labels n e q.frame k q.encoded),
      )

  -- When PersistIngest over a well-formed table returns the number n for an event of a labeler's record,
  -- the row that it appended holds a frame that decodes to n, the labeler, the operation and the record
  -- of the event, with no record if the event has none.
  pub persist_ingest-decode_service :
      {W : Type 0} (f : IngestFaults) (now : ℤ) (e : IngestEvent Label Service) (p : LabelPersist W)
      (w : W) (n : ℕ)
      → IsWellFormed p.store
      → e.kind ≡ "service"
      → (persist_ingest (frame_encoders c l r) f now e p w).0 ≡ ok n
      → (frame : Bytes) × ((persist_ingest (frame_encoders c l r) f now e p w).1.store
          ≡ append_row p.store (stored n e now frame))
        × (decode_service_frame c r frame
            ≡ ok (record { seq = pos n; src = e.labeler_did; op = e.op; service = e.service }))
  persist_ingest-decode_service f now e p w n h k o =
      let q = persist_ingest-Kept f now e p w n h o in
      (
        q.frame,
        q.appended,
        decode_service_frame-encoded c r (pos n) e.labeler_did e.op e.service q.frame q.small
            (encode_frame-service n e q.frame k q.encoded),
      )
