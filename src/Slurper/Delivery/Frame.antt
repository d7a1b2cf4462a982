-- ===== src/Slurper/Delivery/Frame.antt =====
-- What the handler of a #labels frame leaves: the rows of the event table and the stored cursor.
use labeler_relay.Prelude.{
  ℕ, suc, ◌^◌, ◌<◌, arith, ◌≡◌, refl, sym, subst, ap, ◌∙◌, ◌⊎◌, inl, inr, some, List, [], ◌∷◌, ◌++◌,
  length, append_assoc, append-nil, ℤ, Result, ok, err,
}
use labeler_relay.Store.Events.{
  Row, Encoders, LabelPersist, encode_frame, persist_ingest, IngestEvent, IngestFaults,
}
use labeler_relay.Store.Events.Order.{IsWellFormed, stored}
use labeler_relay.Store.Events.Ingest.{persist_ingest-outcome, persist_ingest-IsWellFormed}
use labeler_relay.Store.Registry.{Registry, write_cursor}
use labeler_relay.Slurper.Frames.{
  Subscription, FrameFaults, keep_labels, labels_event_of, after_persist, after_keep,
  handle_label_labels,
}
use labeler_relay.Slurper.Frames.CrashSafe.{kept_of, keep_labels-exact}
use labeler_relay.Slurper.Delivery.{UpFrame}

-- One table is the other with rows added at its end.
abbrev pub Grows : List Row → List Row → Type 0
Grows rows rows' = (more : List Row) × (rows' ≡ rows ++ more)

Grows-refl : (rows : List Row) → Grows rows rows
Grows-refl rows = ([], sym (append-nil rows))

module _ {Label Service W : Type 0} (enc : Encoders Label Service) (s : Subscription Label W) where
  -- A row holds the frame of the labels that are kept, with its number, under the labeler's DID.
  pub record Holds (seq : ℤ) (kept : List Label) (r : Row) : Type 0 where
    pub labels_kind : r.kind ≡ "labels"
    pub small : r.relay_seq < 2 ^ 63
    pub origin : r.labeler_did ≡ s.labeler.did
    pub numbered : r.upstream_seq ≡ some seq
    pub encoded : encode_frame enc r.relay_seq (labels_event_of s seq kept) ≡ ok r.frame_cbor

  -- No label of the frame is kept, or a row of the table holds those that are.
  abbrev pub IsStored : List Row → UpFrame Label → Type 0
  IsStored rows u =
      (kept_of s u.1 ≡ [])
      ⊎ ((before : List Row) × (r : Row) × (behind : List Row) × (rows ≡ before ++ r ∷ behind)
          × Holds u.0 (kept_of s u.1) r)

  pub IsStored-Grows :
      (rows rows' : List Row) (u : UpFrame Label)
      → Grows rows rows'
      → IsStored rows u
      → IsStored rows' u
  IsStored-Grows rows rows' u g (inl none_kept) = inl none_kept
  IsStored-Grows rows rows' u (more, g) (inr (before, r, behind, split, holds)) = inr (
    before,
    r,
    behind ++ more,
    g ∙ ap (λ z. z ++ more) split ∙ append_assoc before (r ∷ behind) more,
    holds,
  )

  pub persist_ingest-Grows :
      (f : IngestFaults) (now : ℤ) (e : IngestEvent Label Service) (p : LabelPersist W) (w : W)
      → IsWellFormed p.store
      → Grows p.store.rows (persist_ingest enc f now e p w).1.store.rows
  persist_ingest-Grows f now e p w h = elim (persist_ingest-outcome enc f now e p w h) [
    | inl r ↦ subst (λ q. Grows p.store.rows q.store.rows) (sym r.kept) (Grows-refl p.store.rows)
    | inr a ↦ (_, ap (λ db. db.rows) a.committed.appended)
  ]

  -- What the handler of a frame leaves.
  pub record Handled (f : FrameFaults) (seq : ℤ) (labels : List Label) (p : LabelPersist W)
      (reg : Registry) (out : Result (Unit {0}) × LabelPersist W × Registry × W) : Type 0 where
    pub grown : Grows p.store.rows out.1.store.rows
    pub well_formed : IsWellFormed out.1.store
    pub advanced :
        (out.2 ≡ reg)
        ⊎ ((out.2 ≡ (write_cursor f.cursor_exec f.cursor_affected s.labeler.did seq reg).1)
            × IsStored out.1.store.rows (seq, labels))

  accepted-IsStored :
      (f : IngestFaults) (now seq : ℤ) (labels kept : List Label) (p : LabelPersist W) (w : W)
      (n : ℕ)
      → IsWellFormed p.store
      → kept ≡ kept_of s labels
      → (persist_ingest enc f now (labels_event_of s seq kept) p w).0 ≡ ok n
      → IsStored
          (persist_ingest enc f now (labels_event_of s seq kept) p w).1.store.rows
          (seq, labels)
  accepted-IsStored f now seq labels kept p w n h q done =
      let e = labels_event_of s seq kept in
      elim (persist_ingest-outcome enc f now e p w h) [
        | inl r ↦ absurd (let failed = r.reported in cc)
        | inr a ↦ inr (
          p.store.rows,
          stored (suc p.store.last_seq) e now a.event.frame_cbor,
          [],
          ap (λ db. db.rows) a.committed.appended,
          subst (λ k. Holds seq k (stored (suc p.store.last_seq) e now a.event.frame_cbor)) q
              (record {
                labels_kind = refl;
                small = omega (arith, a.committed.room);
                origin = refl;
                numbered = refl;
                encoded = a.committed.encoded;
              }),
        )
      ]

  after_persist-Handled :
      (f : FrameFaults) (seq : ℤ) (labels : List Label) (p : LabelPersist W) (reg : Registry)
      (n : ℕ) (o : Result ℕ × LabelPersist W × W)
      → Grows p.store.rows o.1.store.rows
      → IsWellFormed o.1.store
      → ((m : ℕ) → o.0 ≡ ok m → IsStored o.1.store.rows (seq, labels))
      → Handled f seq labels p reg (after_persist s f seq n o reg)
  after_persist-Handled f seq labels p reg n (err e, p', w') g h k = record {
    grown = g;
    well_formed = h;
    advanced = inl refl;
  }
  after_persist-Handled f seq labels p reg n (ok m, p', w') g h k = record {
    grown = g;
    well_formed = h;
    advanced = inr (refl, k m refl);
  }

  after_keep-Handled :
      (f : FrameFaults) (now seq : ℤ) (labels : List Label) (p : LabelPersist W) (reg : Registry)
      (r : Result (List Label)) (w : W)
      → IsWellFormed p.store
      → ((k : List Label) → r ≡ ok k → k ≡ kept_of s labels)
      → Handled f seq labels p reg (after_keep enc s f now seq p reg (r, w))
  after_keep-Handled f now seq labels p reg (err e) w h q = record {
    grown = Grows-refl p.store.rows;
    well_formed = h;
    advanced = inl refl;
  }
  after_keep-Handled f now seq labels p reg (ok []) w h q = record {
    grown = Grows-refl p.store.rows;
    well_formed = h;
    advanced = inr (refl, inl (sym (q [] refl)));
  }
  after_keep-Handled f now seq labels p reg (ok (l ∷ ls)) w h q =
      let e = labels_event_of s seq (l ∷ ls) in
      after_persist-Handled f seq labels p reg (length (l ∷ ls))
        (persist_ingest enc f.ingest now e p w) (persist_ingest-Grows f.ingest now e p w h)
        (persist_ingest-IsWellFormed enc f.ingest now e p w h)
        (λ m. accepted-IsStored f.ingest now seq labels (l ∷ ls) p w m h (q (l ∷ ls) refl))

  pub handle_label_labels-Handled :
      (f : FrameFaults) (now seq : ℤ) (labels : List Label) (p : LabelPersist W) (reg : Registry)
      (w : W)
      → IsWellFormed p.store
      → Handled f seq labels p reg (handle_label_labels enc s f now seq labels p reg w)
  unfolding handle_label_labels
  handle_label_labels-Handled f now seq labels p reg w h =
      let out = keep_labels s f.wait 0 labels [] w in
      after_keep-Handled f now seq labels p reg out.0 out.1 h
        (λ k q. keep_labels-exact s f.wait 0 labels [] k w q)
