-- ===== src/Slurper/Frames/CrashSafe.antt =====
-- The order of the writes for a frame: the labels before the cursor.
use labeler_relay.Prelude.{
  ℕ, suc, ◌≡◌, refl, sym, subst, ◌⊎◌, inl, inr, List, [], ◌∷◌, ◌++◌, select, append_assoc,
  append-nil, arith, ℤ, Result, ok, err, Fault, length, String,
}
use labeler_relay.Store.Events.{Encoders, LabelPersist, call, persist_ingest}
use labeler_relay.Store.Events.Order.{IsWellFormed}
use labeler_relay.Store.Events.Ingest.{Accepted, persist_ingest-outcome}
use labeler_relay.Store.Registry.{Registry}
use labeler_relay.Slurper.Policy.{sig_required, keep_label}
use labeler_relay.Slurper.Frames.{
  Subscription, FrameFaults, keep_labels, labels_event_of, after_persist, after_keep,
  handle_label_labels,
}

module _ {Label W : Type 0} (s : Subscription Label W) where
  -- The labels that the policy of the subscription keeps.
  abbrev pub kept_of : List Label → List Label
  kept_of = select (λ l. keep_label s.sig l (sig_required s.labeler.require_sig s.sig_default))

  pub keep_labels-exact :
      (waits : ℕ → Fault) (i : ℕ) (ls kept k : List Label) (w : W)
      → (keep_labels s waits i ls kept w).0 ≡ ok k
      → k ≡ kept ++ kept_of ls
  unfolding keep_labels
  keep_labels-exact waits i [] kept k w h = ground (arith, append-nil kept)
  keep_labels-exact waits i (l ∷ ls) kept k w h = ground (
    arith,
    keep_labels-exact waits (suc i) ls (kept ++ l ∷ []) k w,
    keep_labels-exact waits (suc i) ls kept k (call s.on_drop_unsigned s.labeler.did w),
    append_assoc kept (l ∷ []) (kept_of ls),
  )

module _ {Label Service W : Type 0} (enc : Encoders Label Service) (s : Subscription Label W)
    (f : FrameFaults) (now seq : ℤ) (p : LabelPersist W) (reg : Registry) where
  -- PersistIngest as the handler calls it.
  abbrev store_labels : List Label → W → Result ℕ × LabelPersist W × W
  store_labels kept w = persist_ingest enc f.ingest now (labels_event_of s seq kept) p w

  -- The outcome of a frame of which `kept` is kept.
  abbrev pub Safe : List Label → Result (Unit {0}) × LabelPersist W × Registry × W → Type 0
  Safe kept out =
      (out.2 ≡ reg)
      ⊎ (((kept ≡ []) × (out.1 ≡ p))
          ⊎ ((w : W) × (out.1 ≡ (store_labels kept w).1)
              × Accepted enc now (labels_event_of s seq kept) p w (store_labels kept w)))

  after_persist-Safe :
      (n : ℕ) (o : Result ℕ × LabelPersist W × W) (e : String)
      → o.0 ≡ err e
      → (after_persist s f seq n o reg).2 ≡ reg
  after_persist-Safe n (ok a, p', w') e h = ground arith
  after_persist-Safe n (err a, p', w') e h = refl

  after_persist-store :
      (n : ℕ) (o : Result ℕ × LabelPersist W × W) → (after_persist s f seq n o reg).1 ≡ o.1
  after_persist-store n (ok a, p', w') = refl
  after_persist-store n (err a, p', w') = refl

  after_keep-Safe :
      (r : Result (List Label)) (w : W)
      → IsWellFormed p.store
      → (kept : List Label) → ((k : List Label) → r ≡ ok k → k ≡ kept)
      → Safe kept (after_keep enc s f now seq p reg (r, w))
  after_keep-Safe (err e) w h kept q = inl refl
  after_keep-Safe (ok []) w h kept q = inr (inl (sym (q [] refl), refl))
  after_keep-Safe (ok (l ∷ ls)) w h kept q =
      let n = length (l ∷ ls) in
      let o = store_labels (l ∷ ls) w in
      subst (λ k. Safe k (after_persist s f seq n o reg)) (q (l ∷ ls) refl)
        (elim (persist_ingest-outcome enc f.ingest now (labels_event_of s seq (l ∷ ls)) p w h) [
          | inl r ↦ inl (after_persist-Safe n o r.cause r.reported)
          | inr a ↦ inr (inr (w, after_persist-store n o, a))
        ])

  -- A #labels frame over a well-formed event table: the registry, where the cursor is, changes only if
  -- the signature policy keeps no label of the frame, the event table being as before, or after
  -- PersistIngest has stored exactly the labels it keeps, in their order, under one number. So a
  -- crash or a fault never skips labels of a frame.
  pub handle_label_labels-Safe :
      (labels : List Label) (w : W)
      → IsWellFormed p.store
      → Safe (kept_of s labels) (handle_label_labels enc s f now seq labels p reg w)
  unfolding handle_label_labels
  handle_label_labels-Safe labels w h =
      let out = keep_labels s f.wait 0 labels [] w in
      after_keep-Safe out.0 out.1 h (kept_of s labels)
        (λ k q. keep_labels-exact s f.wait 0 labels [] k w q)
