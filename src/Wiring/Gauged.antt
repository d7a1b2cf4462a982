-- ===== src/Wiring/Gauged.antt =====
-- What the metrics of the wired process count.
use labeler_relay.Metrics.{Gauges}
use labeler_relay.Slurper.Policy.{sig_required, keep_label}
use labeler_relay.Prelude.{
  String, Bool, true, false, not, ◌&&◌, Option, none, some, str_eq, if◌then◌else◌, count, subst, ℕ,
  suc, ◌+◌, ◌≡◌, refl, ◌∙◌, arith, List, [], ◌∷◌, ◌++◌, length, length-append, ℤ, Result, ok, err,
  Fault, inl, inr, Result-cases,
}
use labeler_relay.Store.Events.{
  Bytes, Events, LiveEvent, Encoders, IngestEvent, IngestFaults, LabelPersist, announce, ingest_tx,
  persist_ingest, new_label_persist, set_broadcaster, set_head_seq_callback,
}
use labeler_relay.Store.Registry.{Labeler, Registry}
use labeler_relay.Config.{Config}
use labeler_relay.Slurper.Frames.{
  Subscription, FrameFaults, keep_labels, labels_event_of, after_persist, after_keep,
  handle_label_labels,
}
use labeler_relay.Slurper.Wired.{subscription_of}
use labeler_relay.Wiring.{Process, wired_persist, wired_slurper, count_dropped, broadcast_to}

-- The subscription of the wired process to a labeler.
abbrev pub subscription_to :
    {Label : Type 0} → Config → (Label → Bytes) → Labeler → Subscription Label Process
subscription_to cfg sig l = subscription_of sig (wired_slurper cfg) l

-- A label is dropped that has no signature where one is required, by the row or else by the configuration.
abbrev pub unsigned : Bytes → Bool
unsigned [] = true
unsigned (x ∷ xs) = false

abbrev pub demands : Config → Labeler → Bool
demands cfg l = elim l.require_sig [ none ↦ cfg.require_sig | some b ↦ b ]

abbrev pub drops : {Label : Type 0} → Config → Labeler → (Label → Bytes) → Label → Bool
drops cfg l sig x = demands cfg l && unsigned (sig x)

-- The counters of one labeler have grown by so many dropped and so many ingested labels, and those of
-- the others not.
pub record Grown (did : String) (dropped ingested : ℕ) (before after : Gauges) : Type 0 where
  pub on_dropped :
      (d : String) → after.dropped d ≡ before.dropped d + (if str_eq did d then dropped else 0)
  pub on_ingested :
      (d : String) → after.ingested d ≡ before.ingested d + (if str_eq did d then ingested else 0)

module _ {Label Service : Type 0} (enc : Encoders Label Service) (cfg : Config)
    (sig : Label → Bytes) (l : Labeler) where
  abbrev subscribed : Subscription Label Process
  subscribed = subscription_to cfg sig l

  abbrev dropping : List Label → ℕ
  dropping = count (drops cfg l sig)

  abbrev keeping : List Label → ℕ
  keeping = count (λ x. not (drops cfg l sig x))

  keep_label-drops :
      (policy : Option Bool) (global : Bool) (x : Label)
      → keep_label sig x (sig_required policy global)
        ≡ not (elim policy [ none ↦ global | some b ↦ b ] && unsigned (sig x))
  unfolding keep_label
  keep_label-drops none global x =
      elim (sig x)
        as (λ y. elim y [ [] ↦ not global | z ∷ zs ↦ true ] ≡ not (global && unsigned y)) [
          | [] ↦ ground arith
          | z ∷ zs ↦ ground arith
        ]
  keep_label-drops (some b) global x =
      elim (sig x) as (λ y. elim y [ [] ↦ not b | z ∷ zs ↦ true ] ≡ not (b && unsigned y)) [
        | [] ↦ ground arith
        | z ∷ zs ↦ ground arith
      ]

  -- The loop over the labels counts those that it drops, and keeps the others.
  keep_labels-counts :
      (waits : ℕ → Fault) (i : ℕ) (ls kept k : List Label) (w : Process) (d : String)
      → (keep_labels subscribed waits i ls kept w).0 ≡ ok k
      → ((keep_labels subscribed waits i ls kept w).1.gauges.dropped d
          ≡ w.gauges.dropped d + (if str_eq l.did d then dropping ls else 0))
        × ((keep_labels subscribed waits i ls kept w).1.gauges.ingested d ≡ w.gauges.ingested d)
        × (length k ≡ length kept + keeping ls)
  unfolding keep_labels wired_slurper
  keep_labels-counts waits i [] kept k w d h = (ground arith, refl, ground (arith, h))
  keep_labels-counts waits i (x ∷ xs) kept k w d h = ground (
    arith,
    h,
    keep_label-drops l.require_sig cfg.require_sig x,
    keep_labels-counts waits (suc i) xs (kept ++ x ∷ []) k w d,
    keep_labels-counts waits (suc i) xs kept k (count_dropped l.did w) d,
    length-append kept (x ∷ []),
  )

  -- The callbacks of the persister leave the other metrics.
  announce-gauges :
      (db : Events) (w : Process) (r : Result (LiveEvent × Events))
      → (announce (wired_persist db) w r).2.gauges ≡ w.gauges
  unfolding wired_persist set_broadcaster set_head_seq_callback new_label_persist broadcast_to
  announce-gauges db w (err e) = refl
  announce-gauges db w (ok (le, db')) = refl

  persist_ingest-gauges :
      (f : IngestFaults) (now : ℤ) (e : IngestEvent Label Service) (db : Events) (w : Process)
      → (persist_ingest enc f now e (wired_persist db) w).2.gauges ≡ w.gauges
  unfolding persist_ingest
  persist_ingest-gauges f now e db w =
      announce-gauges db w (ingest_tx enc f now e (wired_persist db).store)

  after_persist-Grown :
      (f : FrameFaults) (seq : ℤ) (n : ℕ) (o : Result ℕ × LabelPersist Process × Process)
      (reg : Registry)
      → (after_persist subscribed f seq n o reg).0 ≡ ok tt
      → Grown l.did 0 n o.2.gauges (after_persist subscribed f seq n o reg).3.gauges
  unfolding wired_slurper
  after_persist-Grown f seq n (err e, p, w) reg h = cc
  after_persist-Grown f seq n (ok m, p, w) reg h = record {
    on_dropped = λ d. ground arith;
    on_ingested = λ d. ground arith;
  }

  after_keep-Grown :
      (f : FrameFaults) (now seq : ℤ) (db : Events) (reg : Registry) (r : Result (List Label))
      (w : Process) (k : List Label)
      → r ≡ ok k
      → (after_keep enc subscribed f now seq (wired_persist db) reg (r, w)).0 ≡ ok tt
      → Grown l.did 0
          (length k)
          w.gauges
          (after_keep enc subscribed f now seq (wired_persist db) reg (r, w)).3.gauges
  after_keep-Grown f now seq db reg (err e) w k q h = cc
  after_keep-Grown f now seq db reg (ok []) w k q h =
      let same : [] ≡ k = cc in
      subst (λ ls. Grown l.did 0 (length ls) w.gauges w.gauges) same
        (record { on_dropped = λ d. ground arith; on_ingested = λ d. ground arith })
  after_keep-Grown f now seq db reg (ok (x ∷ xs)) w k q h =
      let same : x ∷ xs ≡ k = cc in
      let o =
        persist_ingest enc f.ingest now (labels_event_of subscribed seq (x ∷ xs)) (wired_persist db)
          w in
      let out = (after_persist subscribed f seq (length (x ∷ xs)) o reg).3.gauges in
      subst (λ ls. Grown l.did 0 (length ls) w.gauges out) same
        (subst (λ g. Grown l.did 0 (length (x ∷ xs)) g out)
          (persist_ingest-gauges f.ingest now (labels_event_of subscribed seq (x ∷ xs)) db w)
          (after_persist-Grown f seq (length (x ∷ xs)) o reg h))

  -- A #labels frame that the wired process handles without an error, whatever is in the registry and the
  -- event table: the counter of dropped labels of its labeler grows by the number of labels of the frame
  -- without a signature, if the row of the labeler, or else the configuration, requires one, and by
  -- nothing otherwise; the counter of ingested labels grows by the number of the other labels; and the
  -- counters of no other labeler change.
  pub handle_label_labels-Grown :
      (f : FrameFaults) (now seq : ℤ) (labels : List Label) (db : Events) (reg : Registry)
      (w : Process)
      → (handle_label_labels enc subscribed f now seq labels (wired_persist db) reg w).0 ≡ ok tt
      → Grown l.did
          (count (drops cfg l sig) labels)
          (count (λ x. not (drops cfg l sig x)) labels)
          w.gauges
          (handle_label_labels enc subscribed f now seq labels (wired_persist db) reg w).3.gauges
  unfolding handle_label_labels
  handle_label_labels-Grown f now seq labels db reg w h =
      let out = keep_labels subscribed f.wait 0 labels [] w in
      elim (Result-cases out.0) [
        | inr (m, q) ↦ absurd (ground (arith, q, h))
        | inl (k, q) ↦
            let rest = after_keep-Grown f now seq db reg out.0 out.1 k q h in
            record {
              on_dropped = λ d.
                  let (dropped, ingested, kept) = keep_labels-counts f.wait 0 labels [] k w d q in
                  rest.on_dropped d ∙ ground (arith, dropped);
              on_ingested = λ d.
                  let (dropped, ingested, kept) = keep_labels-counts f.wait 0 labels [] k w d q in
                  rest.on_ingested d ∙ ground (arith, ingested, kept);
            }
      ]
