-- ===== src/Store/Log/Readers.antt =====
-- What a consumer that comes back reads of the log.
use labeler_relay.Prelude.{
  ℕ, ◌≤◌, ◌≡◌, refl, ap, ◌∙◌, Bool, none, List, [], ◌∷◌, ◌++◌, map, select, select-append,
  select-of_true, select-of_false, All, All-imp, ℤ, pos, past, arith,
}
use labeler_relay.Store.Events.{Row, Events, LiveEvent, Encoders, LabelPersist, to_live}
use labeler_relay.Store.Events.Order.{IsWellFormed}
use labeler_relay.Store.Playback.{playback_frames, rows_after}
use labeler_relay.Store.Playback.Exact.{collect, no_scan_fault, playback_frames-exact}
use labeler_relay.Store.Log.{log_of, Command, exec_all}
use labeler_relay.Store.Log.History.{History, All-Thinned, Steps-History}
use labeler_relay.Store.Log.Refines.{exec_all-Steps}

abbrev newer : ℤ → LiveEvent → Bool
newer since e = past since e.relay_seq

map-select :
    (since : ℤ) (rows : List Row)
    → map to_live (rows_after since rows) ≡ select (newer since) (map to_live rows)
map-select since [] = refl
map-select since (r ∷ rs) = ground (arith, map-select since rs)

-- PlaybackFrames over a well-formed table reads the log that the table stands for: it hands over the
-- entries past `since`, in their order.
playback_frames-log :
    (db : Events) (since : ℤ)
    → IsWellFormed db
    → (playback_frames none no_scan_fault db since collect []).2
      ≡ select (newer since) (log_of db).entries
playback_frames-log db since h =
    ap (λ o. o.2) (playback_frames-exact db since [] h).0 ∙ map-select since db.rows

All-map :
    (n : ℕ) (rows : List Row)
    → All (λ r. r.relay_seq ≤ n) rows
    → All (λ e. e.relay_seq ≤ n) (map to_live rows)
All-map n [] h = tt
All-map n (r ∷ rs) h = (h.0, All-map n rs h.1)

module _ {Label Service W : Type 0} (enc : Encoders Label Service) where
  -- From a well-formed table, a consumer that had everything up to the largest number given, and comes back after any run of
  -- ingests and batches of a prune: PlaybackFrames from that number gives it exactly the part of the log
  -- that the run has added and not removed again, in order and under larger numbers, and nothing it had.
  pub playback_frames-exec_all :
      (cs : List (Command Label Service)) (p : LabelPersist W) (w : W)
      → IsWellFormed p.store
      → (h : History (log_of p.store) (log_of (exec_all enc cs p w).0.store)) × ((playback_frames
            none no_scan_fault
            (exec_all enc cs p w).0.store
            (pos p.store.last_seq)
            collect
            []).2
          ≡ h.fresh)
  playback_frames-exec_all cs p w h =
      let (well_formed, steps) = exec_all-Steps enc cs p w h in
      let after = (exec_all enc cs p w).0.store in
      let hist = Steps-History steps in
      let seen = newer (pos p.store.last_seq) in
      let old =
        All-Thinned (λ e. e.relay_seq ≤ p.store.last_seq) _ hist.left hist.rest
          (All-map p.store.last_seq p.store.rows h.bounded) in
      (
        hist,
        playback_frames-log after (pos p.store.last_seq) well_formed
            ∙ ap (λ es. select seen es) hist.split
            ∙ select-append seen hist.left hist.fresh
            ∙ ap (λ es. es ++ select seen hist.fresh)
                (select-of_false seen hist.left
                  (All-imp _ _ hist.left (λ x q. ground (arith, q)) old))
            ∙ select-of_true seen hist.fresh
                (All-imp _ _ hist.fresh (λ x q. ground (arith, q)) hist.numbered),
      )
