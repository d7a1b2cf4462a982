-- ===== src/Server/Seam/Delivery.antt =====
-- What StreamFrom delivers under every schedule of its goroutines, the writer and the prune job.
use mathlib.Core.Bool.{false≢true}
use labeler_relay.Prelude.{
  ℕ, zero, suc, ◌<◌, ◌≤◌, ◌≡◌, refl, ap, sym, subst, ◌∙◌, Bool, true, false, Option, none, List, [],
  ◌∷◌, ◌++◌, map, arith, append-nil, ℤ, past, All, IsAscending, ◌⊎◌, inl, inr, Bool-cases,
}
use labeler_relay.Store.Events.{Row, Events, LiveEvent, Encoders, to_live}
use labeler_relay.Store.Events.Order.{seq_of, IsWellFormed}
use labeler_relay.Store.Playback.{rows_after}
use labeler_relay.Store.Prune.{prune_batch}
use labeler_relay.Store.Prune.Safety.{prune_batch-IsWellFormed, last_seq-prune_batch}
use labeler_relay.Server.Seam.{
  System, backfill, seam, straggler, Phase, at, reading, stopping, tailing, finished, sending,
  stream_from,
}
use labeler_relay.Server.Seam.Schedule.{
  Move, commits, broadcasts, drains, drainer_stops, cancels, prunes, reads, step, run, Spares,
  SparesUnread,
}
use labeler_relay.Server.Seam.Invariant.{live_seq, beyond, to_list, Tailing, PhaseInv, view, Inv}
use labeler_relay.Server.Seam.Writer.{commit_step-Inv, broadcast_step-Inv}
use labeler_relay.Server.Seam.Kept.{step-cancelled}
use labeler_relay.Server.Seam.Tail.{reader_step-Inv, drain_step-Inv, drain_stop-Inv}

-- A prune that spares the unread rows leaves each phase what it needs.
pruned-PhaseInv :
    (p : Phase) (s t : System) (w : List LiveEvent)
    → Spares p s t
    → PhaseInv p (view s w)
    → PhaseInv p (record (view s w) { unread = map to_live (rows_after s.cursor t.db.rows) })
pruned-PhaseInv (at backfill) s t w e k = record {
  at_sent = k.at_sent;
  synced = ap (map to_live) e ∙ k.synced;
}
pruned-PhaseInv (at seam) s t w e k = record {
  at_sent = k.at_sent;
  synced = ap (map to_live) e ∙ k.synced;
}
pruned-PhaseInv (at straggler) s t w e k =
    (record { at_sent = k.0.at_sent; synced = ap (map to_live) e ∙ k.0.synced }, k.1)
pruned-PhaseInv (reading backfill rest n) s t w e k =
    (record { at_sent = k.0.at_sent; synced = ap (map to_live) e ∙ k.0.synced }, k.1, tt)
pruned-PhaseInv (reading seam rest n) s t w e k =
    (record { at_sent = k.0.at_sent; synced = ap (map to_live) e ∙ k.0.synced }, k.1, tt)
pruned-PhaseInv (reading straggler [] zero) s t w e k =
    (record { at_sent = k.0.at_sent; synced = ap (map to_live) e ∙ k.0.synced }, k.1, k.2)
pruned-PhaseInv (reading straggler [] (suc n)) s t w e k =
    (record { at_sent = k.0.at_sent; synced = ap (map to_live) e ∙ k.0.synced }, k.1, k.2)
pruned-PhaseInv (reading straggler (x ∷ xs) zero) s t w e k =
    (record { at_sent = k.0.at_sent; synced = ap (map to_live) e ∙ k.0.synced }, k.1, k.2)
pruned-PhaseInv (reading straggler (x ∷ xs) (suc n)) s t w e k =
    (record { at_sent = k.0.at_sent; synced = ap (map to_live) e ∙ k.0.synced }, k.1, k.2)
pruned-PhaseInv stopping s t w e k = record {
  at_sent = k.at_sent;
  synced = ap (map to_live) e ∙ k.synced;
}
pruned-PhaseInv tailing s t w e k = record {
  stopped = k.stopped;
  covered = k.covered;
  unsent = k.unsent;
  monotone = k.monotone;
}
pruned-PhaseInv (sending x) s t w e k = record {
  stopped = k.stopped;
  next = k.next;
  new = k.new;
  later = k.later;
}
pruned-PhaseInv finished s t w e k = tt

pruned-Inv :
    (since : ℤ) (s : System) (pick : List Row → ℕ → Bool) (cutoff : ℤ)
    → Spares s.phase s (record s { db = (prune_batch pick cutoff s.db).0 })
    → Inv since s
    → Inv since (record s { db = (prune_batch pick cutoff s.db).0 })
pruned-Inv since s pick cutoff e h =
    let same = last_seq-prune_batch pick cutoff s.db in
    record {
      well_formed = prune_batch-IsWellFormed pick cutoff s.db h.well_formed;
      ascending = h.ascending;
      minted = rw same h.minted;
      ahead = rw same h.ahead;
      cursor_ahead = rw same h.cursor_ahead;
      since_ahead = rw same h.since_ahead;
      exactly_once = h.exactly_once;
      before = h.before;
      lost = h.lost;
      held = h.held;
      open_lost = h.open_lost;
      phase =
          pruned-PhaseInv s.phase s (record s { db = (prune_batch pick cutoff s.db).0 })
            (s.live.buffer ++ h.lost) e h.phase;
    }

live-IsAscending :
    (rows : List Row) → IsAscending seq_of rows → IsAscending live_seq (map to_live rows)
live-IsAscending [] h = tt
live-IsAscending (r ∷ rs) h = (all rs h.0, live-IsAscending rs h.1)
  where
    all :
        (xs : List Row)
        → All (λ x. r.relay_seq < x.relay_seq) xs
        → All (λ x. r.relay_seq < x.relay_seq) (map to_live xs)
    all [] k = tt
    all (x ∷ xs) k = (k.0, all xs k.1)

live-minted :
    (n : ℕ) (rows : List Row)
    → All (λ r. r.relay_seq ≤ n) rows
    → All (λ e. e.relay_seq ≤ n) (map to_live rows)
live-minted n [] h = tt
live-minted n (r ∷ rs) h = (h.0, live-minted n rs h.1)

live-beyond :
    (c : ℤ) (rows : List Row) → map to_live (rows_after c rows) ≡ beyond c (map to_live rows)
live-beyond c [] = refl
live-beyond c (r ∷ rs) = ground (arith, live-beyond c rs)

-- The stored events, and what a writer still has to broadcast of them: nothing, or the last.
abbrev pub Aligned : Events → Option LiveEvent → Type 0
Aligned db pending = (pre : List LiveEvent) × (map to_live db.rows ≡ pre ++ to_list pending)

stream_from-Inv :
    (db : Events) (pending : Option LiveEvent) (since : ℤ) (size : ℕ)
    → IsWellFormed db
    → Aligned db pending
    → past since (suc db.last_seq) ≡ true
    → Inv since (stream_from db pending since size)
unfolding stream_from
stream_from-Inv db pending since size h (pre, e) p = record {
  well_formed = h;
  ascending = live-IsAscending db.rows h.ascending;
  minted = live-minted db.last_seq db.rows h.bounded;
  ahead = p;
  cursor_ahead = p;
  since_ahead = p;
  exactly_once = refl;
  before = pre;
  lost = to_list pending;
  held = e;
  open_lost = λ o. refl;
  phase = record { at_sent = refl; synced = live-beyond since db.rows };
}

-- At the live channel, with nothing that waits, all is sent.
pub idle-sends_all :
    (since : ℤ) (s : System)
    → Inv since s
    → s.phase ≡ tailing
    → s.live.buffer ≡ []
    → s.live.closed ≡ false
    → s.pending ≡ none
    → s.out ≡ beyond since s.history
idle-sends_all since s i at_tail empty not_dropped idle =
    let t : Tailing (view s (s.live.buffer ++ i.lost)) =
      subst (λ f. PhaseInv f (view s (s.live.buffer ++ i.lost))) at_tail i.phase in
    let none_waits : s.live.buffer ++ i.lost ≡ [] =
      ap (λ b. b ++ i.lost) empty ∙ i.open_lost not_dropped ∙ ap to_list idle in
    sym (append-nil s.out)
    ∙ ap (◌++◌ s.out) (sym (t.covered ∙ ap (beyond s.sent) none_waits))
    ∙ i.exactly_once

-- The invariant holds until the stream is cancelled.
abbrev Good : ℤ → System → Type 0
Good since s = (s.cancelled ≡ true) ⊎ ((s.cancelled ≡ false) × Inv since s)

good : (since : ℤ) (s : System) → Inv since s → Good since s
good since s h = elim (Bool-cases s.cancelled) [ inl c ↦ inl c | inr c ↦ inr (c, h) ]

Good-Inv : (since : ℤ) (s : System) → Good since s → s.cancelled ≡ false → Inv since s
Good-Inv since s (inl c) q = absurd (false≢true (sym q ∙ c))
Good-Inv since s (inr h) q = h.1

module _ {Label Service : Type 0} (enc : Encoders Label Service) (size : ℕ) (since : ℤ) where
  after_move :
      (m : Move Label Service) (s : System)
      → (s.cancelled ≡ false → Inv since s → Inv since (step enc (suc size) m s))
      → Good since s
      → Good since (step enc (suc size) m s)
  after_move m s f (inl c) = inl (step-cancelled enc (suc size) m s c)
  after_move m s f (inr (c, h)) = good since _ (f c h)

  run-Good :
      (ms : List (Move Label Service)) (s : System)
      → SparesUnread enc (suc size) ms s
      → Good since s
      → Good since (run enc (suc size) ms s)
  unfolding run step
  run-Good [] s k g = g
  run-Good (commits f now e ∷ ms) s k g =
      run-Good ms _ k
        (after_move (commits f now e) s (λ c h. commit_step-Inv enc (suc size) f now e since s h) g)
  run-Good (broadcasts ∷ ms) s k g =
      run-Good ms _ k (after_move broadcasts s (λ c h. broadcast_step-Inv since s h) g)
  run-Good (drains ∷ ms) s k g =
      run-Good ms _ k (after_move drains s (λ c h. drain_step-Inv since s h) g)
  run-Good (drainer_stops ∷ ms) s k g =
      run-Good ms _ k (after_move drainer_stops s (λ c h. drain_stop-Inv since s h) g)
  run-Good (cancels ∷ ms) s k g = run-Good ms (record s { cancelled = true }) k (inl refl)
  run-Good (prunes pick cutoff ∷ ms) s k g =
      run-Good ms _ k.1
        (after_move (prunes pick cutoff) s (λ c h. pruned-Inv since s pick cutoff k.0 h) g)
  run-Good (reads env ∷ ms) s k g = run-Good ms _ k (
      after_move (reads env) s (λ c h. reader_step-Inv since s c h env size s.phase refl h.phase) g)

  module _ (db : Events) (pending : Option LiveEvent) (ms : List (Move Label Service)) where
    -- The system after the schedule.
    abbrev pub after : System
    after = run enc (suc size) ms (stream_from db pending since (suc size))

    pub after-Inv :
        IsWellFormed db
        → Aligned db pending
        → past since (suc db.last_seq) ≡ true
        → SparesUnread enc (suc size) ms (stream_from db pending since (suc size))
        → after.cancelled ≡ false
        → Inv since after
    unfolding stream_from
    after-Inv h a p k q =
        Good-Inv since after
          (run-Good ms _ k (good since _ (stream_from-Inv db pending since (suc size) h a p))) q

    -- Under every schedule of the goroutine, the drainer, the writer and a prune job that spares
    -- what is unread, faults of the database and a dropped subscription included: as long as the
    -- stream is not cancelled, what it has sent is, event for event and in order, the beginning of
    -- the events past `since` that were stored at the start or committed since. Nothing is left
    -- out at the seam between stored and live events and nothing is sent twice. `since` is not
    -- past the next number to be given out, and the buffer has room for at least one event.
    pub stream_from-sends_prefix :
        IsWellFormed db
        → Aligned db pending
        → past since (suc db.last_seq) ≡ true
        → SparesUnread enc (suc size) ms (stream_from db pending since (suc size))
        → after.cancelled ≡ false
        → (rest : List LiveEvent) × (after.out ++ rest ≡ beyond since after.history)
    stream_from-sends_prefix h a p k q =
        let i = after-Inv h a p k q in (beyond after.sent after.history, i.exactly_once)

    -- From a well-formed table, with `since` not past the next number and a schedule whose prunes
    -- spare what is unread: once a stream that is not cancelled has reached its live phase and has
    -- not been dropped, and its channel is empty with no commit waiting for its broadcast, it has
    -- sent all events past `since` that were stored at the start or committed since.
    pub stream_from-sends_all :
        IsWellFormed db
        → Aligned db pending
        → past since (suc db.last_seq) ≡ true
        → SparesUnread enc (suc size) ms (stream_from db pending since (suc size))
        → after.cancelled ≡ false
        → after.phase ≡ tailing
        → after.live.buffer ≡ []
        → after.live.closed ≡ false
        → after.pending ≡ none
        → after.out ≡ beyond since after.history
    stream_from-sends_all h a p k q at_tail empty not_dropped idle =
        idle-sends_all since after (after-Inv h a p k q) at_tail empty not_dropped idle
