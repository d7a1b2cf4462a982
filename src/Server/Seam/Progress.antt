-- ===== src/Server/Seam/Progress.antt =====
-- The loops of StreamFrom as they run when the system is left alone.
pub mod Live
mod Tests
use labeler_relay.Prelude.{
  ℕ, zero, suc, ◌+◌, ◌≤◌, ◌<◌, ◌≡◌, ◌≢◌, refl, sym, subst, ap, ◌∙◌, Bool, true, false, Option, none,
  some, List, [], ◌∷◌, ◌++◌, map, length, arith, ℤ, pos, past, inl, inr, Bool-cases, take,
  above-advance,
}
use labeler_relay.Store.Events.{Events, LiveEvent, Encoders, to_live}
use labeler_relay.Store.Events.Order.{IsWellFormed}
use labeler_relay.Store.Playback.{rows_after, order_by_seq, head, max_seq}
use labeler_relay.Server.Seam.{
  System, Loop, backfill, seam, straggler, Phase, at, reading, stopping, tailing, finished, sending,
  ReaderEnv, leave, reader_step, begin_loop, start_chunk, after_chunk, read_row, tail_step,
  gap_exceeds, drain_stop, broadcast_step, offer_live, stream_from,
}
use labeler_relay.Server.Seam.Schedule.{
  Move, reads, broadcasts, drainer_stops, step, run, SparesUnread,
}
use labeler_relay.Server.Seam.Invariant.{
  live_seq, beyond, Inv, Backfilling, Snapshot, PhaseInv, view,
}
use labeler_relay.Server.Seam.Writer.{broadcast_step-Inv}
use labeler_relay.Server.Seam.Kept.{run-cap}
use labeler_relay.Server.Seam.Delivery.{Aligned, after, after-Inv, idle-sends_all}
use labeler_relay.Server.Seam.Tail.{reader_step-Inv, drain_stop-Inv}

-- The moves of a system that is left alone: the goroutine, whose database calls succeed, the drainer that
-- sees the stop signal, and the writer that broadcasts its last commit.
pub data CalmMove : Type 0 where
  goroutine drainer_sees_stop writer_broadcasts : CalmMove

abbrev pub calm_env : ReaderEnv
calm_env = record { head_query = none; query = none; scan = none; takes_done = false }

module _ {Label Service : Type 0} (enc : Encoders Label Service) (size : ℕ) where
  abbrev pub move_of : CalmMove → Move Label Service
  move_of goroutine = reads calm_env
  move_of drainer_sees_stop = drainer_stops
  move_of writer_broadcasts = broadcasts

  -- Some calm moves lead to a system of the kind.
  abbrev pub Leads : (System → Type 0) → System → Type 0
  Leads P s = (cs : List CalmMove) × P (run enc (suc size) (map move_of cs) s)

  pub Leads-now : (P : System → Type 0) (s : System) → P s → Leads P s
  unfolding run
  Leads-now P s h = ([], h)

  pub Leads-step :
      (P : System → Type 0) (c : CalmMove) (s : System)
      → Leads P (step enc (suc size) (move_of c) s)
      → Leads P s
  unfolding run
  Leads-step P c s (cs, h) = (c ∷ cs, h)

  module _ (since : ℤ) (db : Events) (pending : Option LiveEvent) (cap : ℕ)
      (history : List LiveEvent) where
    -- A subscribed stream that is not cancelled.
    abbrev pub mk : Phase → Bool → List LiveEvent → ℤ → List LiveEvent → ℤ → System
    mk phase draining buffer cursor out sent = record {
      db = db;
      pending = pending;
      live = record { buffer = buffer; cap = cap; closed = false };
      draining = draining;
      cancelled = false;
      phase = phase;
      cursor = cursor;
      out = out;
      sent = sent;
      history = history;
    }

    pub go :
        (P : System → Type 0) (p : Phase) (d : Bool) (b : List LiveEvent) (c : ℤ)
        (out : List LiveEvent) (sent : ℤ)
        → Inv since (mk p d b c out sent)
        → (t : System) → reader_step calm_env (suc size) p (mk p d b c out sent) ≡ t
        → (Inv since t → Leads P t)
        → Leads P (mk p d b c out sent)
    unfolding step
    go P p d b c out sent i t e k = Leads-step P goroutine (mk p d b c out sent) (
        subst (λ t. Leads P t) (sym e)
          (k (
            subst (λ t. Inv since t) e
              (reader_step-Inv since (mk p d b c out sent) refl i calm_env size p refl i.phase))))

    module _ (P : System → Type 0) (d : Bool) (b : List LiveEvent) where
      abbrev left : ℤ → ℕ
      left c = length (beyond c history)

      -- The systems of the phase that keep the invariant, with at most `k` events left to send, lead to `P`.
      abbrev pub From : Phase → ℕ → Type 0
      From p k =
          (c : ℤ) (out : List LiveEvent) (sent : ℤ)
          → left c ≤ k
          → Inv since (mk p d b c out sent)
          → Leads P (mk p d b c out sent)

      chunk_end : (l : Loop) (n k : ℕ) → From (at l) k → From (reading l [] (suc n)) k
      unfolding reader_step after_chunk read_row
      chunk_end l n k next c out sent h i =
          go P (reading l [] (suc n)) d b c out sent i (mk (at l) d b c out sent) (ground arith)
            (next c out sent h)

      empty_chunk : (l : Loop) (k : ℕ) → From (leave l) k → From (reading l [] 0) k
      unfolding reader_step after_chunk read_row
      empty_chunk l k next c out sent h i =
          go P (reading l [] 0) d b c out sent i (mk (leave l) d b c out sent) (ground arith)
            (next c out sent h)

      -- Sending a row leaves one event less.
      row-left :
          (l : Loop) (e : LiveEvent) (es : List LiveEvent) (n : ℕ) (c : ℤ) (out : List LiveEvent)
          (sent : ℤ)
          → Inv since (mk (reading l (e ∷ es) n) d b c out sent)
          → suc (left (pos e.relay_seq)) ≡ left c
      row-left l e es n c out sent i =
          let (backfilling, (tail, ahead), last) = i.phase in
          ap (λ r. suc (length r))
            (above-advance live_seq c history e (es ++ tail) i.ascending ahead)
          ∙ ap length (sym ahead)

      pub rows :
          (l : Loop) (rest : List LiveEvent) (n k : ℕ)
          → From (at l) k
          → From (reading l rest (suc n)) k
      unfolding reader_step after_chunk read_row
      rows l [] n k next c out sent h i = chunk_end l n k next c out sent h i
      rows l (e ∷ es) n k next c out sent h i =
          let fewer = row-left l e es (suc n) c out sent i in
          go P (reading l (e ∷ es) (suc n)) d b c out sent i
            (mk (reading l es (suc (suc n))) d b (pos e.relay_seq) (out ++ e ∷ [])
              (pos e.relay_seq))
            refl
            (rows l es (suc n) k next (pos e.relay_seq) (out ++ e ∷ []) (pos e.relay_seq)
              (omega (arith, fewer)))

      -- A whole chunk: nothing was left to read, or less is left than before.
      pub chunk :
          (l : Loop) (k : ℕ)
          → From (leave l) k
          → ((j : ℕ) → j < k → From (at l) j)
          → (rest : List LiveEvent) → From (reading l rest 0) k
      unfolding reader_step after_chunk read_row
      chunk l k next again [] c out sent h i = empty_chunk l k next c out sent h i
      chunk l k next again (e ∷ es) c out sent h i =
          let fewer = row-left l e es 0 c out sent i in
          let lighter : left (pos e.relay_seq) < k = omega (arith, fewer) in
          go P (reading l (e ∷ es) 0) d b c out sent i
            (mk (reading l es 1) d b (pos e.relay_seq) (out ++ e ∷ []) (pos e.relay_seq)) refl
            (rows l es 0 (left (pos e.relay_seq)) (again (left (pos e.relay_seq)) lighter)
              (pos e.relay_seq) (out ++ e ∷ []) (pos e.relay_seq) (omega arith))

      -- The chunk that a loop reads.
      abbrev chunk_of : ℤ → List LiveEvent
      chunk_of c = map to_live (take (suc size) (order_by_seq (rows_after c db.rows)))

      loop_turn :
          (l : Loop) (k : ℕ) → From (leave l) k → ((j : ℕ) → j < k → From (at l) j) → From (at l) k
      unfolding reader_step begin_loop start_chunk head
      loop_turn backfill k next again c out sent h i =
          elim (Bool-cases (gap_exceeds (suc size) (max_seq db.rows) c)) [
            | inl q ↦
                go P (at backfill) d b c out sent i
                  (mk (reading backfill (chunk_of c) 0) d b c out sent) (rw q refl)
                  (chunk backfill k next again (chunk_of c) c out sent h)
            | inr q ↦
                go P (at backfill) d b c out sent i (mk (at seam) d b c out sent) (rw q refl)
                  (next c out sent h)
          ]
      loop_turn seam k next again c out sent h i =
          go P (at seam) d b c out sent i (mk (reading seam (chunk_of c) 0) d b c out sent) refl
            (chunk seam k next again (chunk_of c) c out sent h)
      loop_turn straggler k next again c out sent h i =
          go P (at straggler) d b c out sent i
            (mk (reading straggler (chunk_of c) 0) d b c out sent) refl
            (chunk straggler k next again (chunk_of c) c out sent h)

      loop :
          (l : Loop) (bound : ℕ)
          → ((k : ℕ) → From (leave l) k)
          → (k : ℕ) → k ≤ bound
          → From (at l) k
      loop l zero next k h = loop_turn l k (next k) (λ j less. absurd (omega arith))
      loop l (suc bound) next k h =
          loop_turn l k (next k) (λ j less. loop l bound next j (omega arith))

      pub from_loop : (l : Loop) → ((k : ℕ) → From (leave l) k) → (k : ℕ) → From (at l) k
      from_loop l next k = loop l k next k (omega arith)
