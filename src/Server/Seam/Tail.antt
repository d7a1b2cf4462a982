-- ===== src/Server/Seam/Tail.antt =====
-- The steps that take an event from the live channel keep the invariant, and so does every step
-- of the goroutine.
use mathlib.Core.Bool.{false≢true}
use labeler_relay.Prelude.{
  ℕ, zero, suc, ◌≡◌, refl, ap, sym, subst, ◌∙◌, true, false, ◌||◌, List, [], ◌∷◌, ◌++◌,
  append_assoc, ℤ, past, All, IsAscending, inl, inr, Bool-cases, if◌then◌else◌, above-All,
  IsAscending-append_right,
}
use labeler_relay.Store.Events.{LiveEvent}
use labeler_relay.Server.Channel.{Receipt, receive, receipt, at_end, at_wait, at_value}
use labeler_relay.Server.Seam.{
  System, Loop, backfill, seam, straggler, Phase, at, reading, stopping, tailing, finished, sending,
  ReaderEnv, finish, gives_up, tail_event, drain_event, tail_step, reader_step, drain_step,
  drain_stop, is_stopping,
}
use labeler_relay.Server.Seam.Invariant.{
  live_seq, beyond, View, LastLoop, Tailing, Sending, PhaseInv, view, Inv,
}
use labeler_relay.Server.Seam.Reader.{move-Inv, finish-Inv, if-Inv, begin_loop-Inv}
use labeler_relay.Server.Seam.Sends.{read_row-Inv, sending-Inv}

-- The first event that waits has left the live channel.
popped-Inv :
    (since : ℤ) (s : System) (h : Inv since s) (e : LiveEvent) (xs : List LiveEvent) (p : Phase)
    → s.live.buffer ≡ e ∷ xs
    → PhaseInv p (view s (xs ++ h.lost))
    → Inv since (record s { live = record s.live { buffer = xs }; phase = p })
popped-Inv since s h e xs p q k = record {
  well_formed = h.well_formed;
  ascending = h.ascending;
  minted = h.minted;
  ahead = h.ahead;
  cursor_ahead = h.cursor_ahead;
  since_ahead = h.since_ahead;
  exactly_once = h.exactly_once;
  before = h.before ++ e ∷ [];
  lost = h.lost;
  held =
      h.held
      ∙ ap (λ b. h.before ++ (b ++ h.lost)) q
      ∙ sym (append_assoc h.before (e ∷ []) (xs ++ h.lost));
  open_lost = h.open_lost;
  phase = k;
}

-- What waits is ascending, as the end of the history.
waiting-IsAscending :
    (since : ℤ) (s : System) (h : Inv since s) → IsAscending live_seq (s.live.buffer ++ h.lost)
waiting-IsAscending since s h =
    IsAscending-append_right live_seq h.before _ (subst (IsAscending live_seq) h.held h.ascending)

module _ (since : ℤ) (s : System) (running : s.cancelled ≡ false) (h : Inv since s) (e : LiveEvent)
    (xs : List LiveEvent) (first : s.live.buffer ≡ e ∷ xs)
    (t : Tailing (view s (s.live.buffer ++ h.lost))) where
  rest-IsAscending : IsAscending live_seq (e ∷ (xs ++ h.lost))
  rest-IsAscending =
      subst (λ b. IsAscending live_seq (b ++ h.lost)) first (waiting-IsAscending since s h)

  rest_unsent :
      All
        (λ x. past s.cursor x.relay_seq ≡ true → past s.sent x.relay_seq ≡ true)
        (e ∷ (xs ++ h.lost))
  rest_unsent =
      subst
        (λ b.
          All (λ x. past s.cursor x.relay_seq ≡ true → past s.sent x.relay_seq ≡ true)
            (b ++ h.lost))
        first t.unsent

  rest_covered : beyond s.sent s.history ≡ beyond s.sent (e ∷ (xs ++ h.lost))
  rest_covered = t.covered ∙ ap (λ b. beyond s.sent (b ++ h.lost)) first

  -- A live event that the backfill has sent is dropped.
  duplicate-Tailing : past s.cursor e.relay_seq ≡ false → Tailing (view s (xs ++ h.lost))
  duplicate-Tailing d = record {
    stopped = t.stopped;
    covered = rest_covered ∙ rw not_sent;
    unsent = rest_unsent.1;
    monotone = t.monotone;
  }
    where
      not_sent : past s.sent e.relay_seq ≡ false
      not_sent = elim (Bool-cases (past s.sent e.relay_seq)) [
        | inl p ↦ absurd (false≢true (sym d ∙ t.monotone e.relay_seq p))
        | inr p ↦ p
      ]

  -- A new one is the next to send.
  new-Sending : past s.cursor e.relay_seq ≡ true → Sending e (view s (xs ++ h.lost))
  new-Sending n =
      let unsent = rest_unsent.0 n in
      record {
        stopped = t.stopped;
        next =
            rest_covered
            ∙ rw unsent (
                ap (◌∷◌ e)
                  (above-All live_seq s.sent e.relay_seq (xs ++ h.lost) unsent rest-IsAscending.0));
        new = n;
        later = rest-IsAscending.0;
      }

tail_step-Inv :
    (since : ℤ) (s : System)
    → s.cancelled ≡ false
    → (h : Inv since s) → (env : ReaderEnv) → s.phase ≡ tailing
    → PhaseInv tailing (view s (s.live.buffer ++ h.lost))
    → Inv since (tail_step env s)
unfolding tail_step
tail_step-Inv since s running h env at_tail t =
    if-Inv since (gives_up env s) _ _ (λ q. finish-Inv since s h) (λ q. received (receipt s.live))
  where
    received : Receipt s.live → Inv since (tail_event (receive s.live) s)
    received (at_end c r) = rw r (finish-Inv since s h)
    received (at_wait r) = rw r h
    received (at_value e xs b r) = rw r (
        if-Inv since (past s.cursor e.relay_seq) _ _
          (λ n. popped-Inv since s h e xs (sending e) b (new-Sending since s running h e xs b t n))
          (λ d. popped-Inv since s h e xs s.phase b (
            subst (λ p. PhaseInv p (view s (xs ++ h.lost))) (sym at_tail)
              (duplicate-Tailing since s running h e xs b t d))))

stopping-Inv :
    (since : ℤ) (s : System) (h : Inv since s)
    → PhaseInv stopping (view s (s.live.buffer ++ h.lost))
    → Inv since (
        if s.draining
        then s
        else if s.cancelled
        then finish s
        else record s { phase = at straggler })
stopping-Inv since s h k =
    if-Inv since s.draining _ _ (λ q. h)
      (λ d.
        if-Inv since s.cancelled _ _ (λ q. finish-Inv since s h)
          (λ q. move-Inv since s (at straggler) h (k, d)))

pub reader_step-Inv :
    (since : ℤ) (s : System)
    → s.cancelled ≡ false
    → (h : Inv since s) → (env : ReaderEnv) (size : ℕ) (p : Phase) → s.phase ≡ p
    → PhaseInv p (view s (s.live.buffer ++ h.lost))
    → Inv since (reader_step env (suc size) p s)
unfolding reader_step
reader_step-Inv since s running h env size (at l) e k =
    begin_loop-Inv since s running h env size l k
reader_step-Inv since s running h env size (reading l rest n) e k =
    read_row-Inv since s running h env l rest n k
reader_step-Inv since s running h env size stopping e k = stopping-Inv since s h k
reader_step-Inv since s running h env size tailing e k = tail_step-Inv since s running h env e k
reader_step-Inv since s running h env size (sending x) e k = sending-Inv since s running h env x k
reader_step-Inv since s running h env size finished e k = h

-- The drainer runs in phases 1 and 2 alone, whose invariant does not speak of what waits.
drained-PhaseInv :
    (p : Phase) (v : View) (w : List LiveEvent)
    → v.draining ≡ true
    → PhaseInv p v
    → PhaseInv p (record v { waiting = w })
drained-PhaseInv (at backfill) v w d k = record { at_sent = k.at_sent; synced = k.synced }
drained-PhaseInv (at seam) v w d k = record { at_sent = k.at_sent; synced = k.synced }
drained-PhaseInv (at straggler) v w d k = absurd (false≢true (sym k.1 ∙ d))
drained-PhaseInv (reading backfill rest n) v w d k =
    (record { at_sent = k.0.at_sent; synced = k.0.synced }, k.1, tt)
drained-PhaseInv (reading seam rest n) v w d k =
    (record { at_sent = k.0.at_sent; synced = k.0.synced }, k.1, tt)
drained-PhaseInv (reading straggler [] zero) v w d k = absurd (false≢true (sym k.2.0 ∙ d))
drained-PhaseInv (reading straggler [] (suc n)) v w d k = absurd (false≢true (sym k.2 ∙ d))
drained-PhaseInv (reading straggler (e ∷ es) zero) v w d k = absurd (false≢true (sym k.2 ∙ d))
drained-PhaseInv (reading straggler (e ∷ es) (suc n)) v w d k = absurd (false≢true (sym k.2 ∙ d))
drained-PhaseInv stopping v w d k = record { at_sent = k.at_sent; synced = k.synced }
drained-PhaseInv tailing v w d k = absurd (false≢true (sym k.stopped ∙ d))
drained-PhaseInv (sending e) v w d k = absurd (false≢true (sym k.stopped ∙ d))
drained-PhaseInv finished v w d k = tt

-- The end of the drainer takes nothing from any phase.
stopped-PhaseInv :
    (p : Phase) (v : View) → PhaseInv p v → PhaseInv p (record v { draining = false })
stopped-PhaseInv (at backfill) v k = record { at_sent = k.at_sent; synced = k.synced }
stopped-PhaseInv (at seam) v k = record { at_sent = k.at_sent; synced = k.synced }
stopped-PhaseInv (at straggler) v k = (record { at_sent = k.0.at_sent; synced = k.0.synced }, refl)
stopped-PhaseInv (reading l rest n) v k =
    (record { at_sent = k.0.at_sent; synced = k.0.synced }, k.1, last l rest n k.2)
  where
    last :
        (m : Loop) (xs : List LiveEvent) (i : ℕ)
        → LastLoop m xs i v
        → LastLoop m xs i (record v { draining = false })
    last backfill xs i j = tt
    last seam xs i j = tt
    last straggler xs (suc i) j = refl
    last straggler (x ∷ xs) zero j = refl
    last straggler [] zero j = (refl, j.1)
stopped-PhaseInv stopping v k = record { at_sent = k.at_sent; synced = k.synced }
stopped-PhaseInv tailing v k = record {
  stopped = refl;
  covered = k.covered;
  unsent = k.unsent;
  monotone = k.monotone;
}
stopped-PhaseInv (sending e) v k = record {
  stopped = refl;
  next = k.next;
  new = k.new;
  later = k.later;
}
stopped-PhaseInv finished v k = tt

drainer_ends-Inv :
    (since : ℤ) (s : System) → Inv since s → Inv since (record s { draining = false })
drainer_ends-Inv since s h = record {
  well_formed = h.well_formed;
  ascending = h.ascending;
  minted = h.minted;
  ahead = h.ahead;
  cursor_ahead = h.cursor_ahead;
  since_ahead = h.since_ahead;
  exactly_once = h.exactly_once;
  before = h.before;
  lost = h.lost;
  held = h.held;
  open_lost = h.open_lost;
  phase = stopped-PhaseInv s.phase _ h.phase;
}

pub drain_stop-Inv : (since : ℤ) (s : System) → Inv since s → Inv since (drain_stop s)
unfolding drain_stop
drain_stop-Inv since s h =
    if-Inv since (is_stopping s.phase || s.cancelled) _ _ (λ q. drainer_ends-Inv since s h) (λ q. h)

pub drain_step-Inv : (since : ℤ) (s : System) → Inv since s → Inv since (drain_step s)
unfolding drain_step
drain_step-Inv since s h = if-Inv since s.draining _ _ (λ d. drained d (receipt s.live)) (λ q. h)
  where
    drained : s.draining ≡ true → Receipt s.live → Inv since (drain_event (receive s.live) s)
    drained d (at_end c r) = rw r (drainer_ends-Inv since s h)
    drained d (at_wait r) = rw r h
    drained d (at_value e xs b r) =
        rw r (
          popped-Inv since s h e xs s.phase b (drained-PhaseInv s.phase _ (xs ++ h.lost) d h.phase))
