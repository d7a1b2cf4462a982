-- ===== src/Server/Seam/Kept.antt =====
-- What every move leaves as it was: the capacity of the live channel, and that a stream is cancelled.
use labeler_relay.Prelude.{
  ℕ, ◌≡◌, refl, sym, subst, Bool-cases, inl, inr, List, ◌∷◌, Bool, true, false, Option, none, some,
  [], ◌∷◌, Result, ok, err, if◌then◌else◌, not, ◌&&◌, ◌==◌, past,
}
use labeler_relay.Store.Events.{LiveEvent, Events}
use labeler_relay.Store.Events.{Encoders, ingest_tx}
use labeler_relay.Store.Playback.{head}
use labeler_relay.Server.Channel.{
  Chan, has_room, receipt, at_end, at_wait, at_value, Received, blocked, ended, got, receive,
}
use labeler_relay.Server.Seam.{
  System, Loop, backfill, seam, straggler, Phase, at, reading, stopping, tailing, finished, sending,
  ReaderEnv, failed, after_chunk, start_chunk, after_head, tail_event, reader_step, drain_event,
  broadcast_of, gap_exceeds, offer_live,
}
use labeler_relay.Server.Seam.Schedule.{
  Move, commits, broadcasts, drains, drainer_stops, cancels, prunes, reads, commit_of, step, run,
}

-- A received value leaves the capacity.
abbrev SameCap : Chan LiveEvent → Received LiveEvent → Type 0
SameCap c blocked = Unit
SameCap c ended = Unit
SameCap c (got e c') = c'.cap ≡ c.cap

receive-SameCap : (c : Chan LiveEvent) → SameCap c (receive c)
receive-SameCap c = elim (receipt c) [
  | at_end q r ↦ rw r tt
  | at_wait r ↦ rw r tt
  | at_value x xs b r ↦ rw r refl
]

offer_live-cap : (e : LiveEvent) (c : Chan LiveEvent) → (offer_live e c).cap ≡ c.cap
unfolding offer_live
offer_live-cap e c = elim (Bool-cases c.closed) [
  | inl q ↦ rw q refl
  | inr q ↦ elim (Bool-cases (has_room c)) [ inl k ↦ rw (q, k) refl | inr k ↦ rw (q, k) refl ]
]

module _ (Q : Bool → ℕ → Type 0) (on_cancel : (n : ℕ) (b : Bool) → Q b n → Q true n) where
  abbrev P : System → Type 0
  P s = Q s.cancelled s.live.cap

  if-Kept : (b : Bool) (s t : System) → P s → P t → P (if b then s else t)
  if-Kept true s t h k = h
  if-Kept false s t h k = k

  after_chunk-Kept : (l : Loop) (n : ℕ) (b : Bool) (s : System) → P s → P (after_chunk l n b s)
  unfolding after_chunk
  after_chunk-Kept l n b s h = if-Kept (b && not s.cancelled) _ _ h (if-Kept (n == 0) _ _ h h)

  start_chunk-Kept :
      (env : ReaderEnv) (size : ℕ) (l : Loop) (s : System) → P s → P (start_chunk env size l s)
  unfolding start_chunk
  start_chunk-Kept env size l s h = if-Kept (failed env.query) _ _ (after_chunk-Kept l 0 true s h) h

  after_head-Kept :
      (env : ReaderEnv) (size : ℕ) (r : Result ℕ) (s : System) → P s → P (after_head env size r s)
  after_head-Kept env size (err m) s h = h
  after_head-Kept env size (ok n) s h =
      if-Kept (gap_exceeds size n s.cursor) _ _ (start_chunk-Kept env size backfill s h) h

  got-Kept :
      (s : System) (c : Chan LiveEvent) → c.cap ≡ s.live.cap → P s → P (record s { live = c })
  got-Kept s c k h = subst (Q s.cancelled) (sym k) h

  tail_event-Kept :
      (r : Received LiveEvent) (s : System) → SameCap s.live r → P s → P (tail_event r s)
  tail_event-Kept blocked s k h = h
  tail_event-Kept ended s k h = h
  tail_event-Kept (got e c) s k h =
      if-Kept (past s.cursor e.relay_seq) _ _ (got-Kept s c k h) (got-Kept s c k h)

  drain_event-Kept :
      (r : Received LiveEvent) (s : System) → SameCap s.live r → P s → P (drain_event r s)
  drain_event-Kept blocked s k h = h
  drain_event-Kept ended s k h = h
  drain_event-Kept (got e c) s k h = got-Kept s c k h

  reader_step-Kept :
      (env : ReaderEnv) (size : ℕ) (p : Phase) (s : System) → P s → P (reader_step env size p s)
  unfolding reader_step
  reader_step-Kept env size (at backfill) s h =
      if-Kept s.cancelled _ _ h (after_head-Kept env size (head env.head_query s.db) s h)
  reader_step-Kept env size (at seam) s h =
      if-Kept s.cancelled _ _ h (start_chunk-Kept env size seam s h)
  reader_step-Kept env size (at straggler) s h =
      if-Kept s.cancelled _ _ h (start_chunk-Kept env size straggler s h)
  reader_step-Kept env size (reading l [] n) s h = after_chunk-Kept l n (failed env.scan) s h
  reader_step-Kept env size (reading l (e ∷ es) n) s h =
      if-Kept _ _ _ (after_chunk-Kept l n true s h) h
  reader_step-Kept env size stopping s h = if-Kept s.draining _ _ h (if-Kept s.cancelled _ _ h h)
  reader_step-Kept env size tailing s h =
      if-Kept _ _ _ h (tail_event-Kept (receive s.live) s (receive-SameCap s.live) h)
  reader_step-Kept env size (sending e) s h = if-Kept _ _ _ h h
  reader_step-Kept env size finished s h = h

  broadcast_of-Kept : (o : Option LiveEvent) (s : System) → P s → P (broadcast_of o s)
  broadcast_of-Kept none s h = h
  broadcast_of-Kept (some e) s h = got-Kept s (offer_live e s.live) (offer_live-cap e s.live) h

  commit_of-Kept :
      (o : Option LiveEvent) (r : Result (LiveEvent × Events)) (s : System)
      → P s
      → P (commit_of o r s)
  commit_of-Kept (some e) r s h = h
  commit_of-Kept none (err m) s h = h
  commit_of-Kept none (ok (e, db)) s h = h

  pub step-Kept :
      {Label Service : Type 0} (enc : Encoders Label Service) (size : ℕ) (m : Move Label Service)
      (s : System)
      → P s
      → P (step enc size m s)
  unfolding step
  step-Kept enc size (commits f now e) s h =
      commit_of-Kept s.pending (ingest_tx enc f now e s.db) s h
  step-Kept enc size broadcasts s h = broadcast_of-Kept s.pending s h
  step-Kept enc size drains s h =
      if-Kept s.draining _ _ (drain_event-Kept (receive s.live) s (receive-SameCap s.live) h) h
  step-Kept enc size drainer_stops s h = if-Kept _ _ _ h h
  step-Kept enc size cancels s h = on_cancel s.live.cap s.cancelled h
  step-Kept enc size (prunes pick cutoff) s h = h
  step-Kept enc size (reads env) s h = reader_step-Kept env size s.phase s h

  pub run-Kept :
      {Label Service : Type 0} (enc : Encoders Label Service) (size : ℕ)
      (ms : List (Move Label Service)) (s : System)
      → P s
      → P (run enc size ms s)
  unfolding run
  run-Kept enc size [] s h = h
  run-Kept enc size (m ∷ ms) s h = run-Kept enc size ms _ (step-Kept enc size m s h)

-- A cancelled stream stays cancelled.
pub step-cancelled :
    {Label Service : Type 0} (enc : Encoders Label Service) (size : ℕ) (m : Move Label Service)
    (s : System)
    → s.cancelled ≡ true
    → (step enc size m s).cancelled ≡ true
step-cancelled = step-Kept (λ b n. b ≡ true) (λ n b h. refl)

pub run-cap :
    {Label Service : Type 0} (enc : Encoders Label Service) (size : ℕ)
    (ms : List (Move Label Service)) (s : System)
    → (run enc size ms s).live.cap ≡ s.live.cap
run-cap enc size ms s = run-Kept (λ b n. n ≡ s.live.cap) (λ n b h. h) enc size ms s refl
