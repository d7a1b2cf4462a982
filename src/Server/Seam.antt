-- ===== src/Server/Seam.antt =====
-- internal/server/seam.go: StreamFrom, beside the writer of LabelPersist and a pruning store.
--
-- The threads are the goroutine of StreamFrom (`Phase` is its program counter), the drainer that it
-- starts, the writer, whose commit and broadcast are two steps, and the prune job. A schedule is a
-- list of moves. The bound of `out` only delays a send, so `out` is the list of what was sent.
-- `history` and `sent` are for the proofs: all events stored at the start or committed since, and
-- the number of the last event sent. The DB snapshot of a chunk is taken when its query runs.
pub mod Schedule
pub mod Invariant
pub mod Writer
pub mod Reader
pub mod Sends
pub mod Tail
pub mod Kept
pub mod Delivery
pub mod Progress
use labeler_relay.Prelude.{
  ℕ, zero, suc, ◌+◌, ◌-◌, ◌^◌, Bool, true, false, not, ◌&&◌, ◌||◌, Option, none, some, List, [],
  ◌∷◌, ◌++◌, map, ltb, leb, ◌==◌, if◌then◌else◌, ℤ, pos, negsuc, past, Result, ok, err, Fault, take,
}
use labeler_relay.Store.Events.{
  Row, Events, LiveEvent, IngestEvent, Encoders, IngestFaults, to_live, ingest_tx,
}
use labeler_relay.Store.Playback.{rows_after, order_by_seq, max_seq, head}
use labeler_relay.Store.Prune.{prune_batch}
use labeler_relay.Server.Channel.{Chan, make, has_room, Received, blocked, ended, got, receive}

-- The three loops that read chunks: phases 1, 2 and 3 of the source.
pub data Loop : Type 0 where
  backfill seam straggler : Loop

pub data Phase : Type 0 where
  at : Loop → Phase
  reading : Loop → List LiveEvent → ℕ → Phase
  stopping tailing finished : Phase
  sending : LiveEvent → Phase

pub record System : Type 0 where
  pub db : Events
  pub pending : Option LiveEvent
  pub live : Chan LiveEvent
  pub draining : Bool
  pub cancelled : Bool
  pub phase : Phase
  pub cursor : ℤ
  pub out : List LiveEvent
  pub sent : ℤ
  pub history : List LiveEvent

-- StreamFrom up to its `go` statements: the subscription exists, nothing is read yet. A writer may
-- stand between its commit and its broadcast.
unfoldable pub stream_from : Events → Option LiveEvent → ℤ → ℕ → System
stream_from db pending since buf_size = record {
  db = db;
  pending = pending;
  live = make buf_size;
  draining = true;
  cancelled = false;
  phase = at backfill;
  cursor = since;
  out = [];
  sent = since;
  history = map to_live db.rows;
}

-- `head - cursor > bufSize` in int64 arithmetic, which wraps for a very negative cursor.
unfoldable pub gap_exceeds : ℕ → ℕ → ℤ → Bool
gap_exceeds buf_size h (pos c) = ltb (c + buf_size) h
gap_exceeds buf_size h (negsuc c) = ltb (h + c + 1) (2 ^ 63) && ltb buf_size (h + c + 1)

-- What a step of the goroutine meets: the faults of its database calls, and the branch that
-- `select` takes when both are ready.
pub record ReaderEnv : Type 0 where
  pub head_query : Fault
  pub query : Fault
  pub scan : Fault
  pub takes_done : Bool

abbrev pub failed : Fault → Bool
failed none = false
failed (some e) = true

-- The deferred calls: the drainer ends, and the subscription with it.
abbrev pub finish : System → System
finish s = record s { phase = finished; draining = false; live = record s.live { closed = true } }

-- `if n == 0 { break }`
abbrev pub leave : Loop → Phase
leave backfill = at seam
leave seam = stopping
leave straggler = tailing

-- After PlaybackFramesChunk has returned `n` and whether it failed.
unfoldable pub after_chunk : Loop → ℕ → Bool → System → System
after_chunk l n fails s =
    if fails && not s.cancelled
    then finish s
    else if n == 0
    then record s { phase = leave l }
    else record s { phase = at l }

unfoldable pub start_chunk : ReaderEnv → ℕ → Loop → System → System
unfolding after_chunk order_by_seq
start_chunk env buf_size l s = if failed env.query then after_chunk l 0 true s else record s {
  phase = reading l (map to_live (take buf_size (order_by_seq (rows_after s.cursor s.db.rows)))) 0;
}

-- `select { case out <- e: … case <-streamCtx.Done(): … }`: is the send refused?
abbrev pub gives_up : ReaderEnv → System → Bool
gives_up env s = s.cancelled && env.takes_done

abbrev pub send : LiveEvent → System → System
send e s = record s { out = s.out ++ e ∷ []; sent = pos e.relay_seq }

-- The rest of one chunk, `n` events of which are delivered.
unfoldable pub read_row : ReaderEnv → Loop → List LiveEvent → ℕ → System → System
unfolding after_chunk
read_row env l [] n s = after_chunk l n (failed env.scan) s
read_row env l (e ∷ es) n s =
    if failed env.scan || gives_up env s
    then after_chunk l n true s
    else record (send e s) { cursor = pos e.relay_seq; phase = reading l es (suc n) }

-- The test of phase 1 on the head.
abbrev pub after_head : ReaderEnv → ℕ → Result ℕ → System → System
after_head env buf_size (err m) s = finish s
after_head env buf_size (ok h) s =
    if gap_exceeds buf_size h s.cursor
    then start_chunk env buf_size backfill s
    else record s { phase = at seam }

unfoldable pub begin_loop : ReaderEnv → ℕ → Loop → System → System
unfolding start_chunk gap_exceeds head max_seq
begin_loop env buf_size backfill s =
    if s.cancelled then finish s else after_head env buf_size (head env.head_query s.db) s
begin_loop env buf_size l s = if s.cancelled then finish s else start_chunk env buf_size l s

-- Phase 4: a live event, unless the backfill has sent it.
abbrev pub tail_event : Received LiveEvent → System → System
tail_event blocked s = s
tail_event ended s = finish s
tail_event (got e live) s =
    if past s.cursor e.relay_seq
    then record s { live = live; phase = sending e }
    else record s { live = live }

unfoldable pub tail_step : ReaderEnv → System → System
tail_step env s = if gives_up env s then finish s else tail_event (receive s.live) s

-- One step of the goroutine.
unfoldable pub reader_step : ReaderEnv → ℕ → Phase → System → System
unfolding begin_loop read_row tail_step
reader_step env buf_size (at l) s = begin_loop env buf_size l s
reader_step env buf_size (reading l rest n) s = read_row env l rest n s
reader_step env buf_size stopping s =
    if s.draining then s else if s.cancelled then finish s else record s { phase = at straggler }
reader_step env buf_size tailing s = tail_step env s
reader_step env buf_size (sending e) s =
    if gives_up env s then finish s else record (send e s) { phase = tailing }
reader_step env buf_size finished s = s

abbrev pub is_stopping : Phase → Bool
is_stopping stopping = true
is_stopping (at l) = false
is_stopping (reading l rest n) = false
is_stopping tailing = false
is_stopping finished = false
is_stopping (sending e) = false

-- The drainer takes an event from the live channel, and ends with the channel.
abbrev pub drain_event : Received LiveEvent → System → System
drain_event blocked s = s
drain_event ended s = record s { draining = false }
drain_event (got e live) s = record s { live = live }

unfoldable pub drain_step : System → System
drain_step s = if s.draining then drain_event (receive s.live) s else s

-- The drainer sees `stopDrain` or the end of the context.
unfoldable pub drain_stop : System → System
drain_stop s = if is_stopping s.phase || s.cancelled then record s { draining = false } else s

-- Hub.Broadcast at this subscription.
unfoldable pub offer_live : LiveEvent → Chan LiveEvent → Chan LiveEvent
offer_live e c =
    if c.closed
    then c
    else if has_room c
    then record c { buffer = c.buffer ++ e ∷ [] }
    else record c { closed = true }

abbrev pub broadcast_of : Option LiveEvent → System → System
broadcast_of none s = s
broadcast_of (some e) s = record s { pending = none; live = offer_live e s.live }

unfoldable pub broadcast_step : System → System
unfolding offer_live
broadcast_step s = broadcast_of s.pending s
