-- ===== src/Firehose/Dial.antt =====
-- internal/firehose/watcher.go: dial, one session of the firehose, from the cursor in its URL to the
-- flush on the way out. The websocket and the scheduler are a library's, which calls handleEvent for
-- each event in turn.
pub mod Resume
mod Tests
use labeler_relay.Prelude.{
  ℕ, String, Bool, Option, none, some, List, [], ◌∷◌, ℤ, Result, ok, err, ◌>>=◌, Fault, attempt,
  with_context,
}
use labeler_relay.Store.Events.{Encoders}
use labeler_relay.Store.Meta.{Meta, get_meta, set_meta}
use labeler_relay.Upstream.{Urls}
use labeler_relay.Firehose.{
  LabelerServiceOp, Relay, OpEnv, Batch, or_same, cursor_key, maybe_flush_cursor, handle_commit,
}

-- A commit, with what is extracted of it and the outcomes of the calls while it is handled.
pub record Commit (Service : Type 0) : Type 0 where
  pub seq : ℤ
  pub ops : Result (List (LabelerServiceOp Service))
  pub envs : ℕ → OpEnv
  pub flush_fault : Fault
  pub elapsed : ℕ

-- The events with a callback.
pub data StreamEvent (Service : Type 0) : Type 0 where
  repo_commit : Commit Service → StreamEvent Service
  error_frame : StreamEvent Service

-- FirehoseWatcher: what does not change.
pub record Watcher (Label Service U : Type 0) : Type 0 where
  pub encoders : Encoders Label Service
  pub urls : Urls U
  pub sprint : ℤ → String
  pub url : String
  pub auto_subscribe : Bool
  pub cursor_flush_every : ℤ
  pub cursor_flush_interval : ℤ

-- NewFirehoseWatcher; thresholds of zero mean the defaults.
unfoldable pub new_firehose_watcher :
    {Label Service U : Type 0}
    → Encoders Label Service
    → Urls U
    → (ℤ → String)
    → String
    → Bool
    → Watcher Label Service U
new_firehose_watcher enc urls sprint url auto_subscribe = record {
  encoders = enc;
  urls = urls;
  sprint = sprint;
  url = url;
  auto_subscribe = auto_subscribe;
  cursor_flush_every = ℤ.pos 0;
  cursor_flush_interval = ℤ.pos 0;
}

unfoldable pub set_cursor_flush_thresholds :
    {Label Service U : Type 0} → ℤ → ℤ → Watcher Label Service U → Watcher Label Service U
set_cursor_flush_thresholds every interval v = record v {
  cursor_flush_every = every;
  cursor_flush_interval = interval;
}

pub record DialFaults : Type 0 where
  pub read_meta : Fault
  pub connect : Fault
  pub exit_flush : Fault
  pub stream : Fault

-- The start of a session.
abbrev pub reset : Batch → Batch
reset b = record b { pending_seq = none; commit_count = 0 }

abbrev pub raised : Fault → Result (Unit {0})
raised none = ok tt
raised (some e) = err e

module _ {Label Service U : Type 0} (v : Watcher Label Service U) where
  -- handleEvent; handleError only logs.
  unfoldable pub handle_event :
      {W : Type 0} → StreamEvent Service → Relay W → Batch → Relay W × Batch
  unfolding handle_commit
  handle_event (repo_commit c) r b =
      handle_commit v.encoders v.auto_subscribe v.sprint c.envs v.cursor_flush_every
        v.cursor_flush_interval c.flush_fault c.elapsed c.seq c.ops r b
  handle_event error_frame r b = (r, b)

  unfoldable pub handle_events :
      {W : Type 0} → List (StreamEvent Service) → Relay W → Batch → Relay W × Batch
  unfolding handle_event
  handle_events [] r b = (r, b)
  handle_events (e ∷ es) r b = let (r', b') = handle_event e r b in handle_events es r' b'

  -- A cursor that cannot be read is left out.
  abbrev pub with_cursor : Result (Option String) → U → U
  with_cursor (err e) u = u
  with_cursor (ok none) u = u
  with_cursor (ok (some cursor)) u = v.urls.set_cursor cursor u

  -- The URL that is dialled.
  unfoldable pub dial_url : Fault → Meta → Result String
  unfolding get_meta
  dial_url read_meta meta = do
    u ← with_context "invalid URL" (v.urls.parse v.url)
    ok (v.urls.render (with_cursor (get_meta read_meta cursor_key meta) u))

  -- The deferred flush.
  abbrev pub flush_pending : Fault → Option ℤ → Batch → Batch
  flush_pending fault none b = b
  flush_pending fault (some seq) b = record b {
    meta = or_same b.meta (set_meta fault cursor_key (v.sprint seq) b.meta);
  }

  -- After the connection stands.
  abbrev pub session :
      {W : Type 0} → DialFaults → List (StreamEvent Service) → Relay W → Batch → Relay W × Batch
  session f events r b =
      let (r', b') = handle_events events r b in (r', flush_pending f.exit_flush b'.pending_seq b')

  unfoldable pub dial :
      {W : Type 0}
      → DialFaults
      → List (StreamEvent Service)
      → Relay W
      → Batch
      → Result (Unit {0}) × Relay W × Batch
  dial f events r b =
      let opened = dial_url f.read_meta b.meta >>= (λ url. attempt f.connect "failed to dial") in
      let ended = session f events r (reset b) in
      elim opened [ err e ↦ (err e, r, reset b) | ok done ↦ (raised f.stream, ended.0, ended.1) ]
