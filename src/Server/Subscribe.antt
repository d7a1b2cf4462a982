-- ===== src/Server/Subscribe.antt =====
-- internal/server/subscribe.go: HandleSubscribeLabelers around StreamFrom. The socket is a library's:
-- a frame is what the handler hands to it, and whether the n-th write fails is an argument. So are
-- strconv.ParseInt and the encoder of the info frame.
pub mod Resume
pub mod Pruned
pub mod Wire
pub mod Settings
use labeler_relay.Prelude.{
  ℕ, zero, suc, ◌+◌, String, Bool, true, false, not, Option, none, some, List, [], ◌∷◌, ◌++◌, ltb,
  if◌then◌else◌, ℤ, pos, ◌-ℤ◌, Result, ok, err, Fault, str_eq,
}
use Prim.Native.String
use labeler_relay.Store.Events.{Bytes, Events, LiveEvent}
use labeler_relay.Store.Playback.{
  head, retention_floor, cursor_status, CursorState, cursor_ok, cursor_future, cursor_outdated,
}

-- WriteMessage with its type and body, and WriteError with its name and text.
pub data Frame : Type 0 where
  message : String → Bytes → Frame
  error_frame : String → String → Frame

-- The queries before the stream, and the write of the info frame.
pub record StartFaults : Type 0 where
  pub live_head : Fault
  pub status_head : Fault
  pub status_floor : Fault
  pub resume_floor : Fault
  pub info_body : Result Bytes
  pub info_write_fails : Bool

abbrev pub default_buf_size : ℕ
default_buf_size = 512

-- `subBufSize` is an int of which the handler tells only whether it is positive.
unfoldable pub effective_buf_size : ℤ → ℕ
effective_buf_size (ℤ.pos zero) = default_buf_size
effective_buf_size (ℤ.pos (suc n)) = suc n
effective_buf_size (ℤ.negsuc n) = default_buf_size

unfoldable pub kind_to_msg_type : String → String
kind_to_msg_type kind =
    if str_eq kind "labels"
    then "#labels"
    else if str_eq kind "service"
    then "#service"
    else String.◌++◌ "#" kind

-- No cursor: live from the head. `none` is a handler that returns before the stream.
abbrev pub from_head : Result ℕ → List Frame × Option ℤ
from_head (err e) = ([], none)
from_head (ok h) = ([], some (pos h))

-- The info frame of an outdated cursor, then the stream from before the floor.
abbrev pub from_floor : Bool → Result Bytes → Result ℕ → List Frame × Option ℤ
from_floor fails body (err e) = ([], none)
from_floor fails (err e) (ok floor) = ([], none)
from_floor true (ok body) (ok floor) = (message "#info" body ∷ [], none)
from_floor false (ok body) (ok floor) = (message "#info" body ∷ [], some (pos floor -ℤ pos 1))

abbrev pub by_state : StartFaults → Events → ℤ → Result CursorState → List Frame × Option ℤ
by_state f db cursor (err e) = ([], none)
by_state f db cursor (ok cursor_future) =
    (error_frame "FutureCursor" "cursor is ahead of the current stream head" ∷ [], none)
by_state f db cursor (ok cursor_outdated) =
    from_floor f.info_write_fails f.info_body (retention_floor f.resume_floor db)
by_state f db cursor (ok cursor_ok) = ([], some cursor)

abbrev pub with_cursor : StartFaults → Events → Result ℤ → List Frame × Option ℤ
with_cursor f db (err e) =
    (error_frame "InvalidRequest" (String.◌++◌ "invalid cursor: " e) ∷ [], none)
with_cursor f db (ok cursor) =
    by_state f db cursor (cursor_status f.status_head f.status_floor db cursor)

-- The frames before the stream, and the `since` that StreamFrom gets.
unfoldable pub resolve_since :
    (String → Result ℤ) → StartFaults → Events → String → List Frame × Option ℤ
resolve_since parse_int f db cursor_param =
    if str_eq cursor_param ""
    then from_head (head f.live_head db)
    else with_cursor f db (parse_int cursor_param)

-- `for e := range ch`: the frames handed to the socket, and whether the channel ended first.
unfoldable pub write_events : (ℕ → Bool) → ℕ → List LiveEvent → List Frame × Bool
unfolding kind_to_msg_type
write_events fails n [] = ([], true)
write_events fails n (e ∷ es) =
    let (frames, ended) = write_events fails (suc n) es in
    let frame = message (kind_to_msg_type e.kind) e.frame_cbor in
    if fails n then (frame ∷ [], false) else (frame ∷ frames, ended)

-- After the loop: a channel that ended while the request lives was dropped by the hub.
unfoldable pub write_stream : (ℕ → Bool) → Bool → List LiveEvent → List Frame
unfolding write_events
write_stream fails cancelled events =
    let (frames, ended) = write_events fails 0 events in
    if ended
    then if cancelled
      then frames
      else frames
        ++ error_frame "ConsumerTooSlow" "consumer is too slow to keep up with the stream" ∷ []
    else frames
