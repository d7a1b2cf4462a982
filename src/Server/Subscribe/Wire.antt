-- ===== src/Server/Subscribe/Wire.antt =====
-- internal/server/subscribe.go: writeWSFrame, and the whole of HandleSubscribeLabelers, down to the bytes
-- of each websocket message. A write fails when its frame cannot be encoded or when the socket fails.
use labeler_relay.Prelude.{
  ℕ, zero, suc, String, Bool, true, false, not, ◌||◌, Option, none, some, List, [], ◌∷◌, ◌++◌, ℤ,
  Result, ok, err, Fault, if◌then◌else◌,
}
use labeler_relay.Store.Events.{Bytes, Events, LiveEvent}
use labeler_relay.Store.Frame.{encode_info_frame}
use labeler_relay.Cbor.{Cbg}
use labeler_relay.Server.Frames.{write_message, write_error}
use labeler_relay.Server.Subscribe.{
  Frame, message, error_frame, StartFaults, resolve_since, write_stream,
}
pub mod Outcome
pub mod Consumer
pub mod EndToEnd
mod Tests

-- The callbacks that count consumers.
abbrev pub notify : {W : Type 0} → Option (W → W) → W → W
notify none w = w
notify (some f) w = f w

-- What is around a connection: the upgrade, the stream, the end of the request's context, and the
-- callbacks of the server.
pub record Connection (W : Type 0) : Type 0 where
  pub upgrade : Fault
  pub start : StartFaults
  pub stream_fault : Fault
  pub stream : ℤ → List LiveEvent  -- what arrives on the channel of StreamFrom until it is closed
  pub write_fails : ℕ → Bool
  pub cancelled : Bool
  pub on_connect : Option (W → W)
  pub on_disconnect : Option (W → W)

module _ (c : Cbg) where
  unfoldable pub encode : Frame → Result Bytes
  unfolding write_message write_error
  encode (message msg_type body) = write_message c msg_type body
  encode (error_frame name text) = write_error c name text

  -- The messages that the socket is handed for the frames that are to be written: the handler returns
  -- at a frame that cannot be encoded.
  unfoldable pub wire : List Frame → List Bytes
  unfolding encode
  wire [] = []
  wire (f ∷ fs) = let rest = wire fs in elim (encode f) [ err e ↦ [] | ok b ↦ b ∷ rest ]

  -- The start, with the info frame of an outdated cursor.
  abbrev pub start_of : StartFaults → StartFaults
  start_of f = record f {
    info_body =
        encode_info_frame c "OutdatedCursor"
          (some "cursor is below the retention floor; resuming from the oldest available event");
  }

  -- After the start.
  abbrev pub frames_of : {W : Type 0} → Connection W → List Frame × Option ℤ → List Frame
  frames_of k (frames, none) = frames
  frames_of k (frames, some since) = elim k.stream_fault [
    | some e ↦ frames
    | none ↦ frames ++ write_stream k.write_fails k.cancelled (k.stream since)
  ]

  unfoldable pub handle_subscribe_labelers :
      {W : Type 0} → (String → Result ℤ) → Connection W → Events → String → W → List Bytes × W
  unfolding wire resolve_since write_stream
  handle_subscribe_labelers parse_int k db cursor_param w = elim k.upgrade [
    | some e ↦ ([], w)
    | none ↦ (
      wire (frames_of k (resolve_since parse_int (start_of k.start) db cursor_param)),
      notify k.on_disconnect (notify k.on_connect w),
    )
  ]
