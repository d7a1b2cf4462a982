-- ===== src/Server/Subscribe/Wire/Consumer.antt =====
-- What a consumer reads from the socket.
use Prim.Native.String.{len}
use labeler_relay.Prelude.{
  ℕ, ◌≤◌, ◌<◌, ◌≡◌, refl, sym, subst, ap, ◌∙◌, ◌⊎◌, inl, inr, Bool-cases, String, Bool, true, false,
  Option, none, some, List, [], ◌∷◌, ◌++◌, map, length, ℤ, Result, ok, err, if◌then◌else◌, All,
  str_eq, arith, le→ltb,
}
use labeler_relay.Store.Events.{Bytes, Events, LiveEvent}
use labeler_relay.Cbor.{Cbg, writes, text, string_item, int_item}
use labeler_relay.Server.Frames.{
  FrameHeader, op_message, field_count, type_entry, marshal_header, unmarshal_header, write_message,
}
use labeler_relay.Server.Frames.RoundTrip.{write_message-read}
use labeler_relay.Store.Playback.{
  head, retention_floor, cursor_status, CursorState, cursor_ok, cursor_future, cursor_outdated,
}
use labeler_relay.Server.Subscribe.{
  Frame, message, StartFaults, from_head, from_floor, by_state, with_cursor, kind_to_msg_type,
  resolve_since, write_stream,
}
use labeler_relay.Server.Subscribe.Wire.{
  Connection, encode, wire, handle_subscribe_labelers, start_of,
}
use labeler_relay.Server.Subscribe.Wire.Outcome.{message_of, too_slow, write_stream-whole}

module _ (c : Cbg) where
  text_fits :
      (field s : String) → len s ≤ c.max_length → text c c.max_length field s ≡ ok (string_item c s)
  unfolding text
  text_fits field s h = ground (arith, le→ltb c.max_length (len s) h)

  type_entry_fits :
      (empty : Bool) (t : String)
      → len t ≤ c.max_length
      → (entry : List Bytes) × (type_entry c empty t ≡ ok entry)
  type_entry_fits true t h = ([], refl)
  type_entry_fits false t h = (
    string_item c "t" ∷ string_item c t ∷ [],
    rw (text_fits "t" "t" (omega (arith, c.room)), text_fits "t.T" t h) refl,
  )

  -- A type of a length that cbor-gen takes can be written.
  write_message_fits :
      (t : String) (body : Bytes)
      → len t ≤ c.max_length
      → (b : Bytes) × (write_message c t body ≡ ok b)
  unfolding write_message marshal_header
  write_message_fits t body h =
      let (entry, e) = type_entry_fits (str_eq t "") t h in
      (
        (c.encode_header 5 (field_count c (str_eq t ""))
              ++ writes (entry ++ string_item c "op" ∷ int_item c op_message ∷ []) [])
            ++ body,
        rw (e, text_fits "op" "op" (omega (arith, c.room))) refl,
      )

  wire_none : wire c [] ≡ []
  unfolding wire
  wire_none = refl

  wire-cons :
      (f : Frame) (fs : List Frame) (b : Bytes)
      → encode c f ≡ ok b
      → wire c (f ∷ fs) ≡ b ∷ wire c fs
  unfolding wire
  wire-cons f fs b q = ap (λ o. elim o as (λ o. List Bytes) [ err e ↦ [] | ok b ↦ b ∷ wire c fs ]) q

  abbrev Encodes : Frame → Type 0
  Encodes f = (b : Bytes) × (encode c f ≡ ok b)

  wire-append : (fs gs : List Frame) → All Encodes fs → wire c (fs ++ gs) ≡ wire c fs ++ wire c gs
  wire-append [] gs h = sym (ap (λ l. l ++ wire c gs) wire_none)
  wire-append (f ∷ fs) gs ((b, q), h) =
      wire-cons f (fs ++ gs) b q
      ∙ ap (λ l. b ∷ l) (wire-append fs gs h)
      ∙ sym (ap (λ l. l ++ wire c gs) (wire-cons f fs b q))

  -- What precedes a stream can be encoded: nothing, or the info frame.
  abbrev Opens : List Frame × Option ℤ → Type 0
  Opens o = (o.1 ≡ none) ⊎ All Encodes o.0

  info-Encodes : (body : Bytes) → Encodes (message "#info" body)
  unfolding encode
  info-Encodes body = write_message_fits "#info" body (omega (arith, c.room))

  from_head-Opens : (r : Result ℕ) → Opens (from_head r)
  from_head-Opens (err e) = inl refl
  from_head-Opens (ok h) = inr tt

  from_floor-Opens :
      (fails : Bool) (body : Result Bytes) (floor : Result ℕ) → Opens (from_floor fails body floor)
  from_floor-Opens fails body (err e) = inl refl
  from_floor-Opens fails (err e) (ok floor) = inl refl
  from_floor-Opens true (ok body) (ok floor) = inl refl
  from_floor-Opens false (ok body) (ok floor) = inr (info-Encodes body, tt)

  by_state-Opens :
      (f : StartFaults) (db : Events) (cursor : ℤ) (st : Result CursorState)
      → Opens (by_state f db cursor st)
  by_state-Opens f db cursor (err e) = inl refl
  by_state-Opens f db cursor (ok cursor_future) = inl refl
  by_state-Opens f db cursor (ok cursor_outdated) =
      from_floor-Opens f.info_write_fails f.info_body (retention_floor f.resume_floor db)
  by_state-Opens f db cursor (ok cursor_ok) = inr tt

  with_cursor-Opens : (f : StartFaults) (db : Events) (r : Result ℤ) → Opens (with_cursor f db r)
  with_cursor-Opens f db (err e) = inl refl
  with_cursor-Opens f db (ok cursor) =
      by_state-Opens f db cursor (cursor_status f.status_head f.status_floor db cursor)

  resolve_since-Opens :
      (parse_int : String → Result ℤ) (f : StartFaults) (db : Events) (param : String)
      → Opens (resolve_since parse_int f db param)
  unfolding resolve_since
  resolve_since-Opens parse_int f db param = elim (Bool-cases (str_eq param "")) [
    | inl q ↦ rw q (from_head-Opens (head f.live_head db))
    | inr q ↦ rw q (with_cursor-Opens f db (parse_int param))
  ]

  before-Encodes :
      (parse_int : String → Result ℤ) (f : StartFaults) (db : Events) (param : String)
      (before : List Frame) (since : ℤ)
      → resolve_since parse_int f db param ≡ (before, some since)
      → All Encodes before
  before-Encodes parse_int f db param before since q =
      elim (resolve_since-Opens parse_int f db param) [
        | inl stops ↦ cc (stops, ap (λ o. o.1) q)
        | inr h ↦ subst (λ o. All Encodes o) (ap (λ o. o.0) q) h
      ]

  -- The event as a consumer gets it: its type, and the stored frame as it is.
  abbrev pub received : LiveEvent → Result (FrameHeader × Bytes)
  received e = ok (record { t = kind_to_msg_type e.kind; op = op_message }, e.frame_cbor)

  abbrev pub Writable : LiveEvent → Type 0
  Writable e = len (kind_to_msg_type e.kind) ≤ c.max_length

  messages-Encodes : (es : List LiveEvent) → All Writable es → All Encodes (map message_of es)
  unfolding encode
  messages-Encodes [] h = tt
  messages-Encodes (e ∷ es) h =
      (write_message_fits (kind_to_msg_type e.kind) e.frame_cbor h.0, messages-Encodes es h.1)

  -- What the handler writes after the stream.
  abbrev pub closing : Bool → List Bytes
  closing cancelled = if cancelled then [] else wire c (too_slow ∷ [])

  closing-wire :
      (cancelled : Bool) → wire c (if cancelled then [] else too_slow ∷ []) ≡ closing cancelled
  closing-wire true = wire_none
  closing-wire false = refl

  wire-read :
      (es : List LiveEvent)
      → All Writable es
      → map (unmarshal_header c) (wire c (map message_of es)) ≡ map received es
  unfolding encode
  wire-read [] h = ap (λ l. map (unmarshal_header c) l) wire_none
  wire-read (e ∷ es) h =
      let (b, q) = write_message_fits (kind_to_msg_type e.kind) e.frame_cbor h.0 in
      ap (λ l. map (unmarshal_header c) l) (wire-cons (message_of e) (map message_of es) b q)
      ∙ ap (λ l. unmarshal_header c b ∷ l) (wire-read es h.1)
      ∙ ap (λ r. r ∷ map received es)
          (write_message-read c (kind_to_msg_type e.kind) e.frame_cbor b q)

  -- What the handler hands to the socket: what precedes the stream, a message for each event, and the end.
  pub record Served {W : Type 0} (before : List Frame) (cancelled : Bool) (es : List LiveEvent)
      (out : List Bytes × W) : Type 0 where
    pub messages : List Bytes
    pub handed : out.0 ≡ wire c before ++ (messages ++ closing cancelled)
    pub reads : map (unmarshal_header c) messages ≡ map received es

  module _ {W : Type 0} (parse_int : String → Result ℤ) (k : Connection W) (db : Events)
      (param : String) (before : List Frame) (since : ℤ) where
    handle_subscribe_labelers-streams :
        (w : W)
        → k.upgrade ≡ none
        → k.stream_fault ≡ none
        → resolve_since parse_int (start_of c k.start) db param ≡ (before, some since)
        → (handle_subscribe_labelers c parse_int k db param w).0
          ≡ wire c (before ++ write_stream k.write_fails k.cancelled (k.stream since))
    unfolding handle_subscribe_labelers
    handle_subscribe_labelers-streams w up st q =
        rw (handle_subscribe_labelers, start_of, up, q, st) refl

    -- When the upgrade, the start of the stream and every write of an event succeed, and the types of the
    -- events have lengths that cbor-gen takes: after what the start wrote, the socket is handed one message
    -- for each event of the stream, in order, from which a consumer reads the operation 1, the type of the
    -- event and its stored frame unchanged, and after them nothing if the request was cancelled, and otherwise
    -- the error ConsumerTooSlow.
    pub handle_subscribe_labelers-Served :
        (w : W)
        → k.upgrade ≡ none
        → k.stream_fault ≡ none
        → resolve_since parse_int (start_of c k.start) db param ≡ (before, some since)
        → ((i : ℕ) → i < length (k.stream since) → k.write_fails i ≡ false)
        → All Writable (k.stream since)
        → Served before k.cancelled
            (k.stream since)
            (handle_subscribe_labelers c parse_int k db param w)
    handle_subscribe_labelers-Served w up st q writes_ok fit =
        let es = k.stream since in
        let ending : List Frame = if k.cancelled then [] else too_slow ∷ [] in
        record {
          messages = wire c (map message_of es);
          handed =
              handle_subscribe_labelers-streams w up st q
              ∙ ap (λ l. wire c (before ++ l))
                  (write_stream-whole k.write_fails k.cancelled es writes_ok)
              ∙ wire-append before (map message_of es ++ ending)
                  (before-Encodes parse_int (start_of c k.start) db param before since q)
              ∙ ap (λ l. wire c before ++ l)
                  (wire-append (map message_of es) ending (messages-Encodes es fit)
                    ∙ ap (λ l. wire c (map message_of es) ++ l) (closing-wire k.cancelled));
          reads = wire-read es fit;
        }
