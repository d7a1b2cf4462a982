-- ===== src/Server/Subscribe/Wire/EndToEnd.antt =====
-- The whole path of a subscriber: the cursor, StreamFrom beside the writer and the prune job, and the
-- messages on the socket.
use labeler_relay.Prelude.{
  ℕ, suc, ◌≤◌, ◌<◌, ◌≡◌, ap, ◌∙◌, subst, String, true, false, Option, none, some, List, ◌++◌, map,
  length, ℤ, past, past_trans, Result, All, Bool-cases, inl, inr, arith, ltb,
}
use labeler_relay.Store.Events.{Bytes, Events, LiveEvent, Encoders}
use labeler_relay.Store.Events.Order.{IsWellFormed}
use labeler_relay.Cbor.{Cbg}
use labeler_relay.Server.Frames.{unmarshal_header}
use labeler_relay.Server.Seam.{stream_from}
use labeler_relay.Server.Seam.Schedule.{Move, SparesUnread}
use labeler_relay.Server.Seam.Invariant.{beyond}
use labeler_relay.Server.Seam.Delivery.{Aligned, after, stream_from-sends_prefix}
use labeler_relay.Server.Subscribe.{Frame, resolve_since}
use labeler_relay.Server.Subscribe.Resume.{resolve_since-joins}
use labeler_relay.Server.Subscribe.Wire.{Connection, wire, handle_subscribe_labelers, start_of}
use labeler_relay.Server.Subscribe.Wire.Consumer.{
  received, closing, Writable, handle_subscribe_labelers-Served,
}

joins_later : (since : ℤ) (n m : ℕ) → n ≤ m → past since (suc n) ≡ true → past since (suc m) ≡ true
joins_later since n m h q = elim (Bool-cases (ltb n m)) [
  | inl l ↦ past_trans since (suc n) (suc m) q (ground (arith, l))
  | inr l ↦ subst (λ k. past since (suc k) ≡ true) (ground (arith, h, l)) q
]

module _ {Label Service W : Type 0} (c : Cbg) (enc : Encoders Label Service) (size : ℕ)
    (parse_int : String → Result ℤ) (k : Connection W) (param : String) (before : List Frame)
    (since : ℤ) (db0 db : Events) (pending : Option LiveEvent)
    (ms : List (Move Label Service)) where
  -- What the socket is handed: what precedes the stream, the messages of the events that StreamFrom has
  -- sent, from which a consumer reads just these, and the end; what was sent begins the events owed.
  pub record Reading (out : List Bytes × W) : Type 0 where
    pub messages : List Bytes
    pub to_come : List LiveEvent
    pub handed : out.0 ≡ wire c before ++ (messages ++ closing c k.cancelled)
    pub reads :
        map (unmarshal_header c) messages
        ≡ map (received c) (after enc size since db pending ms).out
    pub in_order :
        (after enc size since db pending ms).out ++ to_come
        ≡ beyond since (after enc size since db pending ms).history

  -- The cursor of a request is resolved over the well-formed table db0; the stream starts over db, whose
  -- counter has not gone back, and takes any schedule of its goroutines, of commits and of prunes that
  -- spare what is unread. If the upgrade and the start of the stream succeed, the stream is not cancelled,
  -- the types of its events have lengths that cbor-gen takes and no write of them fails, then the
  -- socket has, after what precedes the stream, one message for each event that StreamFrom has sent,
  -- and after them the error ConsumerTooSlow, if the context of the request has not ended, and otherwise
  -- nothing. From the messages a consumer reads each event sent, its type with the stored frame
  -- unchanged, in order; and those events are the beginning of the events past the resolved cursor
  -- that were stored in db or committed since: none is missing between two others and none comes twice.
  pub handle_subscribe_labelers-Reading :
      (w : W)
      → IsWellFormed db0
      → db0.last_seq ≤ db.last_seq
      → IsWellFormed db
      → Aligned db pending
      → SparesUnread enc (suc size) ms (stream_from db pending since (suc size))
      → (after enc size since db pending ms).cancelled ≡ false
      → k.upgrade ≡ none
      → k.stream_fault ≡ none
      → resolve_since parse_int (start_of c k.start) db0 param ≡ (before, some since)
      → k.stream since ≡ (after enc size since db pending ms).out
      → ((i : ℕ) → i < length (k.stream since) → k.write_fails i ≡ false)
      → All (Writable c) (k.stream since)
      → Reading (handle_subscribe_labelers c parse_int k db0 param w)
  handle_subscribe_labelers-Reading w h0 later h a spares going up st q sent writes_ok fit =
      let served =
        handle_subscribe_labelers-Served c parse_int k db0 param before since w up st q writes_ok
          fit in
      let joins =
        resolve_since-joins parse_int (start_of c k.start) db0 param since h0 (ap (λ r. r.1) q) in
      let (rest, prefix) =
        stream_from-sends_prefix enc size since db pending ms h a
          (joins_later since db0.last_seq db.last_seq later joins) spares going in
      record {
        messages = served.messages;
        to_come = rest;
        handed = served.handed;
        reads = served.reads ∙ ap (λ es. map (received c) es) sent;
        in_order = prefix;
      }
