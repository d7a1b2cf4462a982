-- ===== src/Slurper/Delivery/Tests.antt =====
-- A labeler's stream over two connections, the first of which crashes between a commit and its cursor.
use labeler_relay.Prelude.{
  ℕ, ◌≡◌, refl, arith, none, some, List, [], ◌∷◌, ℤ, pos, ok, false, All, ltb_ℤ, IsOrdered,
}
use labeler_relay.Store.Events.{
  Encoders, persist_ingest, ingest_tx, insert_placeholder, encode_frame, update_frame,
}
use labeler_relay.Store.Events.Order.{IsWellFormed}
use labeler_relay.Store.Registry.{read_cursor, write_cursor, find, modify}
use labeler_relay.Store.Samples.{World, two_labelers}
use labeler_relay.Slurper.Policy.{keep_label}
use labeler_relay.Slurper.Frames.{keep_labels, handle_label_labels}
use labeler_relay.Slurper.Dial.{
  StreamEvent, label_labels, label_info, State, handle_event, handle_events, dial_url, dial,
}
use labeler_relay.Slurper.Samples.{subscriber, quiet, start, calm, split_urls, digit}
use labeler_relay.Slurper.Delivery.{UpFrame, number_of, Steps, between}
use labeler_relay.Slurper.Delivery.Relayed.{read_all, IsRelayed, Steps-IsRelayed}
use labeler_relay.Cbor.{text}
use labeler_relay.Cbor.Sample.{sample, number_codec, header, write_text}
use labeler_relay.Community.Labels
use labeler_relay.Community.Labels.{marshal_labels}
use labeler_relay.Store.Frame.{frame_encoders, encode_labels_frame}
use labeler_relay.Slurper.Delivery.Dials.{Steps_trans, dial-Steps}

abbrev encoders : Encoders ℕ ℕ
encoders = frame_encoders sample number_codec number_codec

abbrev stream : List (UpFrame ℕ)
stream = (pos 6, 41 ∷ []) ∷ (pos 11, 40 ∷ 41 ∷ []) ∷ (pos 12, 40 ∷ []) ∷ (pos 13, 41 ∷ []) ∷ []

-- The first connection: the cursor write of frame 11 fails after its labels are stored.
abbrev crash : List (StreamEvent ℕ)
crash =
    label_info
    ∷ label_labels (pos 11) (40 ∷ 41 ∷ []) (record quiet { cursor_exec = some "crash" }) (pos 40)
    ∷ []

abbrev crashed : State World
crashed = (dial encoders subscriber split_urls digit calm crash start).1

start-IsWellFormed : IsWellFormed start.persist.store
start-IsWellFormed = omega arith

stream-IsOrdered : IsOrdered number_of stream
stream-IsOrdered = ((refl, (refl, (refl, tt))), ((refl, (refl, tt)), ((refl, tt), (tt, tt))))

start_cursor : read_cursor none "did:plc:a" two_labelers ≡ ok (some (pos 7))
unfolding read_cursor find
start_cursor = refl

crashed_cursor : read_cursor none "did:plc:a" crashed.registry ≡ ok (some (pos 7))
unfolding dial handle_events handle_event handle_label_labels keep_labels keep_label persist_ingest
    ingest_tx insert_placeholder encode_frame update_frame write_cursor find modify read_cursor
    dial_url encode_labels_frame Labels.marshal marshal_labels text sample header write_text
crashed_cursor = refl

-- The second connection sends frame 11 again.
abbrev again : List (StreamEvent ℕ)
again =
    label_labels (pos 11) (40 ∷ 41 ∷ []) quiet (pos 50)
    ∷ label_labels (pos 12) (40 ∷ []) quiet (pos 51)
    ∷ []

abbrev resumed : State World
resumed = (dial encoders subscriber split_urls digit calm again crashed).1

resumed_cursor : read_cursor none "did:plc:a" resumed.registry ≡ ok (some (pos 12))
unfolding dial handle_events handle_event handle_label_labels keep_labels keep_label persist_ingest
    ingest_tx insert_placeholder encode_frame update_frame write_cursor find modify read_cursor
    dial_url encode_labels_frame Labels.marshal marshal_labels text sample header write_text
resumed_cursor = refl

dial-Steps_example :
    Steps encoders subscriber stream
      (record { state = start; coming = none })
      (record { state = crashed; coming = none })
dial-Steps_example =
    dial-Steps encoders subscriber stream split_urls digit calm crash start (pos 7)
      ((pos 12, 40 ∷ []) ∷ (pos 13, 41 ∷ []) ∷ []) start_cursor refl

-- Both connections.
two_connections :
    Steps encoders subscriber stream
      (record { state = start; coming = none })
      (record { state = resumed; coming = none })
two_connections =
    Steps_trans encoders subscriber stream
      (dial-Steps encoders subscriber stream split_urls digit calm crash start (pos 7)
        ((pos 12, 40 ∷ []) ∷ (pos 13, 41 ∷ []) ∷ []) start_cursor refl)
      (dial-Steps encoders subscriber stream split_urls digit calm again crashed (pos 7)
        ((pos 13, 41 ∷ []) ∷ []) crashed_cursor refl)

Steps-IsRelayed_example :
    (c : ℤ) × (read_cursor none "did:plc:a" resumed.registry ≡ ok (some c))
    × (ltb_ℤ c (pos 7) ≡ false)
    × All
        (IsRelayed sample number_codec number_codec subscriber (read_all resumed.persist.store))
        (between (pos 7) c stream)
Steps-IsRelayed_example =
    Steps-IsRelayed sample number_codec number_codec subscriber stream stream-IsOrdered
      (omega arith) (pos 7) start (record { state = resumed; coming = none }) start-IsWellFormed
      start_cursor two_connections
