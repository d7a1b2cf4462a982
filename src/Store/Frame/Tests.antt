-- ===== src/Store/Frame/Tests.antt =====
-- Stored frames in the sample format.
use labeler_relay.Prelude.{ℕ, ◌≡◌, refl, none, some, [], ◌∷◌, pos, ok, arith}
use labeler_relay.Store.Events.{
  Bytes, IngestEvent, encode_frame, ingest_tx, insert_placeholder, persist_ingest,
}
use labeler_relay.Store.Events.Order.{IsWellFormed, append_row, stored, no_faults}
use labeler_relay.Store.Samples.{three_rows, labels_event, recorder}
use labeler_relay.Cbor.{text}
use labeler_relay.Cbor.Sample.{sample, number_codec, header, write_text}
use labeler_relay.Community.Labels
use labeler_relay.Community.Labels.{marshal_labels}
use labeler_relay.Community.Service
use labeler_relay.Store.Frame.{
  frame_encoders, encode_labels_frame, decode_labels_frame, encode_service_frame,
}
use labeler_relay.Store.Frame.Stored.{persist_ingest-decode_labels}

three_rows-IsWellFormed : IsWellFormed three_rows
three_rows-IsWellFormed = omega arith

labels_run :
    (persist_ingest
      (frame_encoders sample number_codec number_codec)
      no_faults
      (pos 40)
      labels_event
      recorder
      ([], [])).0
    ≡ ok 6
unfolding persist_ingest ingest_tx insert_placeholder encode_frame encode_labels_frame
    Labels.marshal marshal_labels text sample header write_text
labels_run = refl

persist_ingest-decode_labels_example :
    (frame : Bytes) × ((persist_ingest
        (frame_encoders sample number_codec number_codec)
        no_faults
        (pos 40)
        labels_event
        recorder
        ([], [])).1.store
      ≡ append_row three_rows (stored 6 labels_event (pos 40) frame))
    × (decode_labels_frame sample number_codec frame
        ≡ ok (record {
          seq = pos 6;
          src = "did:plc:b";
          upstream_seq = pos 9;
          labels = some 41 ∷ some 42 ∷ [];
        }))
persist_ingest-decode_labels_example =
    persist_ingest-decode_labels sample number_codec number_codec no_faults (pos 40) labels_event
      recorder ([], []) 6 three_rows-IsWellFormed refl (omega arith) labels_run

abbrev service_ingest : IngestEvent ℕ ℕ
service_ingest = record {
  kind = "service";
  labeler_did = "did:plc:b";
  upstream_seq = none;
  labels = [];
  op = "create";
  service = some 12;
}

service_run :
    (persist_ingest
      (frame_encoders sample number_codec number_codec)
      no_faults
      (pos 40)
      service_ingest
      recorder
      ([], [])).0
    ≡ ok 6
unfolding persist_ingest ingest_tx insert_placeholder encode_frame encode_service_frame
    Service.marshal text sample header write_text
service_run = refl
