-- ===== src/Store/Samples.antt =====
-- Data that the tests of several modules share.
use labeler_relay.Prelude.{ℕ, String, none, some, List, [], ◌∷◌, ◌++◌, true, pos, ok}
use labeler_relay.Store.Events.{Row, Events, LiveEvent, IngestEvent, Encoders, LabelPersist}
use labeler_relay.Store.Registry.{Labeler, Registry}

-- Encoders over numbers as labels, which write the number and the labels.
abbrev pub plain_encoders : Encoders ℕ ℕ
plain_encoders = record {
  encode_labels = λ seq src up labels. ok (seq ∷ labels);
  encode_service = λ seq src op rec. ok (seq ∷ []);
}

abbrev pub row : ℕ → ℕ → Row
row seq ts = record {
  relay_seq = seq;
  kind = "labels";
  labeler_did = "did:plc:a";
  upstream_seq = some (pos 7);
  frame_cbor = seq ∷ [];
  ingest_ts = pos ts;
}

abbrev pub three_rows : Events
three_rows = record { rows = row 2 10 ∷ row 3 20 ∷ row 5 30 ∷ []; last_seq = 5 }

abbrev pub labels_event : IngestEvent ℕ ℕ
labels_event = record {
  kind = "labels";
  labeler_did = "did:plc:b";
  upstream_seq = some (pos 9);
  labels = 41 ∷ 42 ∷ [];
  op = "";
  service = none;
}

abbrev pub odd_event : IngestEvent ℕ ℕ
odd_event = record labels_event { kind = "odd" }

-- A persister whose callbacks write to a list of events and a list of heads.
abbrev pub World : Type 0
World = List LiveEvent × List ℕ

abbrev pub recorder : LabelPersist World
recorder = record {
  store = three_rows;
  broadcaster = some (λ e w. (w.0 ++ e ∷ [], w.1));
  on_head_advanced = some (λ n w. (w.0, w.1 ++ n ∷ []));
  prune_batch_size = 5000;
}

abbrev pub labeler : String → String → Labeler
labeler did origin = record {
  did = did;
  endpoint = "https://a.example";
  origin = origin;
  enabled = true;
  require_sig = none;
  last_upstream_seq = some (pos 7);
  last_error = "timeout";
  updated_at = pos 1;
}

abbrev pub two_labelers : Registry
two_labelers = labeler "did:plc:a" "manual" ∷ labeler "did:plc:b" "firehose" ∷ []
