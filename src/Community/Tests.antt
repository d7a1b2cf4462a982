-- ===== src/Community/Tests.antt =====
-- Bodies of each type in the sample format, written and read back.
use labeler_relay.Prelude.{ℕ, ◌≡◌, refl, none, some, [], ◌∷◌, ◌++◌, pos, negsuc, ok, err, arith}
use labeler_relay.Store.Events.{Bytes}
use labeler_relay.Cbor.{text, read_int, read_fields, unmarshal_map}
use labeler_relay.Cbor.Sample.{
  sample, number_codec, header, write_text, read_header, read_name, read_item, read_text, to_char,
}
use labeler_relay.Community.Labels
use labeler_relay.Community.Labels.{LabelsFrame, marshal_labels}
use labeler_relay.Community.Service
use labeler_relay.Community.Service.{ServiceFrame}
use labeler_relay.Community.Info
use labeler_relay.Community.Info.{InfoFrame}
use labeler_relay.Community.LabelsRoundTrip.{labels-round_trip}

-- The second label is nil.
abbrev two_labels : LabelsFrame ℕ
two_labels = record {
  seq = pos 30;
  src = "a";
  upstream_seq = negsuc 0;
  labels = some 41 ∷ none ∷ [];
}

abbrev two_labels_body : Bytes
two_labels_body =
    164 ∷ (99 ∷ 116 ∷ 102 ∷ 114 ∷ 0 ∷ 27 ∷ 30 ∷ [])
    ++ (99 ∷ 116 ∷ 115 ∷ 100 ∷ 0 ∷ 97 ∷ 98 ∷ 0 ∷ [])
    ++ (102 ∷ 109 ∷ 98 ∷ 99 ∷ 102 ∷ 109 ∷ 116 ∷ 0 ∷ 130 ∷ 161 ∷ 41 ∷ 246 ∷ [])
    ++ (107 ∷ 118 ∷ 113 ∷ 116 ∷ 117 ∷ 115 ∷ 102 ∷ 98 ∷ 110 ∷ 84 ∷ 102 ∷ 114 ∷ 0 ∷ 32 ∷ [])

marshal_run : Labels.marshal sample number_codec two_labels ≡ ok two_labels_body
unfolding Labels.marshal marshal_labels text sample header write_text
marshal_run = refl

labels-round_trip_example :
    Labels.unmarshal sample number_codec (two_labels_body ++ 5 ∷ []) ≡ ok (two_labels, 5 ∷ [])
labels-round_trip_example =
    labels-round_trip sample number_codec two_labels two_labels_body (5 ∷ []) marshal_run
      (omega arith) (omega arith)

abbrev deletion : ServiceFrame ℕ
deletion = record { seq = pos 8; src = "a"; op = "b"; service = none }

abbrev deletion_body : Bytes
deletion_body =
    163 ∷ (98 ∷ 112 ∷ 113 ∷ 0 ∷ 97 ∷ 99 ∷ 0 ∷ [])
    ++ (99 ∷ 116 ∷ 102 ∷ 114 ∷ 0 ∷ 8 ∷ [])
    ++ (99 ∷ 116 ∷ 115 ∷ 100 ∷ 0 ∷ 97 ∷ 98 ∷ 0 ∷ [])

deletion_run : Service.marshal sample number_codec deletion ≡ ok deletion_body
unfolding Service.marshal text sample header write_text
deletion_run = refl

abbrev outdated : InfoFrame
outdated = record { name = "b"; message = some "a" }

abbrev outdated_body : Bytes
outdated_body =
    162 ∷ (100 ∷ 111 ∷ 98 ∷ 110 ∷ 102 ∷ 0 ∷ 97 ∷ 99 ∷ 0 ∷ [])
    ++ (103 ∷ 110 ∷ 102 ∷ 116 ∷ 116 ∷ 98 ∷ 104 ∷ 102 ∷ 0 ∷ 97 ∷ 98 ∷ 0 ∷ [])

outdated_run : Info.marshal sample outdated ≡ ok outdated_body
unfolding Info.marshal text sample header write_text
outdated_run = refl

-- A text where a number is due.
not_a_number :
    Labels.unmarshal sample number_codec (161 ∷ 99 ∷ 116 ∷ 102 ∷ 114 ∷ 0 ∷ 97 ∷ 98 ∷ 0 ∷ [])
    ≡ err "wrong type for int64 field"
unfolding Labels.unmarshal Labels.labels_field unmarshal_map read_fields read_int sample header
    read_header read_name read_item read_text to_char
not_a_number = refl
