-- ===== src/Store/Frame.antt =====
-- internal/store/frame.go: the bodies that are stored and sent, as bytes and back. A decoder reads one
-- value and does not look at what follows it.
pub mod Stored
mod Tests
use labeler_relay.Prelude.{ℕ, String, Option, none, some, List, map, ℤ, pos, Result, ok, err, ◌>>=◌}
use labeler_relay.Store.Events.{Bytes, Encoders}
use labeler_relay.Cbor.{Cbg, Codec}
use labeler_relay.Community.Labels
use labeler_relay.Community.Labels.{LabelsFrame}
use labeler_relay.Community.Service
use labeler_relay.Community.Service.{ServiceFrame}
use labeler_relay.Community.Info
use labeler_relay.Community.Info.{InfoFrame}

-- What was read, without what is left.
abbrev pub value_of : {A : Type 0} → Result (A × Bytes) → Result A
value_of r = r >>= (λ (a, rest). ok a)

module _ {Label : Type 0} (c : Cbg) (l : Codec Label) where
  unfoldable pub encode_labels_frame : ℤ → String → ℤ → List (Option Label) → Result Bytes
  unfolding Labels.marshal
  encode_labels_frame seq src upstream_seq labels =
      Labels.marshal c l
        (record { seq = seq; src = src; upstream_seq = upstream_seq; labels = labels })

  unfoldable pub decode_labels_frame : Bytes → Result (LabelsFrame Label)
  unfolding Labels.unmarshal
  decode_labels_frame data_bytes = value_of (Labels.unmarshal c l data_bytes)

module _ {Rec : Type 0} (c : Cbg) (l : Codec Rec) where
  unfoldable pub encode_service_frame : ℤ → String → String → Option Rec → Result Bytes
  unfolding Service.marshal
  encode_service_frame seq src op rec =
      Service.marshal c l (record { seq = seq; src = src; op = op; service = rec })

  unfoldable pub decode_service_frame : Bytes → Result (ServiceFrame Rec)
  unfolding Service.unmarshal
  decode_service_frame data_bytes = value_of (Service.unmarshal c l data_bytes)

module _ (c : Cbg) where
  unfoldable pub encode_info_frame : String → Option String → Result Bytes
  unfolding Info.marshal
  encode_info_frame name message = Info.marshal c (record { name = name; message = message })

  unfoldable pub decode_info_frame : Bytes → Result InfoFrame
  unfolding Info.unmarshal
  decode_info_frame data_bytes = value_of (Info.unmarshal c data_bytes)

-- The encoders that the ingest path calls; the labels that it passes are not nil.
abbrev pub frame_encoders :
    {Label Service : Type 0} → Cbg → Codec Label → Codec Service → Encoders Label Service
frame_encoders c l r = record {
  encode_labels = λ seq src up labels. encode_labels_frame c l (pos seq) src up (map some labels);
  encode_service = λ seq src op rec. encode_service_frame c r (pos seq) src op rec;
}
