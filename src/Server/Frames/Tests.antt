-- ===== src/Server/Frames/Tests.antt =====
-- Frames in the sample format, written and read back.
use labeler_relay.Prelude.{◌≡◌, refl, [], ◌∷◌, ◌++◌, ok}
use labeler_relay.Store.Events.{Bytes}
use labeler_relay.Cbor.{text}
use labeler_relay.Cbor.Sample.{sample, header, write_text}
use labeler_relay.Server.Frames.{
  op_message, marshal_header, unmarshal_header, marshal_error, write_message, write_error,
}
use labeler_relay.Server.Frames.RoundTrip.{write_message-read}

abbrev message_bytes : Bytes
message_bytes =
    162 ∷ (97 ∷ 117 ∷ 0 ∷ 98 ∷ 36 ∷ 98 ∷ 0 ∷ []) ++ (98 ∷ 112 ∷ 113 ∷ 0 ∷ 1 ∷ 77 ∷ 78 ∷ [])

message_run : write_message sample "#a" (77 ∷ 78 ∷ []) ≡ ok message_bytes
unfolding write_message marshal_header text sample header write_text
message_run = refl

write_message-read_example :
    unmarshal_header sample message_bytes ≡ ok (record { t = "#a"; op = op_message }, 77 ∷ 78 ∷ [])
write_message-read_example = write_message-read sample "#a" (77 ∷ 78 ∷ []) message_bytes message_run

abbrev error_bytes : Bytes
error_bytes =
    161 ∷ (98 ∷ 112 ∷ 113 ∷ 0 ∷ 32 ∷ [])
    ++ (162 ∷ 101 ∷ 102 ∷ 115 ∷ 115 ∷ 112 ∷ 115 ∷ 0 ∷ 97 ∷ 98 ∷ 0 ∷ [])
    ++ (103 ∷ 110 ∷ 102 ∷ 116 ∷ 116 ∷ 98 ∷ 104 ∷ 102 ∷ 0 ∷ 97 ∷ 99 ∷ 0 ∷ [])

error_run : write_error sample "a" "b" ≡ ok error_bytes
unfolding write_error marshal_header marshal_error text sample header write_text
error_run = refl
