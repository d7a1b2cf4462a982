-- ===== src/Server/Frames.antt =====
-- internal/server/frames.go and its codec, internal/server/cbor_gen.go: the header of a frame, the body of
-- an error frame, and the two writers.
pub mod RoundTrip
mod Tests
use labeler_relay.Prelude.{
  ℕ, ◌≡◌, String, Bool, true, false, Option, none, some, List, [], ◌∷◌, ◌++◌, if◌then◌else◌, ℤ, pos,
  negsuc, Result, ok, err, ◌>>=◌, str_eq,
}
use labeler_relay.Store.Events.{Bytes}
use labeler_relay.Cbor.{Cbg, writes, string_item, text, int_item, read_int, unmarshal_map}

pub record FrameHeader : Type 0 where
  pub t : String
  pub op : ℤ

pub record ErrorFrameBody : Type 0 where
  pub error : String
  pub message : String

abbrev pub op_message : ℤ
op_message = pos 1

abbrev pub op_error : ℤ
op_error = negsuc 0

module _ (c : Cbg) where
  -- fieldCount and the entry of the type, which an empty one does not have.
  abbrev pub field_count : Bool → ℕ
  field_count true = 1
  field_count false = 2

  abbrev pub type_entry : Bool → String → Result (List Bytes)
  type_entry true t = ok []
  type_entry false t = do
    key ← text c c.max_length "t" "t"
    value ← text c c.max_length "t.T" t
    ok (key ∷ value ∷ [])

  unfoldable pub marshal_header : FrameHeader → Result Bytes
  unfolding text
  marshal_header h = do
    entry ← type_entry (str_eq h.t "") h.t
    key ← text c c.max_length "op" "op"
    ok (
        c.encode_header 5 (field_count (str_eq h.t ""))
        ++ writes (entry ++ key ∷ int_item c h.op ∷ []) [])

  unfoldable pub header_field : String → FrameHeader → Option (Bytes → Result (FrameHeader × Bytes))
  unfolding read_int
  header_field key h =
      if str_eq key "t"
      then some (λ b. c.read_string c.max_length b >>= (λ (s, rest). ok (record h { t = s }, rest)))
      else if str_eq key "op"
      then some (λ b. read_int c b >>= (λ (n, rest). ok (record h { op = n }, rest)))
      else none

  abbrev pub no_header : FrameHeader
  no_header = record { t = ""; op = pos 0 }

  unfoldable pub unmarshal_header : Bytes → Result (FrameHeader × Bytes)
  unfolding unmarshal_map header_field
  unmarshal_header b = unmarshal_map c header_field 2 c.max_length no_header b

  unfoldable pub marshal_error : ErrorFrameBody → Result Bytes
  unfolding text
  marshal_error e = do
    error_key ← text c c.max_length "error" "error"
    error ← text c c.max_length "t.Error" e.error
    message_key ← text c c.max_length "message" "message"
    message ← text c c.max_length "t.Message" e.message
    ok (162 ∷ writes (error_key ∷ error ∷ message_key ∷ message ∷ []) [])

  unfoldable pub error_field :
      String → ErrorFrameBody → Option (Bytes → Result (ErrorFrameBody × Bytes))
  error_field key e =
      if str_eq key "error"
      then some
          (λ b. c.read_string c.max_length b >>= (λ (s, rest). ok (record e { error = s }, rest)))
      else if str_eq key "message"
      then some
          (λ b. c.read_string c.max_length b >>= (λ (s, rest). ok (record e { message = s }, rest)))
      else none

  abbrev pub no_error : ErrorFrameBody
  no_error = record { error = ""; message = "" }

  unfoldable pub unmarshal_error : Bytes → Result (ErrorFrameBody × Bytes)
  unfolding unmarshal_map error_field
  unmarshal_error b = unmarshal_map c error_field 7 c.max_length no_error b

  -- WriteMessage: the body is not encoded again.
  unfoldable pub write_message : String → Bytes → Result Bytes
  unfolding marshal_header
  write_message msg_type body = do
    head ← marshal_header (record { t = msg_type; op = op_message })
    ok (head ++ body)

  unfoldable pub write_error : String → String → Result Bytes
  unfolding marshal_header marshal_error
  write_error name message = do
    head ← marshal_header (record { t = ""; op = op_error })
    body ← marshal_error (record { error = name; message = message })
    ok (head ++ body)
