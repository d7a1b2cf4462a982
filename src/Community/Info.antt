-- ===== src/Community/Info.antt =====
-- LabelerSyncSubscribeLabelers_Info.
use labeler_relay.Prelude.{
  ℕ, String, Option, none, some, List, [], ◌∷◌, ◌++◌, if◌then◌else◌, Result, ok, ◌>>=◌, str_eq,
}
use labeler_relay.Store.Events.{Bytes}
use labeler_relay.Cbor.{Cbg, writes, string_item, text, read_pointer, unmarshal_map}

pub record InfoFrame : Type 0 where
  pub name : String
  pub message : Option String

module _ (c : Cbg) where
  -- fieldCount
  abbrev pub field_count : Option String → ℕ
  field_count none = 1
  field_count (some m) = 2

  abbrev pub message_entry : Option String → Result (List Bytes)
  message_entry none = ok []
  message_entry (some m) =
      text c 8192 "t.Message" m >>= (λ b. ok (string_item c "message" ∷ b ∷ []))

  unfoldable pub marshal : InfoFrame → Result Bytes
  unfolding text
  marshal t = do
    name ← text c 8192 "t.Name" t.name
    entry ← message_entry t.message
    ok (
        c.encode_header 5 (field_count t.message)
        ++ writes (string_item c "name" ∷ name ∷ entry) [])

  -- A null leaves the pointer as it is.
  abbrev pub set_message : InfoFrame → Option String → InfoFrame
  set_message t none = t
  set_message t (some m) = record t { message = some m }

  unfoldable pub info_field : String → InfoFrame → Option (Bytes → Result (InfoFrame × Bytes))
  info_field key t =
      if str_eq key "name"
      then some (λ b. c.read_string 8192 b >>= (λ (s, rest). ok (record t { name = s }, rest)))
      else if str_eq key "message"
      then some
          (λ b. read_pointer c (c.read_string 8192) b >>= (λ (m, rest). ok (set_message t m, rest)))
      else none

  abbrev pub no_info : InfoFrame
  no_info = record { name = ""; message = none }

  unfoldable pub unmarshal : Bytes → Result (InfoFrame × Bytes)
  unfolding unmarshal_map info_field
  unmarshal b = unmarshal_map c info_field 7 8192 no_info b
