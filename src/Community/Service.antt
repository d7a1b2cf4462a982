-- ===== src/Community/Service.antt =====
-- LabelerSyncSubscribeLabelers_Service. The record is a type of another module with its own codec, and a
-- pointer: a deletion has none.
use labeler_relay.Prelude.{
  ℕ, String, Option, none, some, List, [], ◌∷◌, ◌++◌, if◌then◌else◌, ℤ, pos, Result, ok, ◌>>=◌,
  str_eq, with_context,
}
use labeler_relay.Store.Events.{Bytes}
use labeler_relay.Cbor.{
  Cbg, Codec, writes, string_item, text, int_item, read_int, read_pointer, unmarshal_map,
}

pub record ServiceFrame (Service : Type 0) : Type 0 where
  pub seq : ℤ
  pub src : String
  pub op : String
  pub service : Option Service  -- the field `Record`

module _ {Service : Type 0} (c : Cbg) (l : Codec Service) where
  -- fieldCount
  abbrev pub field_count : Option Service → ℕ
  field_count none = 3
  field_count (some r) = 4

  -- The entry of the record, which is left out when there is none.
  abbrev pub record_entry : Option Service → Result (List Bytes)
  record_entry none = ok []
  record_entry (some r) = l.marshal r >>= (λ b. ok (string_item c "record" ∷ b ∷ []))

  abbrev pub fields : ServiceFrame Service → Bytes → Bytes → List Bytes → List Bytes
  fields t op src entry =
      string_item c "op"
      ∷ op
      ∷ string_item c "seq"
      ∷ int_item c t.seq
      ∷ string_item c "src"
      ∷ src
      ∷ entry

  unfoldable pub marshal : ServiceFrame Service → Result Bytes
  unfolding text
  marshal t = do
    op ← text c 8192 "t.Op" t.op
    src ← text c 8192 "t.Src" t.src
    entry ← record_entry t.service
    ok (c.encode_header 5 (field_count t.service) ++ writes (fields t op src entry) [])

  abbrev pub unmarshal_record : Bytes → Result (Service × Bytes)
  unmarshal_record b = with_context "unmarshaling t.Record pointer" (l.unmarshal b)

  -- A null leaves the pointer as it is.
  abbrev pub set_record : ServiceFrame Service → Option Service → ServiceFrame Service
  set_record t none = t
  set_record t (some r) = record t { service = some r }

  unfoldable pub service_field :
      String → ServiceFrame Service → Option (Bytes → Result (ServiceFrame Service × Bytes))
  unfolding read_int
  service_field key t =
      if str_eq key "op"
      then some (λ b. c.read_string 8192 b >>= (λ (s, rest). ok (record t { op = s }, rest)))
      else if str_eq key "seq"
      then some (λ b. read_int c b >>= (λ (n, rest). ok (record t { seq = n }, rest)))
      else if str_eq key "src"
      then some (λ b. c.read_string 8192 b >>= (λ (s, rest). ok (record t { src = s }, rest)))
      else if str_eq key "record"
      then some
          (λ b. read_pointer c unmarshal_record b >>= (λ (r, rest). ok (set_record t r, rest)))
      else none

  abbrev pub no_service : ServiceFrame Service
  no_service = record { seq = pos 0; src = ""; op = ""; service = none }

  unfoldable pub unmarshal : Bytes → Result (ServiceFrame Service × Bytes)
  unfolding unmarshal_map service_field
  unmarshal b = unmarshal_map c service_field 6 8192 no_service b
