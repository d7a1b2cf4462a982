-- ===== src/Cbor.antt =====
-- What the generated code of api/community/cbor_gen.go and internal/server/cbor_gen.go does for every
-- type: strings, numbers and keys, and the loop over the fields of a map.
--
-- The library cbor-gen is the parameter `Cbg`: its calls, and what CBOR (RFC 8949) says of them. A
-- marshaller writes to a bytes.Buffer, which takes everything; it is the list of the bytes written. A
-- reader is the list of the bytes that are left. A pointer that is nil is `none`. A number that Go prints
-- into the text of an error is left out of it.
pub mod Reading
pub mod Sample
use Prim.Native.String.{len}
use labeler_relay.Prelude.{
  ℕ, zero, suc, ◌+◌, ◌*◌, ◌/◌, ◌^◌, ◌≤◌, ◌<◌, ◌≡◌, ◌≢◌, String, Bool, true, false, not, Option,
  none, some, List, [], ◌∷◌, ◌++◌, ltb, ◌==◌, if◌then◌else◌, ℤ, pos, negsuc, Result, ok, err, ◌>>=◌,
  ◌>>◌, str_eq, length, errorf, with_context,
}
use labeler_relay.Store.Events.{Bytes}

-- The major types of the two headers that are written by name.
abbrev pub maj_unsigned_int : ℕ
maj_unsigned_int = 0

abbrev pub maj_negative_int : ℕ
maj_negative_int = 1

abbrev pub maj_text_string : ℕ
maj_text_string = 3

abbrev pub maj_array : ℕ
maj_array = 4

abbrev pub maj_map : ℕ
maj_map = 5

-- CborNull
abbrev pub cbor_null : ℕ
cbor_null = 246

pub record Cbg : Type 0 where
  pub max_length : ℕ
  pub encode_header : ℕ → ℕ → Bytes  -- CborEncodeMajorType, WriteMajorTypeHeader
  pub read_header : Bytes → Result (ℕ × ℕ × Bytes)
  pub write_string : String → Bytes
  pub read_string : ℕ → Bytes → Result (String × Bytes)  -- ReadStringWithMax
  pub read_name : ℕ → ℕ → Bytes → Result (Option String × Bytes)  -- ReadFullStringIntoBuf
  pub scan : Bytes → Result Bytes  -- ScanForLinks
  pub room : 11 ≤ max_length
  pub small_header : (m n : ℕ) → m < 8 → n < 24 → encode_header m n ≡ (m * 32 + n) ∷ []
  pub header_byte :
      (m n : ℕ) → m < 8 → (b : ℕ) × (bs : Bytes) × (encode_header m n ≡ b ∷ bs) × (b / 32 ≡ m)
  pub read_encoded_header :
      (m n : ℕ) (rest : Bytes)
      → m < 8
      → n < 2 ^ 64
      → read_header (encode_header m n ++ rest) ≡ ok (m, n, rest)
  pub read_written_string :
      (max : ℕ) (s : String) (rest : Bytes)
      → len s ≤ max
      → read_string max (encode_header 3 (len s) ++ write_string s ++ rest) ≡ ok (s, rest)
  pub read_written_name :
      (size max : ℕ) (s : String) (rest : Bytes)
      → len s ≤ size
      → len s ≤ max
      → read_name size max (encode_header 3 (len s) ++ write_string s ++ rest) ≡ ok (some s, rest)
  pub read_longer_name :
      (size max : ℕ) (s : String) (rest : Bytes)
      → size < len s
      → len s ≤ max
      → read_name size max (encode_header 3 (len s) ++ write_string s ++ rest) ≡ ok (none, rest)
  pub scan_string :
      (s : String) (rest : Bytes)
      → scan (encode_header 3 (len s) ++ write_string s ++ rest) ≡ ok rest

-- The two methods of a generated type of another module, over values that are not nil.
pub record Codec (A : Type 0) : Type 0 where
  pub marshal : A → Result Bytes
  pub unmarshal : Bytes → Result (A × Bytes)
  pub unmarshal_marshalled :
      (a : A) (b rest : Bytes) → marshal a ≡ ok b → unmarshal (b ++ rest) ≡ ok (a, rest)
  pub not_null :
      (a : A) (b : Bytes)
      → marshal a ≡ ok b
      → (x : ℕ) × (xs : Bytes) × (b ≡ x ∷ xs) × (x ≢ cbor_null)

-- The end of input inside a value; io.EOF and io.ErrUnexpectedEOF by their texts.
abbrev pub eof : String
eof = "EOF"

-- The deferred function of an UnmarshalCBOR.
abbrev pub no_eof : {A : Type 0} → Result A → Result A
no_eof (ok a) = ok a
no_eof (err e) = err (if str_eq e eof then "unexpected EOF" else e)

-- The bytes of several writes, one after the other, and what stands behind them.
abbrev pub writes : List Bytes → Bytes → Bytes
writes [] rest = rest
writes (w ∷ ws) rest = w ++ writes ws rest

module _ (c : Cbg) where
  -- A string whose length was checked, and a key of a map, whose length is a constant.
  abbrev pub string_item : String → Bytes
  string_item s = c.encode_header 3 (len s) ++ c.write_string s

  unfoldable pub text : ℕ → String → String → Result Bytes
  text max field s =
      if ltb max (len s)
      then err (errorf "Value in field was too long" field)
      else ok (string_item s)

  -- An int64; `-t - 1` in 64 bits is `n` at -(n + 1).
  abbrev pub int_item : ℤ → Bytes
  int_item (pos n) = c.encode_header 0 n
  int_item (negsuc n) = c.encode_header 1 n

  abbrev pub int_of : ℕ → ℕ → Bytes → Result (ℤ × Bytes)
  int_of maj extra rest =
      if maj == 0
      then if ltb extra (2 ^ 63) then ok (pos extra, rest) else err "int64 positive overflow"
      else if maj == 1
      then if ltb extra (2 ^ 63) then ok (negsuc extra, rest) else err "int64 negative overflow"
      else err "wrong type for int64 field"

  unfoldable pub read_int : Bytes → Result (ℤ × Bytes)
  read_int b = do (maj, extra, rest) ← c.read_header b; int_of maj extra rest

  module _ {T : Type 0} where
    -- ReadByte, and UnreadByte unless it is the null.
    abbrev pub read_pointer : (Bytes → Result (T × Bytes)) → Bytes → Result (Option T × Bytes)
    read_pointer read [] = err eof
    read_pointer read (x ∷ xs) =
        if x == cbor_null then ok (none, xs) else read (x ∷ xs) >>= (λ (a, rest). ok (some a, rest))

    abbrev pub skip : T → Bytes → Result (T × Bytes)
    skip t b = do rest ← c.scan b; ok (t, rest)

    -- The reader of a known field, and `none` for the default of the switch.
    abbrev pub read_field :
        (String → T → Option (Bytes → Result (T × Bytes)))
        → Option String
        → T
        → Bytes
        → Result (T × Bytes)
    read_field field none t b = skip t b
    read_field field (some key) t b = elim (field key t) [ none ↦ skip t b | some read ↦ read b ]

    -- The loop over the entries of a map.
    unfoldable pub read_fields :
        (String → T → Option (Bytes → Result (T × Bytes)))
        → ℕ
        → ℕ
        → ℕ
        → T
        → Bytes
        → Result (T × Bytes)
    read_fields field size max zero t b = ok (t, b)
    read_fields field size max (suc n) t b = do
      (name, rest) ← c.read_name size max b
      (t', rest') ← read_field field name t rest
      read_fields field size max n t' rest'

    -- An UnmarshalCBOR, by its switch, the size of its name buffer, the limit of its keys and the
    -- zero value.
    unfoldable pub unmarshal_map :
        (String → T → Option (Bytes → Result (T × Bytes))) → ℕ → ℕ → T → Bytes → Result (T × Bytes)
    unfolding read_fields
    unmarshal_map field size max zero_value b = do
      (maj, extra, rest) ← c.read_header b
      no_eof (
          if maj == maj_map
          then if ltb c.max_length extra
            then err "map struct too large"
            else read_fields field size max extra zero_value rest
          else err "cbor input should be of type map")
