-- ===== src/Community/InfoRoundTrip.antt =====
-- Reading back an #info body, also one with an entry that the type does not have.
use Prim.Native.String.{len}
use labeler_relay.Prelude.{
  ℕ, ◌≤◌, ◌<◌, ◌/◌, ◌≡◌, ◌≢◌, refl, sym, ap, ◌∙◌, subst, String, Option, none, some, List, [], ◌∷◌,
  ◌++◌, append_assoc, ok, ok_injective, bind_ok, arith,
}
use labeler_relay.Store.Events.{Bytes}
use labeler_relay.Cbor.{Cbg, cbor_null, writes, string_item, text, read_fields}
use labeler_relay.Cbor.Reading.{text-ok, read_pointer-some, unmarshal_map-header, writes-append}
use labeler_relay.Community.Info.{
  InfoFrame, field_count, message_entry, marshal, info_field, no_info, unmarshal,
}

module _ (c : Cbg) where
  abbrev written : InfoFrame → List Bytes → List Bytes
  written t entry = string_item c "name" ∷ string_item c t.name ∷ entry

  record Parts (t : InfoFrame) (b : Bytes) : Type 0 where
    pub entry : List Bytes
    pub name_fits : len t.name ≤ 8192
    pub marshalled : message_entry c t.message ≡ ok entry
    pub whole : b ≡ c.encode_header 5 (field_count c t.message) ++ writes (written t entry) []

  marshal-Parts : (t : InfoFrame) (b : Bytes) → marshal c t ≡ ok b → Parts t b
  unfolding marshal
  marshal-Parts t b h =
      let (name, h1, k1) = bind_ok (text c 8192 "t.Name" t.name) _ b h in
      let (entry, h2, k2) = bind_ok (message_entry c t.message) _ b k1 in
      let (name_fits, name_is) = text-ok c 8192 "t.Name" t.name name h1 in
      let head = c.encode_header 5 (field_count c t.message) in
      record {
        entry = entry;
        name_fits = name_fits;
        marshalled = h2;
        whole =
            sym (ok_injective k2)
            ∙ ap (λ w. head ++ writes (string_item c "name" ∷ w ∷ entry) []) name_is;
      }

  -- A text does not begin with a null.
  string_item-shape :
      (s : String) → (x : ℕ) × (xs : Bytes) × (string_item c s ≡ x ∷ xs) × (x ≢ cbor_null)
  string_item-shape s =
      let (b, bs, e, major) = c.header_byte 3 (len s) (omega arith) in
      (b, bs ++ c.write_string s, ap (λ w. w ++ c.write_string s) e, not_null b major)
    where
      not_null : (b : ℕ) → b / 32 ≡ 3 → b ≢ cbor_null
      not_null b h q = omega arith

  read_written :
      (t : InfoFrame) (m : Option String) (entry : List Bytes) (rest : Bytes)
      → t.message ≡ m
      → len t.name ≤ 8192
      → message_entry c m ≡ ok entry
      → read_fields c
          (info_field c)
          7
          8192
          (field_count c m)
          (no_info c)
          (writes (written t entry) rest)
        ≡ ok (t, rest)
  unfolding info_field read_fields
  read_written t none entry rest e name_fits h =
      subst
        (λ w.
          read_fields c (info_field c) 7 8192 1 (no_info c) (writes (written t w) rest)
          ≡ ok (t, rest))
        (ok_injective h)
        (rw
          (
            c.read_written_name 7 8192 "name" _ (omega arith) (omega arith),
            c.read_written_string 8192 t.name _ name_fits,
          )
          (ap (λ s. ok (record t { message = s }, rest)) (sym e)))
  read_written t (some m) entry rest e name_fits h =
      let (b, hb, eb) = bind_ok (text c 8192 "t.Message" m) _ entry h in
      let (fits, is) = text-ok c 8192 "t.Message" m b hb in
      let (x, xs, shape, ne) = string_item-shape m in
      subst
        (λ w.
          read_fields c (info_field c) 7 8192 2 (no_info c) (writes (written t w) rest)
          ≡ ok (t, rest))
        (ap (λ b. string_item c "message" ∷ b ∷ []) (sym is) ∙ ok_injective eb)
        (rw
          (
            c.read_written_name 7 8192 "name" _ (omega arith) (omega arith),
            c.read_written_string 8192 t.name _ name_fits,
            c.read_written_name 7 8192 "message" _ (omega arith) (omega arith),
            read_pointer-some c (c.read_string 8192) m x (string_item c m) xs rest shape ne
                (c.read_written_string 8192 m rest fits),
          )
          (ap (λ s. ok (record t { message = s }, rest)) (sym e)))

  field_count-small : (m : Option String) → field_count c m ≤ 11
  field_count-small none = omega arith
  field_count-small (some m) = omega arith

  -- An #info body that marshals is read back whole, with its message or without one, and what follows
  -- it is left unread.
  pub info-round_trip :
      (t : InfoFrame) (b rest : Bytes) → marshal c t ≡ ok b → unmarshal c (b ++ rest) ≡ ok (t, rest)
  unfolding unmarshal
  info-round_trip t b rest h =
      let p = marshal-Parts t b h in
      let head = c.encode_header 5 (field_count c t.message) in
      subst (λ w. unmarshal c (w ++ rest) ≡ ok (t, rest)) (sym p.whole)
        (subst (λ w. unmarshal c w ≡ ok (t, rest))
          (sym (
            append_assoc head (writes (written t p.entry) []) rest
            ∙ ap (λ w. head ++ w) (writes-append (written t p.entry) [] rest)))
          (unmarshal_map-header c (info_field c) 7 8192 (field_count c t.message) (no_info c) t
            (writes (written t p.entry) rest) rest (field_count-small t.message)
            (read_written t t.message p.entry rest refl p.name_fits p.marshalled)))

  -- A body with one more entry of a text before the name, whose key is longer than each key of the type,
  -- is read as if that entry were not there.
  pub info-unknown_entry :
      (key value name : String) (rest : Bytes)
      → 7 < len key
      → len key ≤ 8192
      → len name ≤ 8192
      → unmarshal c (
          c.encode_header 5 2
          ++ writes
              (string_item c key
                ∷ string_item c value
                ∷ string_item c "name"
                ∷ string_item c name
                ∷ [])
              rest)
        ≡ ok (record { name = name; message = none }, rest)
  unfolding unmarshal info_field read_fields
  info-unknown_entry key value name rest longer key_fits name_fits =
      unmarshal_map-header c (info_field c) 7 8192 2 (no_info c)
        (record { name = name; message = none }) _ rest (omega arith)
        (rw
          (
            c.read_longer_name 7 8192 key _ longer key_fits,
            c.scan_string value _,
            c.read_written_name 7 8192 "name" _ (omega arith) (omega arith),
            c.read_written_string 8192 name _ name_fits,
          )
          refl)
