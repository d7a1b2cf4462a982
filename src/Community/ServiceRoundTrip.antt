-- ===== src/Community/ServiceRoundTrip.antt =====
-- Reading back a #service body.
use Prim.Native.String.{len}
use labeler_relay.Prelude.{
  ℕ, suc, ◌≤◌, ◌≡◌, refl, sym, ap, ◌∙◌, subst, Option, none, some, List, [], ◌++◌, append_assoc, ok,
  ok_injective, bind_ok, arith,
}
use labeler_relay.Store.Events.{Bytes}
use labeler_relay.Cbor.{Cbg, Codec, writes, string_item, text, read_fields}
use labeler_relay.Cbor.Reading.{
  Fits, text-ok, read_int-int_item, read_pointer-some, unmarshal_map-header, writes-append,
}
use labeler_relay.Community.Service.{
  ServiceFrame, field_count, record_entry, fields, marshal, unmarshal_record, service_field,
  no_service, unmarshal,
}

module _ {Service : Type 0} (c : Cbg) (l : Codec Service) where
  abbrev written : ServiceFrame Service → List Bytes → List Bytes
  written t entry = fields c l t (string_item c t.op) (string_item c t.src) entry

  -- What a body that marshals is made of.
  record Parts (t : ServiceFrame Service) (b : Bytes) : Type 0 where
    pub entry : List Bytes
    pub op_fits : len t.op ≤ 8192
    pub src_fits : len t.src ≤ 8192
    pub marshalled : record_entry c l t.service ≡ ok entry
    pub whole : b ≡ c.encode_header 5 (field_count c l t.service) ++ writes (written t entry) []

  marshal-Parts : (t : ServiceFrame Service) (b : Bytes) → marshal c l t ≡ ok b → Parts t b
  unfolding marshal
  marshal-Parts t b h =
      let (op, h1, k1) = bind_ok (text c 8192 "t.Op" t.op) _ b h in
      let (src, h2, k2) = bind_ok (text c 8192 "t.Src" t.src) _ b k1 in
      let (entry, h3, k3) = bind_ok (record_entry c l t.service) _ b k2 in
      let (op_fits, op_is) = text-ok c 8192 "t.Op" t.op op h1 in
      let (src_fits, src_is) = text-ok c 8192 "t.Src" t.src src h2 in
      let head = c.encode_header 5 (field_count c l t.service) in
      record {
        entry = entry;
        op_fits = op_fits;
        src_fits = src_fits;
        marshalled = h3;
        whole =
            sym (ok_injective k3)
            ∙ ap (λ w. head ++ writes (fields c l t w src entry) []) op_is
            ∙ ap (λ w. head ++ writes (fields c l t (string_item c t.op) w entry) []) src_is;
      }

  -- The three entries that are always there.
  read_start :
      (t : ServiceFrame Service) (n : ℕ) (entry : List Bytes) (rest : Bytes)
      → len t.op ≤ 8192
      → len t.src ≤ 8192
      → Fits t.seq
      → read_fields c
          (service_field c l)
          6
          8192
          (suc (suc (suc n)))
          (no_service c l)
          (writes (written t entry) rest)
        ≡ read_fields c
            (service_field c l)
            6
            8192
            n
            (record t { service = none })
            (writes entry rest)
  unfolding service_field read_fields
  read_start t n entry rest op_fits src_fits seq_fits =
      rw
        (
          c.read_written_name 6 8192 "op" _ (omega arith) (omega arith),
          c.read_written_string 8192 t.op _ op_fits,
          c.read_written_name 6 8192 "seq" _ (omega arith) (omega arith),
          read_int-int_item c t.seq _ seq_fits,
          c.read_written_name 6 8192 "src" _ (omega arith) (omega arith),
          c.read_written_string 8192 t.src _ src_fits,
        )
        refl

  abbrev count_of : Option Service → ℕ
  count_of none = 0
  count_of (some r) = 1

  -- The entry of the record, if there is one.
  read_end :
      (t : ServiceFrame Service) (s : Option Service) (entry : List Bytes) (rest : Bytes)
      → record_entry c l s ≡ ok entry
      → read_fields c
          (service_field c l)
          6
          8192
          (count_of s)
          (record t { service = none })
          (writes entry rest)
        ≡ ok (record t { service = s }, rest)
  unfolding service_field read_fields
  read_end t none entry rest h =
      subst
        (λ e.
          read_fields c (service_field c l) 6 8192 0 (record t { service = none }) (writes e rest)
          ≡ ok (record t { service = none }, rest))
        (ok_injective h) refl
  read_end t (some r) entry rest h =
      let (b, hb, e) = bind_ok (l.marshal r) _ entry h in
      let (x, xs, shape, ne) = l.not_null r b hb in
      subst
        (λ e.
          read_fields c (service_field c l) 6 8192 1 (record t { service = none }) (writes e rest)
          ≡ ok (record t { service = some r }, rest))
        (ok_injective e)
        (rw
          (
            c.read_written_name 6 8192 "record" _ (omega arith) (omega arith),
            read_pointer-some c (unmarshal_record c l) r x b xs rest shape ne
                (rw (l.unmarshal_marshalled r b rest hb) refl),
          )
          refl)

  read_written :
      (t : ServiceFrame Service) (s : Option Service) (entry : List Bytes) (rest : Bytes)
      → t.service ≡ s
      → len t.op ≤ 8192
      → len t.src ≤ 8192
      → Fits t.seq
      → record_entry c l s ≡ ok entry
      → read_fields c
          (service_field c l)
          6
          8192
          (field_count c l s)
          (no_service c l)
          (writes (written t entry) rest)
        ≡ ok (t, rest)
  read_written t none entry rest e op_fits src_fits seq_fits h =
      read_start t 0 entry rest op_fits src_fits seq_fits
      ∙ read_end t none entry rest h
      ∙ ap (λ s. ok (record t { service = s }, rest)) (sym e)
  read_written t (some r) entry rest e op_fits src_fits seq_fits h =
      read_start t 1 entry rest op_fits src_fits seq_fits
      ∙ read_end t (some r) entry rest h
      ∙ ap (λ s. ok (record t { service = s }, rest)) (sym e)

  field_count-small : (s : Option Service) → field_count c l s ≤ 11
  field_count-small none = omega arith
  field_count-small (some r) = omega arith

  -- A #service body that marshals, with a number of 64 bits, is read back whole, with its record or
  -- without one, and what follows it is left unread.
  pub service-round_trip :
      (t : ServiceFrame Service) (b rest : Bytes)
      → marshal c l t ≡ ok b
      → Fits t.seq
      → unmarshal c l (b ++ rest) ≡ ok (t, rest)
  unfolding unmarshal
  service-round_trip t b rest h seq_fits =
      let p = marshal-Parts t b h in
      let head = c.encode_header 5 (field_count c l t.service) in
      subst (λ w. unmarshal c l (w ++ rest) ≡ ok (t, rest)) (sym p.whole)
        (subst (λ w. unmarshal c l w ≡ ok (t, rest))
          (sym (
            append_assoc head (writes (written t p.entry) []) rest
            ∙ ap (λ w. head ++ w) (writes-append (written t p.entry) [] rest)))
          (unmarshal_map-header c (service_field c l) 6 8192 (field_count c l t.service)
            (no_service c l) t (writes (written t p.entry) rest) rest (field_count-small t.service)
            (read_written t t.service p.entry rest refl p.op_fits p.src_fits seq_fits
              p.marshalled)))
