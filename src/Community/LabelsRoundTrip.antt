-- ===== src/Community/LabelsRoundTrip.antt =====
-- Reading back a #labels body.
use Prim.Native.String.{len}
use labeler_relay.Prelude.{
  suc, ◌≤◌, ◌≡◌, refl, sym, ap, ◌∙◌, subst, Option, none, some, List, [], ◌∷◌, ◌++◌, append_assoc,
  ltb, ltb→le, le→ltb, ◌==◌, if◌then◌else◌, Bool-cases, inl, inr, ok, err, ◌>>=◌, ok_injective,
  bind_ok, arith, length,
}
use labeler_relay.Store.Events.{Bytes}
use labeler_relay.Cbor.{Cbg, Codec, writes, string_item, text, read_pointer, read_fields}
use labeler_relay.Cbor.Reading.{
  Fits, text-ok, read_int-int_item, read_pointer-some, unmarshal_map-header, writes-append,
}
use labeler_relay.Community.Labels.{
  LabelsFrame, max_labels, marshal_label, marshal_labels, labels_item, fields, marshal,
  unmarshal_label, read_labels, read_labels_field, labels_field, no_labels, unmarshal,
}

module _ {Label : Type 0} (c : Cbg) (l : Codec Label) where
  read_pointer-label :
      (a : Option Label) (b rest : Bytes)
      → marshal_label c l a ≡ ok b
      → read_pointer c (unmarshal_label c l) (b ++ rest) ≡ ok (a, rest)
  read_pointer-label none b rest h =
      subst (λ b. read_pointer c (unmarshal_label c l) (b ++ rest) ≡ ok (none, rest))
        (ok_injective h) refl
  read_pointer-label (some a) b rest h =
      let (x, xs, e, ne) = l.not_null a b h in
      read_pointer-some c (unmarshal_label c l) a x b xs rest e ne
        (rw (l.unmarshal_marshalled a b rest h) refl)

  read_labels-marshal_labels :
      (ls : List (Option Label)) (b rest : Bytes)
      → marshal_labels c l ls ≡ ok b
      → read_labels c l (length ls) (b ++ rest) ≡ ok (ls, rest)
  unfolding marshal_labels read_labels
  read_labels-marshal_labels [] b rest h =
      subst (λ b. read_labels c l 0 (b ++ rest) ≡ ok ([], rest)) (ok_injective h) refl
  read_labels-marshal_labels (a ∷ ls) b rest h =
      let (b1, h1, k) = bind_ok (marshal_label c l a) _ b h in
      let (b2, h2, e) = bind_ok (marshal_labels c l ls) _ b k in
      subst (λ b. read_labels c l (suc (length ls)) (b ++ rest) ≡ ok (a ∷ ls, rest))
        (ok_injective e)
        (rw
          (
            append_assoc b1 b2 rest,
            read_pointer-label a b1 (b2 ++ rest) h1,
            read_labels-marshal_labels ls b2 rest h2,
          )
          refl)

  labels_item-ok :
      (ls : List (Option Label)) (b : Bytes)
      → labels_item c l ls ≡ ok b
      → (length ls ≤ max_labels)
        × (items : Bytes) × (marshal_labels c l ls ≡ ok items)
        × (b ≡ c.encode_header 4 (length ls) ++ items)
  labels_item-ok ls b h = elim (Bool-cases (ltb max_labels (length ls))) [
    | inl q ↦ absurd (ground (arith, q, h))
    | inr q ↦
        let (items, h1, e) =
          bind_ok (marshal_labels c l ls) (λ bs. ok (c.encode_header 4 (length ls) ++ bs)) b
            (subst
              (λ w.
                (if w
                  then err "Slice value in field t.Labels was too long"
                  else (marshal_labels c l ls >>= (λ bs. ok (c.encode_header 4 (length ls) ++ bs))))
                ≡ ok b)
              q h) in
        (ltb→le max_labels (length ls) q, items, h1, sym (ok_injective e))
  ]

  abbrev written : LabelsFrame Label → Bytes → List Bytes
  written t items =
      fields c l t (string_item c t.src) (c.encode_header 4 (length t.labels) ++ items)

  -- What a body that marshals is made of.
  record Parts (t : LabelsFrame Label) (b : Bytes) : Type 0 where
    pub items : Bytes
    pub src_fits : len t.src ≤ 8192
    pub few : length t.labels ≤ max_labels
    pub marshalled : marshal_labels c l t.labels ≡ ok items
    pub whole : b ≡ 164 ∷ writes (written t items) []

  marshal-Parts : (t : LabelsFrame Label) (b : Bytes) → marshal c l t ≡ ok b → Parts t b
  unfolding marshal
  marshal-Parts t b h =
      let (src, h1, k1) = bind_ok (text c 8192 "t.Src" t.src) _ b h in
      let (labels, h2, k2) = bind_ok (labels_item c l t.labels) _ b k1 in
      let (src_fits, src_is) = text-ok c 8192 "t.Src" t.src src h1 in
      let (few, items, marshalled, labels_are) = labels_item-ok t.labels labels h2 in
      record {
        items = items;
        src_fits = src_fits;
        few = few;
        marshalled = marshalled;
        whole =
            sym (ok_injective k2)
            ∙ ap (λ w. 164 ∷ writes (fields c l t w labels) []) src_is
            ∙ ap (λ w. 164 ∷ writes (fields c l t (string_item c t.src) w) []) labels_are;
      }

  read_labels_field-item :
      (t : LabelsFrame Label) (ls : List (Option Label)) (items rest : Bytes)
      → length ls ≤ max_labels
      → marshal_labels c l ls ≡ ok items
      → t.labels ≡ []
      → read_labels_field c l t ((c.encode_header 4 (length ls) ++ items) ++ rest)
        ≡ ok (record t { labels = ls }, rest)
  unfolding read_labels_field
  read_labels_field-item t ls items rest few h e =
      rw
        (
          append_assoc (c.encode_header 4 (length ls)) items rest,
          c.read_encoded_header 4 (length ls) (items ++ rest) (omega arith) (omega arith),
          le→ltb max_labels (length ls) few,
          read_labels-marshal_labels ls items rest h,
        )
        (ap (λ w. ok (w, rest)) (set_labels ls))
    where
      set_labels :
          (ls : List (Option Label))
          → (if length ls == 0 then t else record t { labels = ls }) ≡ record t { labels = ls }
      set_labels [] = ap (λ w. record t { labels = w }) e
      set_labels (x ∷ xs) = ground arith

  read_written :
      (t : LabelsFrame Label) (items rest : Bytes)
      → len t.src ≤ 8192
      → length t.labels ≤ max_labels
      → marshal_labels c l t.labels ≡ ok items
      → Fits t.seq
      → Fits t.upstream_seq
      → read_fields c (labels_field c l) 11 8192 4 (no_labels c l) (writes (written t items) rest)
        ≡ ok (t, rest)
  unfolding labels_field read_fields
  read_written t items rest src_fits few h seq_fits up_fits =
      rw
        (
          c.read_written_name 11 8192 "seq" _ (omega arith) (omega arith),
          read_int-int_item c t.seq _ seq_fits,
          c.read_written_name 11 8192 "src" _ (omega arith) (omega arith),
          c.read_written_string 8192 t.src _ src_fits,
          c.read_written_name 11 8192 "labels" _ (omega arith) (omega arith),
          read_labels_field-item (record (no_labels c l) { seq = t.seq; src = t.src }) t.labels
              items _ few h refl,
          c.read_written_name 11 8192 "upstreamSeq" _ (omega arith) (omega arith),
          read_int-int_item c t.upstream_seq _ up_fits,
        )
        refl

  -- A #labels body that marshals, with numbers of 64 bits, is read back whole, and what follows it is
  -- left unread.
  pub labels-round_trip :
      (t : LabelsFrame Label) (b rest : Bytes)
      → marshal c l t ≡ ok b
      → Fits t.seq
      → Fits t.upstream_seq
      → unmarshal c l (b ++ rest) ≡ ok (t, rest)
  unfolding unmarshal
  labels-round_trip t b rest h seq_fits up_fits =
      let p = marshal-Parts t b h in
      subst (λ w. unmarshal c l (w ++ rest) ≡ ok (t, rest)) (sym p.whole)
        (subst (λ w. unmarshal c l w ≡ ok (t, rest)) (with_header t p.items rest)
          (unmarshal_map-header c (labels_field c l) 11 8192 4 (no_labels c l) t
            (writes (written t p.items) rest) rest (omega arith)
            (read_written t p.items rest p.src_fits p.few p.marshalled seq_fits up_fits)))
    where
      with_header :
          (t : LabelsFrame Label) (items rest : Bytes)
          → c.encode_header 5 4 ++ writes (written t items) rest
            ≡ (164 ∷ writes (written t items) []) ++ rest
      with_header t items rest =
          ap (λ w. w ++ writes (written t items) rest)
            (c.small_header 5 4 (omega arith) (omega arith))
          ∙ ap (λ w. 164 ∷ w) (sym (writes-append (written t items) [] rest))
