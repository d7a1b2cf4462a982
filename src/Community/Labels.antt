-- ===== src/Community/Labels.antt =====
-- LabelerSyncSubscribeLabelers_Labels. A label is a type of another module with its own codec; the
-- slice holds pointers.
use labeler_relay.Prelude.{
  ℕ, zero, suc, String, Option, none, some, List, [], ◌∷◌, ◌++◌, ltb, ◌==◌, if◌then◌else◌, ℤ, pos,
  Result, ok, err, ◌>>=◌, str_eq, length, with_context,
}
use labeler_relay.Store.Events.{Bytes}
use labeler_relay.Cbor.{
  Cbg, Codec, cbor_null, maj_array, writes, string_item, text, int_item, read_int, read_pointer,
  unmarshal_map,
}

pub record LabelsFrame (Label : Type 0) : Type 0 where
  pub seq : ℤ
  pub src : String
  pub upstream_seq : ℤ
  pub labels : List (Option Label)

abbrev pub max_labels : ℕ
max_labels = 8192

module _ {Label : Type 0} (c : Cbg) (l : Codec Label) where
  -- MarshalCBOR of a nil label writes a null.
  abbrev pub marshal_label : Option Label → Result Bytes
  marshal_label none = ok (cbor_null ∷ [])
  marshal_label (some a) = l.marshal a

  unfoldable pub marshal_labels : List (Option Label) → Result Bytes
  marshal_labels [] = ok []
  marshal_labels (a ∷ ls) = do b ← marshal_label a; bs ← marshal_labels ls; ok (b ++ bs)

  abbrev pub labels_item : List (Option Label) → Result Bytes
  labels_item ls =
      if ltb max_labels (length ls)
      then err "Slice value in field t.Labels was too long"
      else marshal_labels ls >>= (λ bs. ok (c.encode_header 4 (length ls) ++ bs))

  -- The fields in the order in which they are written.
  abbrev pub fields : LabelsFrame Label → Bytes → Bytes → List Bytes
  fields t src labels =
      string_item c "seq"
      ∷ int_item c t.seq
      ∷ string_item c "src"
      ∷ src
      ∷ string_item c "labels"
      ∷ labels
      ∷ string_item c "upstreamSeq"
      ∷ int_item c t.upstream_seq
      ∷ []

  unfoldable pub marshal : LabelsFrame Label → Result Bytes
  unfolding text marshal_labels
  marshal t = do
    src ← text c 8192 "t.Src" t.src
    labels ← labels_item t.labels
    ok (164 ∷ writes (fields t src labels) [])

  abbrev pub unmarshal_label : Bytes → Result (Label × Bytes)
  unmarshal_label b = with_context "unmarshaling t.Labels[i] pointer" (l.unmarshal b)

  -- The loop over the elements of the array.
  unfoldable pub read_labels : ℕ → Bytes → Result (List (Option Label) × Bytes)
  read_labels zero b = ok ([], b)
  read_labels (suc n) b = do
    (a, rest) ← read_pointer c unmarshal_label b
    (ls, rest') ← read_labels n rest
    ok (a ∷ ls, rest')

  -- An array of length zero leaves the slice as it is.
  unfoldable pub read_labels_field : LabelsFrame Label → Bytes → Result (LabelsFrame Label × Bytes)
  unfolding read_labels
  read_labels_field t b = do
    (maj, extra, rest) ← c.read_header b
    if ltb max_labels extra
        then err "t.Labels: array too large"
        else if maj == maj_array
        then read_labels extra rest
          >>= (λ (ls, rest'). ok (if extra == 0 then t else record t { labels = ls }, rest'))
        else err "expected cbor array"

  unfoldable pub labels_field :
      String → LabelsFrame Label → Option (Bytes → Result (LabelsFrame Label × Bytes))
  unfolding read_int read_labels_field
  labels_field key t =
      if str_eq key "seq"
      then some (λ b. read_int c b >>= (λ (n, rest). ok (record t { seq = n }, rest)))
      else if str_eq key "src"
      then some (λ b. c.read_string 8192 b >>= (λ (s, rest). ok (record t { src = s }, rest)))
      else if str_eq key "labels"
      then some (read_labels_field t)
      else if str_eq key "upstreamSeq"
      then some (λ b. read_int c b >>= (λ (n, rest). ok (record t { upstream_seq = n }, rest)))
      else none

  abbrev pub no_labels : LabelsFrame Label
  no_labels = record { seq = pos 0; src = ""; upstream_seq = pos 0; labels = [] }

  unfoldable pub unmarshal : Bytes → Result (LabelsFrame Label × Bytes)
  unfolding unmarshal_map labels_field
  unmarshal b = unmarshal_map c labels_field 11 8192 no_labels b
