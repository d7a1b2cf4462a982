-- ===== src/Cbor/Reading.antt =====
-- Reading back what was written, item by item.
use Prim.Native.String.{len}
use labeler_relay.Prelude.{
  ℕ, ◌^◌, ◌≤◌, ◌<◌, ◌≡◌, ◌≢◌, refl, ap, ◌∙◌, String, Option, some, List, [], ◌∷◌, ◌++◌,
  append_assoc, ltb, ltb→le, Bool-cases, inl, inr, ℤ, pos, negsuc, Result, ok, arith,
}
use labeler_relay.Store.Events.{Bytes}
use labeler_relay.Cbor.{
  Cbg, cbor_null, writes, string_item, text, int_item, read_int, read_pointer, read_fields,
  unmarshal_map,
}

-- Within 64 bits.
abbrev pub Fits : ℤ → Type 0
Fits (pos n) = n < 2 ^ 63
Fits (negsuc n) = n < 2 ^ 63

module _ (c : Cbg) where
  pub text-ok :
      (max : ℕ) (field s : String) (b : Bytes)
      → text c max field s ≡ ok b
      → (len s ≤ max) × (b ≡ string_item c s)
  unfolding text
  text-ok max field s b h = elim (Bool-cases (ltb max (len s))) [
    | inl q ↦ absurd (ground (arith, q, h))
    | inr q ↦ (ltb→le max (len s) q, ground (arith, q, h))
  ]

  pub read_int-int_item :
      (n : ℤ) (rest : Bytes) → Fits n → read_int c (int_item c n ++ rest) ≡ ok (n, rest)
  unfolding read_int
  read_int-int_item (pos n) rest h =
      rw (c.read_encoded_header 0 n rest (omega arith) (omega arith)) (ground arith)
  read_int-int_item (negsuc n) rest h =
      rw (c.read_encoded_header 1 n rest (omega arith) (omega arith)) (ground arith)

  module _ {T : Type 0} where
    pub read_pointer-some :
        (read : Bytes → Result (T × Bytes)) (a : T) (x : ℕ) (b bs rest : Bytes)
        → b ≡ x ∷ bs
        → x ≢ cbor_null
        → read (b ++ rest) ≡ ok (a, rest)
        → read_pointer c read (b ++ rest) ≡ ok (some a, rest)
    read_pointer-some read a x b bs rest e ne h = rw e (pointed (rw e at h))
      where
        pointed :
            read ((x ∷ bs) ++ rest) ≡ ok (a, rest)
            → read_pointer c read ((x ∷ bs) ++ rest) ≡ ok (some a, rest)
        pointed q = ground (arith, ne, q)

    pub unmarshal_map-header :
        (field : String → T → Option (Bytes → Result (T × Bytes))) (size max n : ℕ) (t t' : T)
        (b rest : Bytes)
        → n ≤ 11
        → read_fields c field size max n t b ≡ ok (t', rest)
        → unmarshal_map c field size max t (c.encode_header 5 n ++ b) ≡ ok (t', rest)
    unfolding unmarshal_map
    unmarshal_map-header field size max n t t' b rest h r =
        rw (c.read_encoded_header 5 n b (omega arith) (omega arith)) (ground (arith, c.room, r))

-- What follows a list of writes.
pub writes-append : (ws : List Bytes) (a rest : Bytes) → writes ws a ++ rest ≡ writes ws (a ++ rest)
writes-append [] a rest = refl
writes-append (w ∷ ws) a rest =
    append_assoc w (writes ws a) rest ∙ ap (λ b. w ++ b) (writes-append ws a rest)
