-- ===== src/Cbor/Sample.antt =====
-- A small format that keeps the laws of `Cbg`, for the tests: a header has its argument as one element
-- when it is not below 24, and a text is the numbers of its characters, each one up, and a zero.
use Prim.Native.Nat.{compare, Ordering}
use Prim.Native.Char.{Char, char, code, nul, IsLt}
use Prim.Native.String.{len}
use text.Mathlib.TextEquality.{Char-path}
use labeler_relay.Prelude.{
  ℕ, zero, suc, ◌+◌, ◌*◌, ◌/◌, ◌%◌, ◌≤◌, ◌<◌, ◌≡◌, refl, sym, ap, String, Option, none, some, [],
  ◌∷◌, ◌++◌, append_assoc, ltb, le→ltb, lt→ltb, ltb→lt, if◌then◌else◌, Bool-cases, inl, inr, Result,
  ok, err, ◌>>=◌, subst, ok_injective, arith,
}
use labeler_relay.Store.Events.{Bytes}
use labeler_relay.Cbor.{Cbg, Codec, eof}

-- What `IsScalar` computes to.
abbrev Both : Ordering → Ordering → Type 0
Both Ordering.lt o = IsLt o
Both Ordering.eq _ = ⊥
Both Ordering.gt _ = ⊥

abbrev Scalar : Ordering → Ordering → Ordering → Type 0
Scalar Ordering.lt _ _ = Unit
Scalar Ordering.eq o p = Both o p
Scalar Ordering.gt o p = Both o p

both? : (o p : Ordering) → Option (Both o p)
both? Ordering.lt Ordering.lt = some tt
both? Ordering.lt Ordering.eq = none
both? Ordering.lt Ordering.gt = none
both? Ordering.eq p = none
both? Ordering.gt p = none

scalar? : (o p q : Ordering) → Option (Scalar o p q)
unfolding both?
scalar? Ordering.lt p q = some tt
scalar? Ordering.eq p q = both? p q
scalar? Ordering.gt p q = both? p q

both?-some : (o p : Ordering) → Both o p → (x : Both o p) × (both? o p ≡ some x)
unfolding both?
both?-some Ordering.lt Ordering.lt x = (tt, refl)
both?-some Ordering.lt Ordering.eq x = absurd x
both?-some Ordering.lt Ordering.gt x = absurd x
both?-some Ordering.eq p x = absurd x
both?-some Ordering.gt p x = absurd x

scalar?-some : (o p q : Ordering) → Scalar o p q → (x : Scalar o p q) × (scalar? o p q ≡ some x)
unfolding scalar?
scalar?-some Ordering.lt p q x = (tt, refl)
scalar?-some Ordering.eq p q x = both?-some p q x
scalar?-some Ordering.gt p q x = both?-some p q x

unfoldable pub to_char : ℕ → Char
unfolding scalar? both?
to_char n = elim (scalar? (compare n 55296) (compare 57343 n) (compare n 1114112)) [
  | none ↦ nul
  | some p ↦ char n p
]

to_char-code : (c : Char) → to_char (code c) ≡ c
unfolding to_char
to_char-code (char n p) =
    let (x, e) = scalar?-some (compare n 55296) (compare 57343 n) (compare n 1114112) p in
    rw (e, to_char) (Char-path (char n x) (char n p) refl)

unfoldable pub write_text : String → Bytes
write_text String.[] = 0 ∷ []
write_text (String.◌∷◌ c s) = suc (code c) ∷ write_text s

unfoldable pub read_text : Bytes → Result (String × Bytes)
unfolding to_char
read_text [] = err eof
read_text (zero ∷ bs) = ok ("", bs)
read_text (suc n ∷ bs) = read_text bs >>= (λ (s, rest). ok (String.◌∷◌ (to_char n) s, rest))

pub read_text-write_text :
    (s : String) (rest : Bytes) → read_text (write_text s ++ rest) ≡ ok (s, rest)
unfolding read_text write_text
read_text-write_text String.[] rest = refl
read_text-write_text (String.◌∷◌ c s) rest =
    rw (read_text-write_text s rest) (ap (λ d. ok (String.◌∷◌ d s, rest)) (to_char-code c))

unfoldable pub header : ℕ → ℕ → Bytes
header m n = if ltb n 24 then (m * 32 + n) ∷ [] else (m * 32 + 27) ∷ n ∷ []

abbrev argument : ℕ → Bytes → Result (ℕ × ℕ × Bytes)
argument m [] = err eof
argument m (n ∷ rest) = ok (m, n, rest)

unfoldable pub read_header : Bytes → Result (ℕ × ℕ × Bytes)
read_header [] = err eof
read_header (b ∷ bs) = if ltb (b % 32) 24 then ok (b / 32, b % 32, bs) else argument (b / 32) bs

short_major : (m n : ℕ) → n < 24 → ((m * 32 + n) / 32 ≡ m) × ((m * 32 + n) % 32 ≡ n)
short_major m n h = (omega arith, omega arith)

long_major : (m : ℕ) → ((m * 32 + 27) / 32 ≡ m) × ((m * 32 + 27) % 32 ≡ 27)
long_major m = (omega arith, omega arith)

pub read_header-header :
    (m n : ℕ) (rest : Bytes) → read_header (header m n ++ rest) ≡ ok (m, n, rest)
unfolding read_header header
read_header-header m n rest = elim (Bool-cases (ltb n 24)) [
  | inl q ↦ let (d, r) = short_major m n (ltb→lt n 24 q) in rw (q, d, r, q) refl
  | inr q ↦ let (d, r) = long_major m in rw (q, d, r) refl
]

-- The text of an item, checked against a limit.
unfoldable pub read_item : ℕ → Bytes → Result (ℕ × String × Bytes)
unfolding read_header read_text
read_item max b = do
  (major, n, rest) ← read_header b
  (s, rest') ← (if ltb max n then err "too long" else read_text rest)
  ok (n, s, rest')

pub read_item-written :
    (max : ℕ) (s : String) (rest : Bytes)
    → len s ≤ max
    → read_item max (header 3 (len s) ++ write_text s ++ rest) ≡ ok (len s, s, rest)
unfolding read_item
read_item-written max s rest h =
    rw
      (
        append_assoc (header 3 (len s)) (write_text s) rest,
        read_header-header 3 (len s) (write_text s ++ rest),
        le→ltb max (len s) h,
        read_text-write_text s rest,
      )
      refl

pub header-byte : (m n : ℕ) → (b : ℕ) × (bs : Bytes) × (header m n ≡ b ∷ bs) × (b / 32 ≡ m)
unfolding header
header-byte m n = elim (Bool-cases (ltb n 24)) [
  | inl q ↦ (m * 32 + n, [], rw q refl, (short_major m n (ltb→lt n 24 q)).0)
  | inr q ↦ (m * 32 + 27, n ∷ [], rw q refl, (long_major m).0)
]

unfoldable pub read_name : ℕ → ℕ → Bytes → Result (Option String × Bytes)
unfolding read_item
read_name size max b = do
  (n, s, rest) ← read_item max b
  ok (if ltb size n then none else some s, rest)

unfoldable pub scan : Bytes → Result Bytes
unfolding read_header read_text
scan b = do (major, n, rest) ← read_header b; (s, rest') ← read_text rest; ok rest'

-- The format as a `Cbg`.
unfoldable pub sample : Cbg
unfolding header read_header write_text read_item read_name scan read_text
sample = record {
  max_length = 8192;
  encode_header = header;
  read_header = read_header;
  write_string = write_text;
  read_string = λ max b. read_item max b >>= (λ (n, s, rest). ok (s, rest));
  read_name = read_name;
  scan = scan;
  room = omega arith;
  small_header = λ m n k h. rw (lt→ltb n 24 h, header) refl;
  header_byte = λ m n k. header-byte m n;
  read_encoded_header = λ m n rest hm hn. read_header-header m n rest;
  read_written_string = λ max s rest h. rw (read_item-written max s rest h) refl;
  read_written_name =
      λ size max s rest hs h. rw (read_item-written max s rest h, le→ltb size (len s) hs) refl;
  read_longer_name =
      λ size max s rest hs h. rw (read_item-written max s rest h, lt→ltb size (len s) hs) refl;
  scan_string = λ s rest.
      rw
        (
          append_assoc (header 3 (len s)) (write_text s) rest,
          read_header-header 3 (len s) (write_text s ++ rest),
          read_text-write_text s rest,
        )
        refl;
}

-- Labels and records that are numbers, as their own bytes behind a map header.
abbrev pub number_codec : Codec ℕ
number_codec = record {
  marshal = λ n. ok (161 ∷ n ∷ []);
  unmarshal = read_number;
  unmarshal_marshalled =
      λ n b rest h. subst (λ b. read_number (b ++ rest) ≡ ok (n, rest)) (ok_injective h) refl;
  not_null = λ n b h. (161, n ∷ [], sym (ok_injective h), λ p. omega arith);
}
  where
    read_number : Bytes → Result (ℕ × Bytes)
    read_number [] = err eof
    read_number (x ∷ []) = err eof
    read_number (x ∷ n ∷ rest) = ok (n, rest)
