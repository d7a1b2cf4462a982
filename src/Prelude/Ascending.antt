-- ===== src/Prelude/Ascending.antt =====
-- Lists in strictly ascending order of a numeric key, and the part of one past a cursor.
use Prim.Native.Nat.{ℕ, ◌<◌}
use mathlib.Core.Path.{◌≡◌, ap, ◌∙◌, sym, subst}
use mathlib.Core.Bool.{Bool, true, false}
use mathlib.Core.List.{List, [], ◌∷◌, ◌++◌}
use mathlib.Core.Logic.{inl, inr}
use native.Mathlib.Omega.{arith}
use labeler_relay.Prelude.Tests.{if◌then◌else◌, Bool-cases, le→ltb}
use labeler_relay.Prelude.Int.{ℤ, pos, past, past_trans, past_lt}
use labeler_relay.Prelude.Lists.{
  select, All, All-append, All-imp, select-of_true, All-select, All-select_of,
}

module _ {ℓ} {A : Type ℓ} (key : A → ℕ) where
  abbrev pub IsAscending : List A → Type 0
  IsAscending [] = Unit
  IsAscending (x ∷ xs) = All (λ y. key x < key y) xs × IsAscending xs

  -- The elements with a key past the cursor, in their order.
  abbrev pub above : ℤ → List A → List A
  above c = select (λ x. past c (key x))

  pub IsAscending-append :
      (xs : List A) (y : A)
      → IsAscending xs
      → All (λ x. key x < key y) xs
      → IsAscending (xs ++ y ∷ [])
  IsAscending-append [] y h b = (tt, tt)
  IsAscending-append (x ∷ xs) y h b =
      (All-append _ xs (y ∷ []) h.0 (b.0, tt), IsAscending-append xs y h.1 b.1)

  pub IsAscending-append_right : (xs ys : List A) → IsAscending (xs ++ ys) → IsAscending ys
  IsAscending-append_right [] ys h = h
  IsAscending-append_right (x ∷ xs) ys h = IsAscending-append_right xs ys h.1

  pub IsAscending-select : (p : A → Bool) (xs : List A) → IsAscending xs → IsAscending (select p xs)
  IsAscending-select p [] h = tt
  IsAscending-select p (x ∷ xs) h = keep (p x) (IsAscending-select p xs h.1)
    where
      keep :
          (b : Bool)
          → IsAscending (select p xs)
          → IsAscending (if b then x ∷ select p xs else select p xs)
      keep true i = (All-select_of _ p xs h.0, i)
      keep false i = i

  -- What comes behind an element of an ascending list that is past the cursor is past it too.
  pub above-All :
      (c : ℤ) (n : ℕ) (xs : List A) → past c n ≡ true → All (λ y. n < key y) xs → above c xs ≡ xs
  above-All c n xs h a = select-of_true _ xs (All-imp _ _ xs (λ y k. past_trans c n (key y) h k) a)

  pub above_behind : (n : ℕ) (xs : List A) → All (λ y. n < key y) xs → above (pos n) xs ≡ xs
  above_behind n xs a = select-of_true _ xs (All-imp _ _ xs (λ y k. ground arith) a)

  -- Moving the cursor to the first element past it drops exactly that element.
  pub above-advance :
      (c : ℤ) (xs : List A) (y : A) (r : List A)
      → IsAscending xs
      → above c xs ≡ y ∷ r
      → above (pos (key y)) xs ≡ r
  above-advance c [] y r h e = cc
  above-advance c (x ∷ xs) y r h e = elim (Bool-cases (past c (key x))) [
    | inl p ↦
        let e' : x ∷ above c xs ≡ y ∷ r = rw p at e in
        let tail : above c xs ≡ xs = above-All c (key x) xs p h.0 in
        let first : key x ≡ key y = ap key (cc) in
        let rest : above c xs ≡ r = cc in
        subst (λ n. above (pos n) (x ∷ xs) ≡ r) first
          (rw (le→ltb (key x) (key x) (omega arith))
            (above_behind (key x) xs h.0 ∙ sym tail ∙ rest))
    | inr p ↦
        let e' : above c xs ≡ y ∷ r = rw p at e in
        let q : past c (key y) ≡ true =
          (subst (All (λ z. past c (key z) ≡ true)) e' (All-select _ xs)).0 in
        rw (le→ltb (key y) (key x) (omega (arith, past_lt c (key x) (key y) p q)))
          (above-advance c xs y r h.1 e')
  ]

  -- So moving it to the end of a part that was read leaves what was not read.
  pub above-advance_to :
      (c : ℤ) (xs ys : List A) (y : A) (r : List A)
      → IsAscending xs
      → above c xs ≡ ys ++ y ∷ r
      → above (pos (key y)) xs ≡ r
  above-advance_to c xs [] y r h e = above-advance c xs y r h e
  above-advance_to c xs (z ∷ ys) y r h e =
      above-advance_to (pos (key z)) xs ys y r h (above-advance c xs z (ys ++ y ∷ r) h e)
