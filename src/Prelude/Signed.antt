-- ===== src/Prelude/Signed.antt =====
-- Lists in strictly ascending order of a signed key, and the part of one past a signed cursor.
use mathlib.Core.Path.{◌≡◌, refl, sym, subst}
use mathlib.Core.Bool.{true, false}
use mathlib.Core.List.{List, [], ◌∷◌}
use mathlib.Core.Logic.{inl, inr}
use native.Mathlib.Omega.{arith}
use labeler_relay.Prelude.Tests.{Bool-cases}
use labeler_relay.Prelude.Int.{ℤ, pos, negsuc, ltb_ℤ}
use labeler_relay.Prelude.Lists.{select, All, All-imp, select-of_true, All-select_of}

pub ltb_ℤ_asym : (a b : ℤ) → ltb_ℤ a b ≡ true → ltb_ℤ b a ≡ false
ltb_ℤ_asym (pos a) (pos b) h = ground arith
ltb_ℤ_asym (pos a) (negsuc b) h = ground arith
ltb_ℤ_asym (negsuc a) (pos b) h = refl
ltb_ℤ_asym (negsuc a) (negsuc b) h = ground arith

pub ltb_ℤ_trans : (a b c : ℤ) → ltb_ℤ a b ≡ true → ltb_ℤ b c ≡ true → ltb_ℤ a c ≡ true
ltb_ℤ_trans (pos a) (pos b) (pos c) h k = ground arith
ltb_ℤ_trans (pos a) (pos b) (negsuc c) h k = ground arith
ltb_ℤ_trans (pos a) (negsuc b) c h k = ground arith
ltb_ℤ_trans (negsuc a) b (pos c) h k = refl
ltb_ℤ_trans (negsuc a) (pos b) (negsuc c) h k = ground arith
ltb_ℤ_trans (negsuc a) (negsuc b) (negsuc c) h k = ground arith

pub ltb_ℤ_behind : (a b c : ℤ) → ltb_ℤ a c ≡ false → ltb_ℤ a b ≡ true → ltb_ℤ b c ≡ false
ltb_ℤ_behind (pos a) (pos b) (pos c) h k = ground arith
ltb_ℤ_behind a (pos b) (negsuc c) h k = refl
ltb_ℤ_behind (pos a) (negsuc b) c h k = cc
ltb_ℤ_behind (negsuc a) b (pos c) h k = cc
ltb_ℤ_behind (negsuc a) (negsuc b) (negsuc c) h k = ground arith

pub ltb_ℤ_irrefl : (a : ℤ) → ltb_ℤ a a ≡ false
ltb_ℤ_irrefl (pos a) = ground arith
ltb_ℤ_irrefl (negsuc a) = ground arith

module _ {ℓ} {A : Type ℓ} (key : A → ℤ) where
  abbrev pub IsOrdered : List A → Type 0
  IsOrdered [] = Unit
  IsOrdered (x ∷ xs) = All (λ y. ltb_ℤ (key x) (key y) ≡ true) xs × IsOrdered xs

  -- The elements with a key past the cursor, in their order.
  abbrev pub beyond : ℤ → List A → List A
  beyond c = select (λ x. ltb_ℤ c (key x))

  -- What is past a smaller cursor than an element's key, that element being before all others.
  beyond-All :
      (c : ℤ) (x : A) (xs : List A)
      → ltb_ℤ c (key x) ≡ true
      → All (λ y. ltb_ℤ (key x) (key y) ≡ true) xs
      → beyond c xs ≡ xs
  beyond-All c x xs h a =
      select-of_true _ xs (All-imp _ _ xs (λ y k. ltb_ℤ_trans c (key x) (key y) h k) a)

  -- Moving the cursor to the first element past it drops exactly that element.
  pub beyond-advance :
      (c : ℤ) (xs : List A) (y : A) (r : List A)
      → IsOrdered xs
      → beyond c xs ≡ y ∷ r
      → beyond (key y) xs ≡ r
  beyond-advance c [] y r h q = cc
  beyond-advance c (x ∷ xs) y r h q = elim (Bool-cases (ltb_ℤ c (key x))) [
    | inl b ↦
        let cut : x ∷ beyond c xs ≡ y ∷ r = ground (arith, q, b) in
        let same : x ≡ y = cc in
        let rest : beyond c xs ≡ r = cc in
        subst (λ z. beyond (key z) (x ∷ xs) ≡ r) same
          (ground (
            arith,
            ltb_ℤ_irrefl (key x),
            select-of_true (λ z. ltb_ℤ (key x) (key z)) xs h.0,
            beyond-All c x xs b h.0,
            rest,
          ))
    | inr b ↦
        let cut : beyond c xs ≡ y ∷ r = ground (arith, q, b) in
        let first =
          subst (λ zs. All (λ z. ltb_ℤ (key x) (key z) ≡ true) zs) cut
            (All-select_of (λ z. ltb_ℤ (key x) (key z) ≡ true) (λ z. ltb_ℤ c (key z)) xs h.0) in
        let behind = ltb_ℤ_asym (key x) (key y) first.0 in
        let rest = beyond-advance c xs y r h.1 cut in ground (arith, behind, rest)
  ]

  -- What holds of the elements that are not past the cursor, and of the first one past it, holds of those
  -- that are not past that one.
  pub beyond-cover :
      (S : A → Type 0) (c : ℤ) (xs : List A) (y : A) (r : List A)
      → IsOrdered xs
      → beyond c xs ≡ y ∷ r
      → S y
      → All (λ x. ltb_ℤ c (key x) ≡ false → S x) xs
      → All (λ x. ltb_ℤ (key y) (key x) ≡ false → S x) xs
  beyond-cover S c [] y r h q s a = tt
  beyond-cover S c (x ∷ xs) y r h q s a = elim (Bool-cases (ltb_ℤ c (key x))) [
    | inl b ↦
        let cut : x ∷ beyond c xs ≡ y ∷ r = ground (arith, q, b) in
        let same : x ≡ y = cc in
        (
          λ k. subst S (sym same) s,
          All-imp _ _ xs (λ z k n. absurd (ground (arith, k, n, same)))
              (subst (λ v. All (λ z. ltb_ℤ (key v) (key z) ≡ true) xs) same h.0),
        )
    | inr b ↦
        let cut : beyond c xs ≡ y ∷ r = ground (arith, q, b) in
        (λ k. a.0 b, beyond-cover S c xs y r h.1 cut s a.1)
  ]
