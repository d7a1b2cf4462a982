-- ===== src/Prelude/Counting.antt =====
-- Counting what a test selects, when a second test narrows the first.
use Prim.Native.Nat.{ℕ, ◌+◌, ◌≤◌}
use mathlib.Core.Path.{◌≡◌, refl}
use mathlib.Core.Bool.{Bool, not, ◌&&◌}
use mathlib.Core.List.{List, [], ◌∷◌}
use native.Mathlib.Omega.{arith}
use labeler_relay.Prelude.Lists.{select, length}

module _ {ℓ} {A : Type ℓ} where
  abbrev pub count : (A → Bool) → List A → ℕ
  count p xs = length (select p xs)

module _ {ℓ} {A : Type ℓ} (p q : A → Bool) where
  abbrev pub both : A → Bool
  both x = p x && q x

  pub count-both_le : (xs : List A) → count both xs ≤ count p xs
  count-both_le [] = omega arith
  count-both_le (x ∷ xs) = ground (arith, count-both_le xs)

  -- Taking away what both tests select leaves the rest of the first selection to take.
  pub select_rest :
      (xs : List A)
      → select (λ x. not (p x)) (select (λ x. not (both x)) xs) ≡ select (λ x. not (p x)) xs
  select_rest [] = refl
  select_rest (x ∷ xs) = ground (arith, select_rest xs)

  pub count_rest :
      (xs : List A) → count p (select (λ x. not (both x)) xs) + count both xs ≡ count p xs
  count_rest [] = omega arith
  count_rest (x ∷ xs) = ground (arith, count_rest xs)

  -- If the second test narrows nothing, the two leave the same.
  pub select_all_both :
      (xs : List A)
      → count both xs ≡ count p xs
      → select (λ x. not (both x)) xs ≡ select (λ x. not (p x)) xs
  select_all_both [] h = refl
  select_all_both (x ∷ xs) h = ground (arith, select_all_both xs, count-both_le xs)
