-- ===== src/Prelude/Float.antt =====
-- Go's conversion of an integer to float64, as the integer that the result stands for.
use Prim.Native.Nat.{ℕ, zero, suc, ◌+◌, ◌*◌, ◌/◌, ◌%◌, ◌≤◌}
use mathlib.Core.Logic.{◌⊎◌, inl, inr}
use mathlib.Core.Path.{◌≡◌}
use native.Mathlib.Omega.{arith}
use labeler_relay.Prelude.Tests.{ltb, ◌==◌, if◌then◌else◌, Bool-cases}

-- 2 ^ 53: below it every integer is a float64.
abbrev pub float64_exact : ℕ
float64_exact = 9007199254740992

-- A number rounded to a multiple of `ulp`, a tie to the even one.
abbrev pub round_even : ℕ → ℕ → ℕ
round_even ulp n =
    let q = n / ulp in
    let r = n % ulp in
    if ltb (r + r) ulp
    then q * ulp
    else if ltb ulp (r + r)
    then (q + 1) * ulp
    else if (q % 2) == 0
    then q * ulp
    else (q + 1) * ulp

-- The spacing of the float64s is the first power of two from `ulp` on of which 2 ^ 53 exceed the number.
unfoldable pub rounded : ℕ → ℕ → ℕ → ℕ
rounded zero ulp n = round_even ulp n
rounded (suc fuel) ulp n =
    let rest = rounded fuel (2 * ulp) n in
    if ltb n (float64_exact * ulp) then round_even ulp n else rest

-- For an int64, whose spacing is at most 2 ^ 10.
unfoldable pub float64 : ℕ → ℕ
unfolding rounded
float64 n = if ltb n float64_exact then n else rounded 9 2 n

-- The conversion is exact below 2 ^ 53.
pub float64-exact : (n : ℕ) → (float64 n ≡ n) ⊎ (float64_exact ≤ n)
unfolding float64
float64-exact n = elim (Bool-cases (ltb n float64_exact)) [
  | inl small ↦ inl (ground (arith, small))
  | inr large ↦ inr (ground (arith, large))
]
