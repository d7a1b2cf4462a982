-- ===== src/Prelude/Results.antt =====
-- Go's `(value, error)` results: an error is its text, and `%w` puts a context before the cause.
use Prim.Native.String
use Prim.Native.String.{String}
use mathlib.Core.Path.{◌≡◌, refl}
use mathlib.Core.Option.{Option, none, some}
use mathlib.Core.Logic.{◌≢◌, ◌⊎◌, inl, inr}

pub data Result {ℓ} (A : Type ℓ) : Type ℓ where
  ok : A → Result A
  err : String → Result A

-- `fmt.Errorf("context: %w", cause)`
abbrev pub errorf : String → String → String
errorf context cause = String.◌++◌ context (String.◌++◌ ": " cause)

-- A call of something outside the program: `some cause` if it fails.
abbrev pub Fault : Type 0
Fault = Option String

infixl 5 ◌>>=◌
abbrev pub ◌>>=◌ {ℓ κ} : {A : Type ℓ} {B : Type κ} → Result A → (A → Result B) → Result B
err cause >>= next = err cause
ok value >>= next = next value

infixl 5 ◌>>◌
abbrev pub ◌>>◌ {ℓ} : {B : Type ℓ} → Result (Unit {0}) → Result B → Result B
err cause >> next = err cause
ok done >> next = next

abbrev pub attempt : Fault → String → Result (Unit {0})
attempt none context = ok tt
attempt (some cause) context = err (errorf context cause)

abbrev pub with_context {ℓ} : {A : Type ℓ} → String → Result A → Result A
with_context context (ok a) = ok a
with_context context (err e) = err (errorf context e)

pub Result-cases {ℓ} :
    {A : Type ℓ} (r : Result A) → ((a : A) × (r ≡ ok a)) ⊎ ((e : String) × (r ≡ err e))
Result-cases (ok a) = inl (a, refl)
Result-cases (err e) = inr (e, refl)

pub ok_injective : {A : Type 0} {a b : A} → ok a ≡ ok b → a ≡ b
ok_injective h = cc

err≢ok : {A : Type 0} {e : String} {a : A} → err e ≢ ok a
err≢ok h = cc

-- The two halves of a chain that succeeded.
pub bind_ok :
    {A B : Type 0} (m : Result A) (f : A → Result B) (b : B)
    → (m >>= f) ≡ ok b
    → (a : A) × (m ≡ ok a) × (f a ≡ ok b)
bind_ok (ok a) f b h = (a, refl, h)
bind_ok (err e) f b h = absurd (err≢ok h)
