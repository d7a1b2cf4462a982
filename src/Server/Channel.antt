-- ===== src/Server/Channel.antt =====
-- Go's buffered channels, as far as internal/server uses them. An operation that panics is `none`.
use labeler_relay.Prelude.{
  ◌≡◌, refl, arith, inl, inr, Bool-cases, ℕ, Bool, true, false, Option, none, some, List, [], ◌∷◌,
  ltb, if◌then◌else◌, length,
}

pub record Chan (A : Type 0) : Type 0 where
  pub buffer : List A
  pub cap : ℕ
  pub closed : Bool

-- What a receive finds: nothing yet, a value and the channel without it, or the end of a closed
-- channel, whose buffer is delivered first.
pub data Received (A : Type 0) : Type 0 where
  blocked ended : Received A
  got : A → Chan A → Received A

module _ {A : Type 0} where
  -- make(chan A, n)
  abbrev pub make : ℕ → Chan A
  make n = record { buffer = []; cap = n; closed = false }

  abbrev pub has_room : Chan A → Bool
  has_room c = ltb (length c.buffer) c.cap

  -- close(c)
  abbrev pub close : Chan A → Option (Chan A)
  close c = if c.closed then none else some (record c { closed = true })

  abbrev pub receive : Chan A → Received A
  receive c = elim c.buffer [
    | [] ↦ if c.closed then ended else blocked
    | x ∷ xs ↦ got x (record c { buffer = xs })
  ]

-- The three cases of a receive.
pub data Receipt {A : Type 0} (c : Chan A) : Type 0 where
  at_end : c.closed ≡ true → receive c ≡ ended → Receipt c
  at_wait : receive c ≡ blocked → Receipt c
  at_value :
      (x : A) (xs : List A)
      → c.buffer ≡ x ∷ xs
      → receive c ≡ got x (record c { buffer = xs })
      → Receipt c

pub receipt : {A : Type 0} (c : Chan A) → Receipt c
receipt {A} c = by_buffer c.buffer refl
  where
    by_buffer : (b : List A) → c.buffer ≡ b → Receipt c
    by_buffer (x ∷ xs) e = at_value x xs e (ground arith)
    by_buffer [] e = elim (Bool-cases c.closed) [
      | inl q ↦ at_end q (ground arith)
      | inr q ↦ at_wait (ground arith)
    ]
