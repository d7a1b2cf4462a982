-- ===== src/Slurper/Backoff.antt =====
-- internal/backoff/backoff.go, and the delay of the redial loops of internal/slurper/subscription.go
-- and internal/firehose/watcher.go. `connected_for` is in nanoseconds; the draw of the jitter is an
-- argument.
use labeler_relay.Prelude.{
  ℕ, zero, suc, ◌+◌, ◌*◌, ◌^◌, ◌≤◌, ◌<◌, min, ◌≡◌, ◌∙◌, List, [], ◌∷◌, ltb, leb, ◌==◌, ◌||◌,
  if◌then◌else◌, arith, length, All, Bool-cases, inl, inr, ap, ltb→lt, ltb→le,
}

abbrev pub initial_ms : ℕ
initial_ms = 100

abbrev pub max_ms : ℕ
max_ms = 30000

abbrev pub reset_after : ℕ
reset_after = 30 * 1000000000

unfoldable pub next_ms : ℕ → ℕ → ℕ
next_ms prev connected_for =
    if prev == 0 || leb reset_after connected_for
    then initial_ms
    else if ltb max_ms (prev * 2)
    then max_ms
    else prev * 2

-- The sleep before a redial: a tenth of the delay as jitter, and the cap again.
unfoldable pub sleep_ms : ℕ → ℕ → ℕ
sleep_ms delay jitter = if ltb max_ms (delay + jitter) then max_ms else delay + jitter

-- The delay after connections that survived that long, from the delay before them.
unfoldable pub delays : ℕ → List ℕ → ℕ
unfolding next_ms
delays prev [] = prev
delays prev (c ∷ cs) = delays (next_ms prev c) cs

-- What doubling makes of a delay.
doubling : (x n : ℕ) → x * 2 ^ suc n ≡ x * 2 * 2 ^ n
doubling x n = grind arith

capped : (x n : ℕ) → max_ms ≤ x → min (x * 2 ^ n) max_ms ≡ max_ms
capped x zero h = omega arith
capped x (suc n) h = rw (doubling x n) (capped (x * 2) n (omega arith))

next_ms-double : (prev c : ℕ) → 0 < prev → c < reset_after → next_ms prev c ≡ min (prev * 2) max_ms
unfolding next_ms
next_ms-double prev c p q = ground arith

doubling_capped :
    (prev n : ℕ) → min (min (prev * 2) max_ms * 2 ^ n) max_ms ≡ min (prev * 2 ^ suc n) max_ms
doubling_capped prev n = elim (Bool-cases (ltb max_ms (prev * 2))) [
  | inl q ↦
      let over = ltb→lt max_ms (prev * 2) q in
      rw (doubling prev n, capped (prev * 2) n (omega arith))
        (ap (λ m. min (m * 2 ^ n) max_ms) (min_over (prev * 2) (omega arith))
          ∙ capped max_ms n (omega arith))
  | inr q ↦
      let under = ltb→le max_ms (prev * 2) q in
      rw (doubling prev n) (ap (λ m. min (m * 2 ^ n) max_ms) (min_under (prev * 2) under))
]
  where
    min_over : (x : ℕ) → max_ms ≤ x → min x max_ms ≡ max_ms
    min_over x h = omega arith

    min_under : (x : ℕ) → x ≤ max_ms → min x max_ms ≡ x
    min_under x h = omega arith

delays-double :
    (prev : ℕ) (cs : List ℕ)
    → 0 < prev
    → prev ≤ max_ms
    → All (λ c. c < reset_after) cs
    → delays prev cs ≡ min (prev * 2 ^ length cs) max_ms
unfolding delays
delays-double prev [] p h a = omega arith
delays-double prev (c ∷ cs) p h a = rw (next_ms-double prev c p a.0) (
    delays-double (min (prev * 2) max_ms) cs (omega arith) (omega arith) a.1
    ∙ doubling_capped prev (length cs))

-- After a first failure and connections that each ended before the reset threshold, the delay has
-- doubled with each, up to the cap: 100 ms times two to the power of their number, or 30 s.
pub delays-closed :
    (c : ℕ) (cs : List ℕ)
    → All (λ c. c < reset_after) cs
    → delays 0 (c ∷ cs) ≡ min (initial_ms * 2 ^ length cs) max_ms
unfolding delays
delays-closed c cs a = delays-double initial_ms cs (omega arith) (omega arith) a
