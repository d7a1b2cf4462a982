-- ===== src/Upstream/Loop.antt =====
-- The sleeps of the redial loop, and how long it goes on.
use labeler_relay.Prelude.{
  ℕ, suc, ◌≤◌, ap, length, ◌≡◌, refl, Bool, true, false, List, [], ◌∷◌, if◌then◌else◌, All, arith,
  inl, inr, ◌⊎◌,
}
use labeler_relay.Slurper.Backoff.{initial_ms, max_ms, next_ms, sleep_ms}
use labeler_relay.Upstream.{DialEnd, cancelled, ended, Round, max_jitter, run}

-- A delay of the loop: none yet, or between the two bounds.
abbrev Delay : ℕ → Type 0
Delay d = (d ≡ 0) ⊎ ((initial_ms ≤ d) × (d ≤ max_ms))

abbrev pub Bounded : ℕ → Type 0
Bounded d = (initial_ms ≤ d) × (d ≤ max_ms)

next_ms-Bounded : (prev c : ℕ) → Delay prev → Bounded (next_ms prev c)
unfolding next_ms
next_ms-Bounded prev c h = ground arith

sleep_ms-Bounded : (delay jitter : ℕ) → Bounded delay → Bounded (sleep_ms delay jitter)
unfolding sleep_ms
sleep_ms-Bounded delay jitter h = ground arith

module _ {S : Type 0} where
  -- The sleeps are bounded, and there is one for each of `n` rounds unless the loop has returned.
  abbrev pub Paced : ℕ → List ℕ × Bool × S → Type 0
  Paced n out = All Bounded out.0 × (out.1 ≡ false → length out.0 ≡ n)

  abbrev after_round : Bool → DialEnd → Bool → ℕ → S → S → List ℕ × Bool × S → List ℕ × Bool × S
  after_round done end asleep sleep s after rest = if done then ([], true, s) else elim end [
    | cancelled ↦ ([], true, after)
    | ended ↦ if asleep then (sleep ∷ [], true, after) else (sleep ∷ rest.0, rest.1, rest.2)
  ]

  after_round-Paced :
      (done : Bool) (end : DialEnd) (asleep : Bool) (sleep : ℕ) (s after : S) (n : ℕ)
      (rest : List ℕ × Bool × S)
      → Bounded sleep
      → Paced n rest
      → Paced (suc n) (after_round done end asleep sleep s after rest)
  after_round-Paced true end asleep sleep s after n rest b h = (tt, λ q. cc)
  after_round-Paced false cancelled asleep sleep s after n rest b h = (tt, λ q. cc)
  after_round-Paced false ended true sleep s after n rest b h = ((b, tt), λ q. cc)
  after_round-Paced false ended false sleep s after n rest b h = ((b, h.0), λ q. ap suc (h.1 q))

  run-Paced_from :
      (backoff : ℕ) (rs : List (Round S)) (s : S)
      → Delay backoff
      → Paced (length rs) (run backoff rs s)
  unfolding run
  run-Paced_from backoff [] s h = (tt, λ q. refl)
  run-Paced_from backoff (r ∷ rs) s h =
      let delay = next_ms backoff r.connected_for in
      let b = next_ms-Bounded backoff r.connected_for h in
      let rest = run-Paced_from delay rs (r.dial s).1 (inr b) in
      after_round-Paced r.done_before (r.dial s).0 r.done_asleep
        (sleep_ms delay (r.intn (max_jitter delay))) s (r.dial s).1 (length rs)
        (run delay rs (r.dial s).1) (sleep_ms-Bounded delay (r.intn (max_jitter delay)) b) rest

  -- However the dials end and whatever the jitter draws, each sleep of the redial loop takes from 100 ms
  -- to 30 s, and the loop sleeps once for each dial unless its context ends.
  pub run-Paced : (rs : List (Round S)) (s : S) → Paced (length rs) (run 0 rs s)
  run-Paced rs s = run-Paced_from 0 rs s (inl refl)

-- The state after every round.
abbrev pub states : {S : Type 0} → List (Round S) → S → S
states [] s = s
states (r ∷ rs) s = states rs (r.dial s).1

after_round-state :
    {S : Type 0} (done : Bool) (end : DialEnd) (asleep : Bool) (sleep : ℕ) (s after t : S)
    (rest : List ℕ × Bool × S)
    → (after_round done end asleep sleep s after rest).1 ≡ false
    → (rest.1 ≡ false → rest.2 ≡ t)
    → (after_round done end asleep sleep s after rest).2 ≡ t
after_round-state true end asleep sleep s after t rest q h = cc
after_round-state false cancelled asleep sleep s after t rest q h = cc
after_round-state false ended true sleep s after t rest q h = cc
after_round-state false ended false sleep s after t rest q h = h q

-- A loop that has not returned has gone through each of its rounds.
pub run-states :
    {S : Type 0} (backoff : ℕ) (rs : List (Round S)) (s : S)
    → (run backoff rs s).1 ≡ false
    → (run backoff rs s).2 ≡ states rs s
unfolding run
run-states backoff [] s q = refl
run-states backoff (r ∷ rs) s q =
    let delay = next_ms backoff r.connected_for in
    after_round-state r.done_before (r.dial s).0 r.done_asleep
      (sleep_ms delay (r.intn (max_jitter delay))) s (r.dial s).1 (states rs (r.dial s).1)
      (run delay rs (r.dial s).1) q (run-states delay rs (r.dial s).1)
