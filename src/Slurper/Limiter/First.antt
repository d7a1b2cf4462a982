-- ===== src/Slurper/Limiter/First.antt =====
-- How Wait ends, by its polls.
use labeler_relay.Prelude.{
  ℕ, zero, suc, ◌+◌, ◌<◌, ◌≡◌, subst, ◌∙◌, true, false, ◌&&◌, ◌==◌, ◌⊎◌, none, some, if◌then◌else◌,
  Fault, arith,
}
use labeler_relay.Slurper.Limiter.{Poll, wait_loop, wait}

-- One of the windows refuses, and the context goes on.
pub record Refused (p : Poll) : Type 0 where
  pub blocked : (p.second_allows && p.hour_allows) ≡ false
  pub waits : p.done_at_check ≡ none
  pub slept : p.done_in_sleep ≡ none

-- The poll ends the wait with this error, or with none; `told` is how often the observer was told before it.
abbrev pub Decides : Poll → Fault → ℕ → ℕ → Type 0
Decides p none told told' = ((p.second_allows && p.hour_allows) ≡ true) × (told' ≡ told)
Decides p (some e) told told' =
    ((p.second_allows && p.hour_allows) ≡ false)
    × (((p.done_at_check ≡ some e) × (told' ≡ told))
        ⊎ ((p.done_at_check ≡ none) × (p.done_in_sleep ≡ some e) × (told' ≡ 1)))

wait_loop-Refused :
    (polls : ℕ → Poll) (fuel i told : ℕ)
    → Refused (polls i)
    → wait_loop polls (suc fuel) i told ≡ wait_loop polls fuel (suc i) 1
unfolding wait_loop
wait_loop-Refused polls fuel i told r = ground (arith, r.blocked, r.waits, r.slept)

wait_loop-decided :
    (polls : ℕ → Poll) (fuel i told : ℕ) (e : Fault) (told' : ℕ)
    → Decides (polls i) e told told'
    → wait_loop polls (suc fuel) i told ≡ some (e, told')
unfolding wait_loop
wait_loop-decided polls fuel i told none told' d = ground (arith, d)
wait_loop-decided polls fuel i told (some e) told' d = ground (arith, d)

wait_loop-first :
    (polls : ℕ → Poll) (k fuel i told : ℕ) (e : Fault) (told' : ℕ)
    → k < fuel
    → ((j : ℕ) → j < k → Refused (polls (i + j)))
    → Decides (polls (i + k)) e (if k == 0 then told else 1) told'
    → wait_loop polls fuel i told ≡ some (e, told')
wait_loop-first polls k zero i told e told' l r d = absurd (omega (arith, l))
wait_loop-first polls zero (suc fuel) i told e told' l r d =
    wait_loop-decided polls fuel i told e told'
      (subst (λ j. Decides (polls j) e told told') (omega arith) d)
wait_loop-first polls (suc k) (suc fuel) i told e told' l r d =
    wait_loop-Refused polls fuel i told
      (subst (λ j. Refused (polls j)) (omega arith) (r 0 (omega arith)))
    ∙ wait_loop-first polls k fuel (suc i) 1 e told' (omega (arith, l))
        (λ j h. subst (λ j. Refused (polls j)) (omega arith) (r (suc j) (omega (arith, h))))
        (subst (λ t. Decides (polls (suc i + k)) e t told') (once k 1)
          (subst (λ j. Decides (polls j) e 1 told') (omega arith)
            (subst (λ t. Decides (polls (i + suc k)) e t told') (again k told) d)))
  where
    once : (k n : ℕ) → n ≡ (if k == 0 then n else n)
    once k n = ground arith

    again : (k n : ℕ) → (if suc k == 0 then n else 1) ≡ 1
    again k n = ground arith

-- When the first k polls are refused by a window while the context goes on, and the poll after them lets
-- the label through or finds the context ended, Wait returns after that poll, without an error or with the
-- context's; the observer of throttling was told once if the label had to wait, and not at all if the
-- first poll let it through.
pub wait-first :
    (polls : ℕ → Poll) (k fuel : ℕ) (e : Fault) (told : ℕ)
    → k < fuel
    → ((j : ℕ) → j < k → Refused (polls j))
    → Decides (polls k) e (if k == 0 then 0 else 1) told
    → wait polls fuel ≡ some (e, told)
unfolding wait
wait-first polls k fuel e told l r d =
    wait_loop-first polls k fuel 0 0 e told l
      (λ j h. subst (λ j. Refused (polls j)) (omega arith) (r j h))
      (subst (λ j. Decides (polls j) e (if k == 0 then 0 else 1) told) (omega arith) d)
