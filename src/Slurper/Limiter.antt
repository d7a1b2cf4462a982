-- ===== src/Slurper/Limiter.antt =====
-- internal/slurper/ratelimit.go. What the two windows answer at each poll of Wait, and when the context is
-- done, are arguments of the loop; below it they come from two limiters of the slidingwindow library, a
-- parameter.
pub mod First
use labeler_relay.Prelude.{
  ℕ, zero, suc, Bool, true, false, ◌&&◌, Option, none, some, if◌then◌else◌, Fault, ℤ,
}

-- One round of the loop. The hour window is asked only when the second window allows.
pub record Poll : Type 0 where
  pub second_allows : Bool
  pub hour_allows : Bool
  pub done_at_check : Fault
  pub done_in_sleep : Fault

-- Wait: the error if any, and how often the observer was told; `none` when the fuel runs out.
unfoldable pub wait_loop : (ℕ → Poll) → ℕ → ℕ → ℕ → Option (Fault × ℕ)
wait_loop polls zero i told = none
wait_loop polls (suc fuel) i told =
    let now = polls i in
    let rest = wait_loop polls fuel (suc i) 1 in
    if now.second_allows && now.hour_allows then some (none, told) else elim now.done_at_check [
      | some e ↦ some (some e, told)
      | none ↦ elim now.done_in_sleep [ some e ↦ some (some e, 1) | none ↦ rest ]
    ]

unfoldable pub wait : (ℕ → Poll) → ℕ → Option (Fault × ℕ)
unfolding wait_loop
wait polls fuel = wait_loop polls fuel 0 0

-- A limiter of the library: made from the length of its window in nanoseconds and its size, asked at a
-- time, and stopped.
pub record SlidingWindow (L : Type 0) : Type 0 where
  pub make_limiter : ℕ → ℤ → L
  pub allow : ℤ → L → Bool × L
  pub stop : L → L

pub record Limiter (L : Type 0) : Type 0 where
  pub per_second : L
  pub per_hour : L

module _ {L : Type 0} (lib : SlidingWindow L) where
  unfoldable pub new_limiter : ℤ → ℤ → Limiter L
  new_limiter per_sec per_hour = record {
    per_second = lib.make_limiter 1000000000 per_sec;
    per_hour = lib.make_limiter 3600000000000 per_hour;
  }

  unfoldable pub close_limiter : Limiter L → Limiter L
  close_limiter l = record { per_second = lib.stop l.per_second; per_hour = lib.stop l.per_hour }

  -- `perSecond.Allow() && perHour.Allow()`: the second is called only if the first allows.
  unfoldable pub allow_both : ℤ → Limiter L → Bool × Limiter L
  allow_both now l =
      let (second, per_second) = lib.allow now l.per_second in
      let (hour, per_hour) = lib.allow now l.per_hour in
      if second
      then (hour, record { per_second = per_second; per_hour = per_hour })
      else (false, record l { per_second = per_second })

  -- The limiters after the first polls, which happen at the times given.
  unfoldable pub after_polls : (ℕ → ℤ) → Limiter L → ℕ → Limiter L
  unfolding allow_both
  after_polls times l zero = l
  after_polls times l (suc n) = (allow_both (times n) (after_polls times l n)).1

  -- Wait on the two windows: the answers are theirs at each poll. The context's two checks are arguments.
  unfoldable pub poll_of : (ℕ → ℤ) → (ℕ → Fault) → (ℕ → Fault) → Limiter L → ℕ → Poll
  unfolding after_polls
  poll_of times at_check in_sleep l i = record {
    second_allows = (lib.allow (times i) (after_polls times l i).per_second).0;
    hour_allows = (lib.allow (times i) (after_polls times l i).per_hour).0;
    done_at_check = at_check i;
    done_in_sleep = in_sleep i;
  }

  unfoldable pub wait_limiter :
      (ℕ → ℤ) → (ℕ → Fault) → (ℕ → Fault) → Limiter L → ℕ → Option (Fault × ℕ)
  unfolding poll_of wait
  wait_limiter times at_check in_sleep l fuel = wait (poll_of times at_check in_sleep l) fuel
