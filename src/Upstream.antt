-- ===== src/Upstream.antt =====
-- What the two websocket clients share, internal/slurper/subscription.go and
-- internal/firehose/watcher.go: the URL that is dialled, and the redial loop `run` or `Run`.
--
-- Package net/url is the parameter `Urls`. A dial acts on the state of its client, of type `S`.
pub mod Loop
use labeler_relay.Prelude.{
  ℕ, ◌+◌, ◌/◌, String, Bool, true, false, List, [], ◌∷◌, ltb, if◌then◌else◌, Result,
}
use labeler_relay.Slurper.Backoff.{next_ms, sleep_ms}

pub record Urls (U : Type 0) : Type 0 where
  pub parse : String → Result U
  pub scheme : U → String
  pub with_scheme : String → U → U
  pub set_cursor : String → U → U  -- Query, Set of "cursor", Encode
  pub render : U → String

-- How a dial ended: by the end of the context, or otherwise, with an error or without.
pub data DialEnd : Type 0 where
  cancelled ended : DialEnd

-- A round of the loop: whether the context has ended before it, the dial with the time it took, the
-- draw of rand.Intn, and whether the context ends during the sleep.
pub record Round (S : Type 0) : Type 0 where
  pub done_before : Bool
  pub dial : S → DialEnd × S
  pub connected_for : ℕ
  pub intn : ℕ → ℕ
  pub done_asleep : Bool

-- A tenth of the delay, and at least one.
abbrev pub max_jitter : ℕ → ℕ
max_jitter delay = if ltb (delay / 10) 1 then 1 else delay / 10

module _ {S : Type 0} where
  -- The sleeps, whether the loop has returned, and the state.
  unfoldable pub run : ℕ → List (Round S) → S → List ℕ × Bool × S
  unfolding next_ms sleep_ms
  run backoff_ms [] s = ([], false, s)
  run backoff_ms (r ∷ rs) s =
      let (end, after) = r.dial s in
      let delay = next_ms backoff_ms r.connected_for in
      let sleep = sleep_ms delay (r.intn (max_jitter delay)) in
      let (sleeps, returned, last) = run delay rs after in
      if r.done_before then ([], true, s) else elim end [
        | cancelled ↦ ([], true, after)
        | ended ↦
            if r.done_asleep then (sleep ∷ [], true, after) else (sleep ∷ sleeps, returned, last)
      ]
