-- ===== src/Firehose/Redial.antt =====
-- internal/firehose/watcher.go: Run, the redial loop around dial. An error is its text, by which the two
-- errors of a context that ended are told.
pub mod Progress
use labeler_relay.Prelude.{ℕ, String, Bool, ◌||◌, List, map, Result, ok, err, if◌then◌else◌, str_eq}
use labeler_relay.Upstream.{DialEnd, cancelled, ended, Round, run}
use labeler_relay.Firehose.{Relay, Batch}
use labeler_relay.Firehose.Dial.{Watcher, StreamEvent, DialFaults, dial}

-- A round of the loop, with the events of its session.
pub record Session (Service : Type 0) : Type 0 where
  pub faults : DialFaults
  pub events : List (StreamEvent Service)
  pub done_before : Bool
  pub connected_for : ℕ
  pub intn : ℕ → ℕ
  pub done_asleep : Bool

abbrev pub dial_end : Result (Unit {0}) → DialEnd
dial_end (ok done) = ended
dial_end (err e) =
    if str_eq e "context canceled" || str_eq e "context deadline exceeded" then cancelled else ended

module _ {Label Service U W : Type 0} (v : Watcher Label Service U) where
  unfoldable pub redial : Session Service → Relay W × Batch → DialEnd × (Relay W × Batch)
  unfolding dial
  redial s (r, b) =
      let (result, r', b') = dial v s.faults s.events r b in (dial_end result, (r', b'))

  abbrev pub round_of : Session Service → Round (Relay W × Batch)
  round_of s = record {
    done_before = s.done_before;
    dial = redial s;
    connected_for = s.connected_for;
    intn = s.intn;
    done_asleep = s.done_asleep;
  }

  unfoldable pub run_watcher :
      List (Session Service) → Relay W → Batch → List ℕ × Bool × (Relay W × Batch)
  unfolding run redial
  run_watcher sessions r b = run 0 (map round_of sessions) (r, b)
