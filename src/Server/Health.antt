-- ===== src/Server/Health.antt =====
-- internal/server/health.go: HandleHealth. The JSON encoder is a library's.
pub mod Reported
mod Tests
use labeler_relay.Prelude.{
  ℕ, suc, ◌+◌, Bool, Option, none, some, List, [], ◌∷◌, ltb, if◌then◌else◌, ℤ, Result, ok, err,
  ◌>>=◌, Fault, length,
}
use labeler_relay.Store.Events.{Events}
use labeler_relay.Store.Playback.{head, retention_floor}
use labeler_relay.Store.Registry.{Registry}
use labeler_relay.Store.Listing.{list}

pub record HealthResponse : Type 0 where
  pub head_seq : ℕ
  pub labeler_count : ℕ
  pub retention_floor : ℕ
  pub retention_window_seconds : ℤ

-- `none` is the answer 500, after any of the three reads failed.
abbrev pub answer : Result HealthResponse → Option HealthResponse
answer (ok r) = some r
answer (err e) = none

pub record HealthFaults : Type 0 where
  pub head_query : Fault
  pub floor_query : Fault
  pub list_query : Fault

unfoldable pub handle_health : HealthFaults → ℤ → Events → Registry → Option HealthResponse
unfolding head retention_floor list
handle_health f window db reg = answer (do
  h ← head f.head_query db
  floor ← package.labeler_relay.Store.Playback.retention_floor f.floor_query db
  labelers ← list f.list_query reg
  ok (record {
    head_seq = h;
    labeler_count = length labelers;
    retention_floor = floor;
    retention_window_seconds = window;
  }))
