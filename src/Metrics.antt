-- ===== src/Metrics.antt =====
-- internal/metrics/metrics.go: the collectors of the process, and Register. The registry and its method are
-- Prometheus's.
pub mod Registered
mod Tests
use labeler_relay.Prelude.{
  ℕ, ◌+◌, ◌≡◌, String, Bool, true, false, ◌||◌, List, [], ◌∷◌, any, if◌then◌else◌, ℤ, negsuc, pos,
  ◌-ℤ◌, Result, ok, err, str_eq,
}

pub data Collector : Type 0 where
  dropped_unsigned ingested_total connected_upstreams consumer_count head_seq : Collector
  retention_floor_gauge throttled : Collector

abbrev pub name_of : Collector → String
name_of dropped_unsigned = "labeler_relay_dropped_unsigned_total"
name_of ingested_total = "labeler_relay_ingested_total"
name_of connected_upstreams = "labeler_relay_connected_upstreams"
name_of consumer_count = "labeler_relay_consumer_count"
name_of head_seq = "labeler_relay_head_seq"
name_of retention_floor_gauge = "labeler_relay_retention_floor"
name_of throttled = "labeler_relay_throttled_total"

abbrev pub collectors : List Collector
collectors =
    dropped_unsigned ∷ ingested_total ∷ connected_upstreams ∷ consumer_count ∷ head_seq
    ∷ retention_floor_gauge ∷ throttled ∷ []

-- A Prometheus registry: what is registered, by name, and the method that adds a collector, which refuses a
-- name that is there.
pub record Prometheus (R : Type 0) : Type 0 where
  pub names : R → List String
  pub add : String → R → Result R
  pub added :
      (n : String) (r : R)
      → any (str_eq n) (names r) ≡ false
      → (r' : R) × (add n r ≡ ok r') × (names r' ≡ n ∷ names r)
  pub refused :
      (n : String) (r : R) → any (str_eq n) (names r) ≡ true → (e : String) × (add n r ≡ err e)

-- The loop of Register, with the registry as it is left.
unfoldable pub register_each :
    {R : Type 0} → Prometheus R → List Collector → R → Result (Unit {0}) × R
register_each prom [] r = (ok tt, r)
register_each prom (c ∷ cs) r = elim (prom.add (name_of c) r) [
  | err e ↦ (err e, r)
  | ok r' ↦ register_each prom cs r'
]

unfoldable pub register : {R : Type 0} → Prometheus R → R → Result (Unit {0}) × R
unfolding register_each
register prom r = register_each prom collectors r

-- The values that the callbacks of the process set; HeadSeq is with the persister's callbacks.
pub record Gauges : Type 0 where
  pub dropped : String → ℕ
  pub ingested : String → ℕ
  pub throttles : String → ℕ
  pub upstreams : ℕ
  pub consumers : ℤ
  pub floor : ℕ

-- Add to the counter of one label value.
abbrev pub add_at : String → ℕ → (String → ℕ) → String → ℕ
add_at did n counter d = if str_eq did d then counter d + n else counter d
