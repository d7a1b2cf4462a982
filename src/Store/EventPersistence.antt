-- ===== src/Store/EventPersistence.antt =====
-- internal/store/persist.go: what LabelPersist implements of indigo's interface EventPersistence, whose events
-- and users are types of that library. Nothing of the program calls it.
use labeler_relay.Prelude.{ℕ, ℤ, Result, ok}
use labeler_relay.Store.Events.{LabelPersist}

-- The methods, as what each returns and leaves of the persister.
pub record EventPersistence (P Event : Type 0) : Type 0 where
  pub persist : Event → P → Result (Unit {0}) × P
  pub playback : ℤ → (Event → Result (Unit {0})) → P → Result (Unit {0}) × P
  pub take_down_repo : ℕ → P → Result (Unit {0}) × P
  pub flush : P → Result (Unit {0}) × P
  pub shutdown : P → Result (Unit {0}) × P
  pub set_event_broadcaster : (Event → Unit {0}) → P → P

abbrev pub label_persist_events : {W Event : Type 0} → EventPersistence (LabelPersist W) Event
label_persist_events = record {
  persist = λ e p. (ok tt, p);
  playback = λ since cb p. (ok tt, p);
  take_down_repo = λ uid p. (ok tt, p);
  flush = λ p. (ok tt, p);
  shutdown = λ p. (ok tt, p);
  set_event_broadcaster = λ fn p. p;
}
