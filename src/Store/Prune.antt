-- ===== src/Store/Prune.antt =====
-- internal/store/persist.go: Prune, and internal/store/prunejob.go, which calls it on a ticker.
--
-- The subquery of the DELETE has a LIMIT and no ORDER BY: which of the old rows it returns is the
-- database's choice, `pick`.
pub mod Exact
pub mod Safety
pub mod First
pub mod Job
use labeler_relay.Prelude.{
  ℕ, zero, suc, ◌+◌, ◌-◌, ◌*◌, ◌/◌, ◌<◌, ◌≤◌, ◌≡◌, String, Bool, true, false, not, ◌&&◌, Option,
  none, some, List, [], ◌∷◌, ltb, if◌then◌else◌, ℤ, pos, ltb_ℤ, ◌-ℤ◌, wrap64, Result, ok, err,
  Fault, errorf, select, length, float64,
}
use labeler_relay.Store.Events.{Row, Events, LabelPersist, call}
use labeler_relay.Store.Playback.{retention_floor}

-- What happens around one round of the loop: the context, the faults of the DELETE and of
-- RowsAffected, the database's choice, and the transactions of others before the next round.
pub record PruneRound : Type 0 where
  pub context_error : Fault
  pub exec : Fault
  pub rows_affected : Fault
  pub pick : List Row → ℕ → Bool
  pub meanwhile : Events → Events

-- ingest_ts < ?
abbrev pub is_old : ℤ → Row → Bool
is_old cutoff r = ltb_ℤ r.ingest_ts cutoff

abbrev pub is_picked : (List Row → ℕ → Bool) → ℤ → List Row → Row → Bool
is_picked pick cutoff table r = is_old cutoff r && pick table r.relay_seq

-- One DELETE: the table, and the number of rows affected.
unfoldable pub prune_batch : (List Row → ℕ → Bool) → ℤ → Events → Events × ℕ
prune_batch pick cutoff db = (
  record db { rows = select (λ r. not (is_picked pick cutoff db.rows r)) db.rows },
  length (select (is_picked pick cutoff db.rows) db.rows),
)

-- `for { … }`: the count so far, the error that ended the loop if any, and the table; `none` when
-- the fuel runs out.
unfoldable pub prune_loop :
    (ℕ → PruneRound) → ℤ → ℕ → ℕ → ℕ → ℕ → Events → Option (ℕ × Fault × Events)
prune_loop rounds cutoff size zero i deleted db = none
prune_loop rounds cutoff size (suc fuel) i deleted db =
    let now = rounds i in
    elim now.context_error [
      | some e ↦ some (deleted, some e, db)
      | none ↦ elim now.exec [
        | some e ↦ some (deleted, some (errorf "failed to prune events" e), db)
        | none ↦
            let (db', affected) = prune_batch now.pick cutoff db in
            elim now.rows_affected [
              | some e ↦ some (deleted, some (errorf "failed to check rows affected" e), db')
              | none ↦ elim (ltb affected size) [
                | true ↦ some (deleted + affected, none, db')
                | false ↦
                    prune_loop rounds cutoff size fuel (suc i) (deleted + affected)
                      (now.meanwhile db')
              ]
            ]
      ]
    ]

-- The result of Prune: rows deleted, the new floor, the error.
abbrev pub PruneResult : Type 0
PruneResult = ℕ × ℕ × Fault

abbrev floor_after : ℕ → Result ℕ → PruneResult
floor_after deleted (ok floor) = (deleted, floor, none)
floor_after deleted (err e) = (deleted, 0, some e)

unfoldable pub prune : (ℕ → PruneRound) → Fault → ℕ → ℤ → ℕ → Events → Option (PruneResult × Events)
unfolding prune_loop prune_batch
prune rounds floor_query size cutoff fuel db = elim (prune_loop rounds cutoff size fuel 0 0 db) [
  | none ↦ none
  | some (deleted, e, db') ↦ elim e [
    | some m ↦ some ((deleted, 0, some m), db')
    | none ↦ some (floor_after deleted (retention_floor floor_query db'), db')
  ]
]

-- time.Duration.Milliseconds, of a duration in nanoseconds
abbrev pub milliseconds : ℤ → ℤ
milliseconds (ℤ.pos n) = pos (n / 1000000)
milliseconds (ℤ.negsuc n) = pos 0 -ℤ pos ((n + 1) / 1000000)

-- The cutoff of PruneJob.tick.
unfoldable pub cutoff_at : ℤ → ℤ → ℤ
cutoff_at now window = wrap64 (now -ℤ milliseconds window)

-- PruneJob.tick: `on_floor` is called with the floor of a pass that succeeded.
unfoldable pub tick :
    {W : Type 0}
    → (ℕ → PruneRound)
    → Fault
    → ℤ
    → ℤ
    → ℕ
    → Option (ℕ → W → W)
    → LabelPersist W
    → W
    → Option (LabelPersist W × W)
unfolding prune cutoff_at
tick rounds floor_query now window fuel on_floor p w =
    elim (prune rounds floor_query p.prune_batch_size (cutoff_at now window) fuel p.store) [
      | none ↦ none
      | some ((deleted, floor, e), db) ↦ elim e [
        | some m ↦ some (record p { store = db }, w)
        | none ↦ some (record p { store = db }, call on_floor (float64 floor) w)
      ]
    ]

-- What is around one tick: its rounds, the query of the floor, the clock.
pub record TickEnv : Type 0 where
  pub rounds : ℕ → PruneRound
  pub floor_query : Fault
  pub now : ℤ
  pub fuel : ℕ

-- PruneJob.Run over the ticks until its context ends.
unfoldable pub run_job :
    {W : Type 0}
    → ℤ
    → Option (ℕ → W → W)
    → List TickEnv
    → LabelPersist W
    → W
    → Option (LabelPersist W × W)
unfolding tick
run_job window on_floor [] p w = some (p, w)
run_job window on_floor (t ∷ ts) p w =
    elim (tick t.rounds t.floor_query t.now window t.fuel on_floor p w) [
      | none ↦ none
      | some (p', w') ↦ run_job window on_floor ts p' w'
    ]
