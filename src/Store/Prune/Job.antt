-- ===== src/Store/Prune/Job.antt =====
-- internal/store/prunejob.go: the job with its settings.
use labeler_relay.Prelude.{ℕ, Option, none, some, List, ℤ}
use labeler_relay.Store.Events.{LabelPersist}
use labeler_relay.Store.Prune.{TickEnv, run_job}

-- The clock comes with each tick; `interval` is the ticker's.
pub record PruneJob (W : Type 0) : Type 0 where
  pub window : ℤ
  pub interval : ℤ
  pub on_floor_advanced : Option (ℕ → W → W)

module _ {W : Type 0} where
  unfoldable pub new_prune_job : ℤ → ℤ → PruneJob W
  new_prune_job window interval = record {
    window = window;
    interval = interval;
    on_floor_advanced = none;
  }

  unfoldable pub set_floor_callback : (ℕ → W → W) → PruneJob W → PruneJob W
  set_floor_callback fn j = record j { on_floor_advanced = some fn }

  unfoldable pub run_prune_job :
      PruneJob W → List TickEnv → LabelPersist W → W → Option (LabelPersist W × W)
  unfolding run_job
  run_prune_job j = run_job j.window j.on_floor_advanced
