-- ===== src/Store/Log/Tests.antt =====
-- Runs of the log, and what a consumer reads after one.
use labeler_relay.Prelude.{ℕ, ◌≡◌, refl, true, none, List, [], ◌∷◌, pos, arith}
use labeler_relay.Store.Events.{encode_frame, ingest_tx, insert_placeholder, persist_ingest}
use labeler_relay.Store.Events.Order.{IsWellFormed, no_faults}
use labeler_relay.Store.Prune.{prune_batch}
use labeler_relay.Store.Playback.{playback_frames}
use labeler_relay.Store.Playback.Exact.{collect, no_scan_fault}
use labeler_relay.Store.Samples.{plain_encoders, three_rows, labels_event, odd_event, recorder}
use labeler_relay.Store.Log.{Steps, log_of, Command, ingest, delete_batch, exec, exec_all}
use labeler_relay.Store.Log.History.{History}
use labeler_relay.Store.Log.Refines.{exec_all-Steps}
use labeler_relay.Store.Log.Readers.{playback_frames-exec_all}

-- Two of the three rows expire around an ingest; another event is refused.
abbrev commands : List (Command ℕ ℕ)
commands =
    delete_batch (λ table seq. true) (pos 15)
    ∷ ingest no_faults (pos 40) labels_event
    ∷ ingest no_faults (pos 41) odd_event
    ∷ delete_batch (λ table seq. true) (pos 25)
    ∷ []

three_rows-IsWellFormed : IsWellFormed three_rows
three_rows-IsWellFormed = omega arith

exec_run : (exec_all plain_encoders commands recorder ([], [])).0.store.last_seq ≡ 6
unfolding exec_all exec persist_ingest ingest_tx insert_placeholder encode_frame prune_batch
exec_run = refl

exec_all-Steps_example :
    IsWellFormed (exec_all plain_encoders commands recorder ([], [])).0.store
    × Steps
        (log_of three_rows)
        (log_of (exec_all plain_encoders commands recorder ([], [])).0.store)
exec_all-Steps_example =
    exec_all-Steps plain_encoders commands recorder ([], []) three_rows-IsWellFormed

playback_frames-exec_all_example :
    (h : History
      (log_of three_rows)
      (log_of (exec_all plain_encoders commands recorder ([], [])).0.store))
    × ((playback_frames none no_scan_fault
          (exec_all plain_encoders commands recorder ([], [])).0.store
          (pos 5)
          collect
          []).2
        ≡ h.fresh)
playback_frames-exec_all_example =
    playback_frames-exec_all plain_encoders commands recorder ([], []) three_rows-IsWellFormed
