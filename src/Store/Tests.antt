-- ===== src/Store/Tests.antt =====
-- Runs of the events table, and the theorems about it at concrete tables.
use labeler_relay.Prelude.{
  ℕ, ◌≡◌, ◌≢◌, refl, ◌⊎◌, false, none, some, [], ◌∷◌, arith, ℤ, pos, ok, err, IsAscending,
}
use labeler_relay.Store.Events.{
  Events, encode_frame, ingest_tx, insert_placeholder, persist_ingest, to_live,
}
use labeler_relay.Store.Events.Order.{seq_of, IsWellFormed, no_faults}
use labeler_relay.Store.Events.Ingest.{
  Refused, Accepted, persist_ingest-outcome, persist_ingest-accepts,
}
use labeler_relay.Store.Playback.{
  rows_after, playback_frames, playback_frames_chunk, CursorState, cursor_ok, cursor_future,
  cursor_outdated, cursor_status, retention_floor, min_seq?, or_zero,
}
use labeler_relay.Store.Playback.Exact.{
  collect, no_scan_fault, playback_frames-exact, playback_frames-chunk,
}
use labeler_relay.Store.Playback.Cursors.{Means, cursor_status-Means}
use labeler_relay.Store.Prune.{PruneRound, prune, prune_loop, prune_batch}
use labeler_relay.Store.Prune.Exact.{IsQuiet, fresh, prune-exact}
use labeler_relay.Store.Prune.Safety.{Later, prune_loop-Later}
use labeler_relay.Store.Prune.First.{first_picked, first_picked-Limits}
use labeler_relay.Store.Samples.{
  plain_encoders, row, three_rows, labels_event, odd_event, recorder, labeler, two_labelers,
}
use labeler_relay.Store.Registry.{
  Labeler, find, put, on_conflict, upsert, write_cursor, read_cursor,
}
use labeler_relay.Store.Registry.Laws.{upserted, upsert-row, write_cursor-read_cursor}

three_rows-IsWellFormed : IsWellFormed three_rows
three_rows-IsWellFormed = omega arith

persist_run :
    (persist_ingest plain_encoders no_faults (pos 40) labels_event recorder ([], [])).0 ≡ ok 6
unfolding persist_ingest ingest_tx insert_placeholder encode_frame
persist_run = refl

persist_unknown :
    (persist_ingest plain_encoders no_faults (pos 40) odd_event recorder ([], [])).0
    ≡ err "unknown event kind: odd"
unfolding persist_ingest ingest_tx insert_placeholder encode_frame
persist_unknown = refl

persist_ingest-outcome_example :
    Refused plain_encoders recorder
      ([], [])
      (persist_ingest plain_encoders no_faults (pos 40) labels_event recorder ([], []))
    ⊎ Accepted plain_encoders
        (pos 40)
        labels_event
        recorder
        ([], [])
        (persist_ingest plain_encoders no_faults (pos 40) labels_event recorder ([], []))
persist_ingest-outcome_example =
    persist_ingest-outcome plain_encoders no_faults (pos 40) labels_event recorder ([], [])
      three_rows-IsWellFormed

persist_ingest-accepts_example :
    (persist_ingest plain_encoders no_faults (pos 40) labels_event recorder ([], [])).0 ≡ ok 6
unfolding encode_frame
persist_ingest-accepts_example =
    persist_ingest-accepts plain_encoders (pos 40) labels_event recorder ([], []) (6 ∷ 41 ∷ 42 ∷ [])
      (omega arith) refl three_rows-IsWellFormed

playback_frames-exact_example :
    (playback_frames none no_scan_fault three_rows (pos 2) collect []
      ≡ (2, none, to_live (row 3 20) ∷ to_live (row 5 30) ∷ []))
    × IsAscending seq_of (rows_after (pos 2) three_rows.rows)
playback_frames-exact_example = playback_frames-exact three_rows (pos 2) [] three_rows-IsWellFormed

playback_frames-chunk_example :
    (playback_frames none no_scan_fault three_rows
      (pos 2)
      collect
      (playback_frames_chunk none no_scan_fault three_rows (pos 0) 1 collect []).2).2
    ≡ (playback_frames none no_scan_fault three_rows (pos 0) collect []).2
playback_frames-chunk_example =
    playback_frames-chunk three_rows (pos 0) 1 [] three_rows-IsWellFormed

cursor_run :
    (cursor_status none none three_rows (pos 6) ≡ ok cursor_future)
    × (cursor_status none none three_rows (pos 0) ≡ ok cursor_outdated)
    × (cursor_status none none three_rows (pos 1) ≡ ok cursor_ok)
unfolding cursor_status
cursor_run = (refl, refl, refl)

cursor_status-Means_example :
    (s : CursorState) × (cursor_status none none three_rows (pos 1) ≡ ok s)
    × Means (pos 1) three_rows.rows s
cursor_status-Means_example = cursor_status-Means three_rows (pos 1) three_rows-IsWellFormed

-- With a limit of 1 that is the oldest number alone.
abbrev one_round : ℤ → PruneRound
one_round cutoff = record {
  context_error = none;
  exec = none;
  rows_affected = none;
  pick = first_picked 1 cutoff;
  meanwhile = λ db. db;
}

prune_run :
    prune (λ i. one_round (pos 25)) none 1 (pos 25) 4 three_rows
    ≡ some ((2, 5, none), record { rows = row 5 30 ∷ []; last_seq = 5 })
unfolding prune prune_loop prune_batch retention_floor
prune_run = refl

one_round-IsQuiet : (i : ℕ) → IsQuiet 1 (pos 25) (one_round (pos 25))
one_round-IsQuiet i = record {
  no_cancel = refl;
  no_exec = refl;
  no_affected = refl;
  limits = first_picked-Limits 1 (pos 25);
  alone = λ db. refl;
}

prune-exact_example :
    prune (λ i. one_round (pos 25)) none 1 (pos 25) 4 three_rows
    ≡ some
        ((2, or_zero (min_seq? (fresh (pos 25) three_rows).rows), none), fresh (pos 25) three_rows)
prune-exact_example =
    prune-exact (λ i. one_round (pos 25)) (pos 25) 1 one_round-IsQuiet (omega arith) 4 three_rows
      three_rows-IsWellFormed (omega arith)

meanwhile-Later : (i : ℕ) (db : Events) → IsWellFormed db → Later db db
meanwhile-Later i db h = record { well_formed = h; counter = omega arith }

pruned : Events
pruned = record { rows = row 5 30 ∷ []; last_seq = 5 }

prune_loop-Later_example : Later three_rows pruned
unfolding pruned prune_loop prune_batch
prune_loop-Later_example =
    prune_loop-Later (λ i. one_round (pos 25)) (pos 25) 1 meanwhile-Later 4 0 0 three_rows
      three_rows-IsWellFormed 2 none pruned refl

-- The firehose finds the manual labeler again, disabled and elsewhere.
abbrev rediscovered : Labeler
rediscovered = record (labeler "did:plc:a" "firehose") {
  endpoint = "https://b.example";
  enabled = false;
}

upsert-row_example :
    find "did:plc:a"
      (put (find "did:plc:a" two_labelers) rediscovered (on_conflict rediscovered) two_labelers)
    ≡ some (upserted rediscovered (some (labeler "did:plc:a" "manual")))
unfolding find upsert
upsert-row_example =
    upsert-row none rediscovered two_labelers
      (put (find "did:plc:a" two_labelers) rediscovered (on_conflict rediscovered) two_labelers)
      "did:plc:a" refl

write_cursor-read_cursor_example :
    (find "did:plc:a" two_labelers ≢ none)
    × (read_cursor none "did:plc:a" ((write_cursor none none "did:plc:a" (pos 9) two_labelers).1)
        ≡ ok (some (pos 9)))
unfolding find write_cursor
write_cursor-read_cursor_example =
    write_cursor-read_cursor none none "did:plc:a" "did:plc:a" (pos 9) two_labelers refl
