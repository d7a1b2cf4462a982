-- ===== src/Server/Seam/Progress/Tests.antt =====
-- A stream in the middle of its backfill, with an event committed and not yet broadcast.
use labeler_relay.Prelude.{ℕ, ◌≡◌, ◌≢◌, refl, none, List, [], ◌∷◌, map, arith, pos}
use labeler_relay.Store.Events.{to_live, ingest_tx, insert_placeholder, encode_frame, update_frame}
use labeler_relay.Store.Events.Order.{IsWellFormed, no_faults}
use labeler_relay.Store.Samples.{plain_encoders, three_rows, labels_event}
use labeler_relay.Server.Seam.{System, finished, stream_from, begin_loop, start_chunk, read_row}
use labeler_relay.Server.Seam.Schedule.{Move, reads, commits, step, run}
use labeler_relay.Server.Seam.Invariant.{beyond}
use labeler_relay.Server.Seam.Delivery.{Aligned, after}
use labeler_relay.Server.Seam.Progress.{CalmMove, calm_env, move_of}
use labeler_relay.Server.Seam.Progress.Live.{stream_from-can_send_all}

abbrev so_far : List (Move ℕ ℕ)
so_far = reads calm_env ∷ reads calm_env ∷ commits no_faults (pos 40) labels_event ∷ []

abbrev midway : System
midway = after plain_encoders 1 (pos 2) three_rows none so_far

midway_out : map (λ e. e.relay_seq) midway.out ≡ 3 ∷ []
unfolding run step stream_from ingest_tx insert_placeholder encode_frame update_frame begin_loop
    read_row start_chunk
midway_out = refl

rows-IsWellFormed : IsWellFormed three_rows
rows-IsWellFormed = omega arith

rows-Aligned : Aligned three_rows none
rows-Aligned = (map to_live three_rows.rows, refl)

not_ended : midway.phase ≢ finished
unfolding run step stream_from ingest_tx insert_placeholder encode_frame update_frame begin_loop
    read_row start_chunk
not_ended h = cc

stream_from-can_send_all_example :
    (cs : List CalmMove) × ((run plain_encoders 2 (map (move_of plain_encoders 1) cs) midway).out
      ≡ beyond (pos 2) midway.history)
unfolding run step stream_from ingest_tx insert_placeholder encode_frame update_frame begin_loop
    read_row start_chunk
stream_from-can_send_all_example =
    stream_from-can_send_all plain_encoders 1 (pos 2) three_rows none so_far rows-IsWellFormed
      rows-Aligned refl tt refl refl not_ended
