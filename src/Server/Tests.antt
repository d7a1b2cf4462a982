-- ===== src/Server/Tests.antt =====
-- Runs of the hub and of StreamFrom, and the theorems about them at concrete inputs.
use labeler_relay.Prelude.{
  ℕ, suc, All, ◌≡◌, refl, false, none, some, List, [], ◌∷◌, ◌++◌, map, arith, pos, if◌then◌else◌,
}
use labeler_relay.Store.Events.{
  LiveEvent, to_live, ingest_tx, insert_placeholder, encode_frame, update_frame,
}
use labeler_relay.Store.Events.Order.{IsWellFormed, no_faults}
use labeler_relay.Store.Samples.{plain_encoders, row, three_rows, labels_event}
use labeler_relay.Server.Channel.{make}
use labeler_relay.Prelude.{String, true, past, Result, ok, err, str_eq, ℤ}
use labeler_relay.Server.Subscribe.{StartFaults, kind_to_msg_type, resolve_since}
use labeler_relay.Server.Subscribe.Wire.{Connection, handle_subscribe_labelers, start_of}
use labeler_relay.Server.Subscribe.Wire.Consumer.{Writable}
use labeler_relay.Server.Subscribe.Wire.EndToEnd.{Reading, handle_subscribe_labelers-Reading}
use labeler_relay.Cbor.Sample.{sample}
use labeler_relay.Server.Subscribe.Resume.{resolve_since-joins}
use labeler_relay.Store.Playback.{cursor_status}
use labeler_relay.Server.Hub.{Hub, new_hub, broadcast, member}
use labeler_relay.Server.Hub.Broadcast.{IsConsistent, offered, broadcast_lem}
use labeler_relay.Server.Hub.Calls.{broadcasts, subscribes, cancels, hub_calls, hub_never_panics}
use labeler_relay.Server.Seam.{
  System, ReaderEnv, stream_from, start_chunk, begin_loop, read_row, tail_step,
}
use labeler_relay.Server.Seam.Schedule
use labeler_relay.Server.Seam.Schedule.{
  Move, reads, commits, drainer_stops, drains, step, run, commit_step, SparesUnread,
}
use labeler_relay.Server.Seam.Invariant.{beyond}
use labeler_relay.Server.Seam.Delivery.{
  Aligned, after, stream_from-sends_prefix, stream_from-sends_all,
}

abbrev event : ℕ → LiveEvent
event n = to_live (row n 0)

abbrev two_subscribers : Hub
two_subscribers = record {
  subs = 1 ∷ 0 ∷ [];
  next = 2;
  chans = λ id.
      if member id (1 ∷ [])
      then record { buffer = event 1 ∷ []; cap = 1; closed = false }
      else make 2;
}

two_subscribers-IsConsistent : IsConsistent two_subscribers
two_subscribers-IsConsistent = record {
  numbered = omega arith;
  distinct = (refl, (refl, tt));
  opened = (refl, (refl, tt));
}

broadcast_lem_example :
    broadcast (event 2) two_subscribers ≡ some (offered (event 2) (1 ∷ 0 ∷ []) two_subscribers)
broadcast_lem_example = broadcast_lem (event 2) two_subscribers two_subscribers-IsConsistent

-- The full subscriber is dropped, the other one stays.
broadcast_drops : (offered (event 2) (1 ∷ 0 ∷ []) two_subscribers).subs ≡ 0 ∷ []
broadcast_drops = refl

hub_never_panics_example :
    (h : Hub) × (hub_calls
        (subscribes 1 ∷ broadcasts (event 1) ∷ broadcasts (event 2) ∷ cancels 0 ∷ [])
        new_hub
      ≡ some h)
    × IsConsistent h
hub_never_panics_example =
    hub_never_panics (subscribes 1 ∷ broadcasts (event 1) ∷ broadcasts (event 2) ∷ cancels 0 ∷ [])

abbrev calm : ReaderEnv
calm = record { head_query = none; query = none; scan = none; takes_done = false }

abbrev next : Move ℕ ℕ
next = reads calm

-- The backlog from 2 on in chunks of two, an event that is committed while the chunk is read, and
-- one that comes in the live phase.
abbrev schedule : List (Move ℕ ℕ)
schedule =
    next
    ∷ next
    ∷ next
    ∷ commits no_faults (pos 40) labels_event
    ∷ next
    ∷ next
    ∷ next
    ∷ next
    ∷ Schedule.broadcasts
    ∷ drains
    ∷ next
    ∷ next
    ∷ next
    ∷ drainer_stops
    ∷ next
    ∷ next
    ∷ next
    ∷ commits no_faults (pos 50) labels_event
    ∷ Schedule.broadcasts
    ∷ next
    ∷ next
    ∷ []

abbrev end : System
end = after plain_encoders 1 (pos 2) three_rows none schedule

end_out : map (λ e. e.relay_seq) end.out ≡ 3 ∷ 5 ∷ 6 ∷ 7 ∷ []
unfolding run step stream_from ingest_tx insert_placeholder encode_frame update_frame begin_loop
    read_row start_chunk tail_step
end_out = refl

three_rows-IsWellFormed : IsWellFormed three_rows
three_rows-IsWellFormed = omega arith

three_rows-Aligned : Aligned three_rows none
three_rows-Aligned = (map to_live three_rows.rows, refl)

stream_from-sends_prefix_example :
    (rest : List LiveEvent) × (end.out ++ rest ≡ beyond (pos 2) end.history)
unfolding run step stream_from ingest_tx insert_placeholder encode_frame update_frame
stream_from-sends_prefix_example =
    stream_from-sends_prefix plain_encoders 1 (pos 2) three_rows none schedule
      three_rows-IsWellFormed three_rows-Aligned refl tt refl

stream_from-sends_all_example : end.out ≡ beyond (pos 2) end.history
unfolding run step stream_from ingest_tx insert_placeholder encode_frame update_frame
stream_from-sends_all_example =
    stream_from-sends_all plain_encoders 1 (pos 2) three_rows none schedule three_rows-IsWellFormed
      three_rows-Aligned refl tt refl refl refl refl refl

-- The cursors are numbers in decimal; only one is read.
abbrev parse : String → Result ℤ
parse t = if str_eq t "4" then ok (pos 4) else err "invalid syntax"

abbrev start : StartFaults
start = record {
  live_head = none;
  status_head = none;
  status_floor = none;
  resume_floor = none;
  info_body = ok (1 ∷ []);
  info_write_fails = false;
}

resume_run : (resolve_since parse start three_rows "4").1 ≡ some (pos 4)
unfolding resolve_since cursor_status
resume_run = refl

resolve_since-joins_example : past (pos 4) 6 ≡ true
unfolding resolve_since cursor_status
resolve_since-joins_example =
    resolve_since-joins parse start three_rows "4" (pos 4) (omega arith) refl

-- A request with cursor 2 whose stream is the one above.
abbrev request : Connection ℕ
request = record {
  upgrade = none;
  start = start;
  stream_fault = none;
  stream = λ since. end.out;
  write_fails = λ i. false;
  cancelled = true;
  on_connect = some (λ n. suc n);
  on_disconnect = none;
}

abbrev parse_two : String → Result ℤ
parse_two t = ok (pos 2)

request_start : resolve_since parse_two (start_of sample start) three_rows "2" ≡ ([], some (pos 2))
unfolding resolve_since cursor_status
request_start = refl

end-Writable : All (Writable sample) end.out
unfolding run step stream_from ingest_tx insert_placeholder encode_frame update_frame begin_loop
    read_row start_chunk tail_step kind_to_msg_type sample
end-Writable = (omega arith, (omega arith, (omega arith, (omega arith, tt))))

handle_subscribe_labelers-Reading_example :
    Reading sample plain_encoders 1 parse_two request "2" []
      (pos 2)
      three_rows
      three_rows
      none
      schedule
      (handle_subscribe_labelers sample parse_two request three_rows "2" 0)
unfolding run step stream_from ingest_tx insert_placeholder encode_frame update_frame
handle_subscribe_labelers-Reading_example =
    handle_subscribe_labelers-Reading sample plain_encoders 1 parse_two request "2" [] (pos 2)
      three_rows three_rows none schedule 0 three_rows-IsWellFormed (omega arith)
      three_rows-IsWellFormed three_rows-Aligned tt refl refl refl request_start refl (λ i h. refl)
      end-Writable
