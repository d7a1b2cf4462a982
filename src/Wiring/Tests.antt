-- ===== src/Wiring/Tests.antt =====
-- The wired process at a sample table and hub; how a run of it ends.
use labeler_relay.Prelude.{
  ◌≡◌, refl, String, true, false, ◌⊎◌, none, some, [], ◌∷◌, pos, ok, err, if◌then◌else◌, arith,
}
use labeler_relay.Store.Events.{to_live, persist_ingest}
use labeler_relay.Store.Events.Order.{no_faults}
use labeler_relay.Prelude.{ℕ, String, ◌==◌}
use labeler_relay.Store.Events.{
  set_broadcaster, set_head_seq_callback, new_label_persist, Bytes, ingest_tx, insert_placeholder,
  encode_frame,
}
use labeler_relay.Store.Registry.{find, modify, write_cursor}
use labeler_relay.Store.Registry.Keys.{IsKeyed}
use labeler_relay.Store.Listing.Rows.{enabled_row}
use labeler_relay.Slurper.Policy.{keep_label}
use labeler_relay.Slurper.Frames.{FrameFaults, keep_labels, handle_label_labels}
use labeler_relay.Slurper.Reconcile.{Slurper}
use labeler_relay.Server.Hub.{broadcast}
use labeler_relay.Server.Subscribe.Wire.{notify}
use labeler_relay.Admin.{Api, invalid_body, split_space}
use labeler_relay.Admin.Routes.{Request}
use labeler_relay.Wiring.{wired_slurper, wired_server, broadcast_to, set_upstreams}
use labeler_relay.Wiring.Gauged.{subscription_to, drops, Grown, handle_label_labels-Grown}
use labeler_relay.Slurper.Reconcile.{ticked, poked}
use labeler_relay.Slurper.Reconcile.Converges.{Follows, Runs}
use labeler_relay.Wiring.Control.{subscription_after, asks_disabled, serve-Runs}
use labeler_relay.Store.Registry.{Labeler}
use labeler_relay.Prelude.{Option, Result, count, not, rounded, float64}
use labeler_relay.Wiring.Routing.{route_of, subscribe_labelers}
use labeler_relay.Store.Samples.{
  labeler, two_labelers, plain_encoders, row, three_rows, labels_event,
}
use labeler_relay.Server.Channel.{make}
use labeler_relay.Server.Hub.{Hub, member}
use labeler_relay.Server.Hub.Broadcast.{IsConsistent}
use labeler_relay.Config.{Config}
use labeler_relay.Metrics.{Gauges}
use labeler_relay.Wiring.{
  Process, wired_persist, wiring, listen, close_http, slurp, run_process, wait_group,
}
use labeler_relay.Wiring.Ingest.{Relayed, wired_ingest-outcome}

-- The buffer of the first subscription is full.
abbrev full_and_empty : Hub
full_and_empty = record {
  subs = 1 ∷ 0 ∷ [];
  next = 2;
  chans = λ id.
      if member id (1 ∷ [])
      then record { buffer = to_live (row 1 0) ∷ []; cap = 1; closed = false }
      else make 2;
}

full_and_empty-IsConsistent : IsConsistent full_and_empty
full_and_empty-IsConsistent = record {
  numbered = omega arith;
  distinct = (refl, (refl, tt));
  opened = (refl, (refl, tt));
}

abbrev no_counts : Gauges
no_counts = record {
  dropped = λ did. 0;
  ingested = λ did. 0;
  throttles = λ did. 0;
  upstreams = 0;
  consumers = pos 0;
  floor = 0;
}

abbrev process : Process
process = record { hub = some full_and_empty; head_seq = 5; gauges = no_counts }

wired_ingest-outcome_example :
    ((cause : String) × ((persist_ingest plain_encoders no_faults
          (pos 40)
          labels_event
          (wired_persist three_rows)
          process).0
        ≡ err cause)
      × ((persist_ingest plain_encoders no_faults
            (pos 40)
            labels_event
            (wired_persist three_rows)
            process).1
          ≡ wired_persist three_rows)
      × ((persist_ingest plain_encoders no_faults
            (pos 40)
            labels_event
            (wired_persist three_rows)
            process).2
          ≡ process))
    ⊎ Relayed plain_encoders no_faults (pos 40) labels_event three_rows full_and_empty 5 no_counts (
        persist_ingest plain_encoders no_faults
          (pos 40)
          labels_event
          (wired_persist three_rows)
          process)
wired_ingest-outcome_example =
    wired_ingest-outcome plain_encoders no_faults (pos 40) labels_event three_rows full_and_empty 5
      no_counts (omega arith) full_and_empty-IsConsistent

abbrev settings : Config
settings = record {
  db_path = "relay.db";
  listen_addr = ":8080";
  firehose_url = "wss://relay.example";
  admin_token = "token";
  retention_window = pos 86400000000000;
  auto_subscribe_discovered = true;
  require_sig = false;
  upstream_rate_limit = record { per_sec = pos 50; per_hour = pos 5000 };
  subscriber_buf_size = pos 0;
}

seconds_run : (wiring settings).retention_seconds ≡ pos 86400
unfolding wiring
seconds_run = refl

port_taken :
    run_process
      (ok settings)
      none
      none
      (λ w. (slurp, none) ∷ (listen, some "in use") ∷ (close_http, some "late") ∷ [])
    ≡ err "http server: in use"
unfolding run_process wait_group
port_taken = refl

abbrev quiet : FrameFaults
quiet = record { wait = λ i. none; ingest = no_faults; cursor_exec = none; cursor_affected = none }

-- A frame of two labels, one of them signed, where a signature is required.
abbrev strict : Config
strict = record settings { require_sig = true }

abbrev signature : ℕ → Bytes
signature n = if n == 41 then 1 ∷ [] else []

handled_run :
    (handle_label_labels plain_encoders
      (subscription_to strict signature (labeler "did:plc:a" "manual"))
      quiet
      (pos 40)
      (pos 12)
      (40 ∷ 41 ∷ [])
      (wired_persist three_rows)
      two_labelers
      process).0
    ≡ ok tt
unfolding handle_label_labels keep_labels keep_label wired_slurper wired_persist persist_ingest
    ingest_tx insert_placeholder encode_frame write_cursor find modify broadcast_to broadcast
    set_broadcaster set_head_seq_callback new_label_persist
handled_run = refl

handle_label_labels-Grown_example :
    Grown "did:plc:a"
      (count (drops strict (labeler "did:plc:a" "manual") signature) (40 ∷ 41 ∷ []))
      (count (λ x. not (drops strict (labeler "did:plc:a" "manual") signature x)) (40 ∷ 41 ∷ []))
      no_counts
      (handle_label_labels plain_encoders
        (subscription_to strict signature (labeler "did:plc:a" "manual"))
        quiet
        (pos 40)
        (pos 12)
        (40 ∷ 41 ∷ [])
        (wired_persist three_rows)
        two_labelers
        process).3.gauges
handle_label_labels-Grown_example =
    handle_label_labels-Grown plain_encoders strict signature (labeler "did:plc:a" "manual") quiet
      (pos 40) (pos 12) (40 ∷ 41 ∷ []) three_rows two_labelers process handled_run

dropped_run : (count (drops strict (labeler "did:plc:a" "manual") signature) (40 ∷ 41 ∷ [])) ≡ 1
dropped_run = refl

-- Disabling a labeler, and the reconcile that the poke asks for.
abbrev disable_request : Request
disable_request = record {
  method = "POST";
  segments = "admin" ∷ "labelers" ∷ "did:plc:a" ∷ "disable" ∷ [];
  authorization = "Bearer token";
  add_body = none;
  patch_body = invalid_body;
}

abbrev resolves_none : String → Result String
resolves_none did = err "not found"

abbrev running : Slurper
running = record { active = two_labelers; started = two_labelers; ended = []; poked = true }

abbrev api : Api
api = record { registry = two_labelers; pokes = 0 }

registry-IsKeyed : IsKeyed two_labelers
unfolding find
registry-IsKeyed = (refl, (refl, tt))

admitted_run : split_space "Bearer token" ≡ some ("Bearer", "token")
unfolding split_space
admitted_run = refl

found_run : find "did:plc:a" two_labelers ≡ some (labeler "did:plc:a" "manual")
unfolding find
found_run = refl

-- The first tick could not read the registry.
abbrev left_by_request : String → Option Labeler
left_by_request =
    subscription_after "token" resolves_none (pos 9) disable_request api (some set_upstreams)
      ((ticked, err "locked") ∷ []) poked [] running process

serve-Runs_example :
    Runs false "https://a.example" none (left_by_request "did:plc:a")
    × ((j : String)
        → ("did:plc:a" ≡ j) ⊎ Follows (enabled_row (find j two_labelers)) (left_by_request j))
serve-Runs_example =
    serve-Runs "token" resolves_none (pos 9) disable_request api (some set_upstreams)
      ((ticked, err "locked") ∷ []) poked [] running process admitted_run registry-IsKeyed
      "did:plc:a" false "https://a.example" none
      (asks_disabled "did:plc:a" (labeler "did:plc:a" "manual") refl refl found_run) refl refl

-- A connection that is accepted and ends.
consumers_run :
    (notify
      (wired_server settings).on_disconnect
      (notify (wired_server settings).on_connect process)).gauges.consumers
    ≡ pos 0
unfolding wired_server
consumers_run = refl

paths_run : route_of ("xrpc" ∷ "community.labeler.sync.subscribeLabelers" ∷ []) ≡ subscribe_labelers
unfolding route_of
paths_run = refl

-- 2 ^ 53 + 1 and 2 ^ 53 + 3 are ties; the largest int64 becomes 2 ^ 63.
tie_down : float64 9007199254740993 ≡ 9007199254740992
unfolding float64 rounded
tie_down = refl

tie_up : float64 9007199254740995 ≡ 9007199254740996
unfolding float64 rounded
tie_up = refl

largest : float64 9223372036854775807 ≡ 9223372036854775808
unfolding float64 rounded
largest = refl
