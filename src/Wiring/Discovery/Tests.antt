-- ===== src/Wiring/Discovery/Tests.antt =====
-- A labeler that moves on the firehose, and what the slurper then runs.
use labeler_relay.Prelude.{ℕ, refl, true, false, none, some, [], ◌∷◌, ◌++◌, pos, ok, err}
use labeler_relay.Store.Events.Order.{no_faults}
use labeler_relay.Store.Registry.{find}
use labeler_relay.Store.Registry.Keys.{IsKeyed}
use labeler_relay.Store.Listing.Rows.{enabled_row}
use labeler_relay.Store.Samples.{plain_encoders, two_labelers, World, recorder}
use labeler_relay.Slurper.Reconcile.{Slurper, ticked, poked, run_slurper}
use labeler_relay.Slurper.Reconcile.Converges.{Follows, last_read, run_slurper-Follows}
use labeler_relay.Firehose.{Relay, OpEnv, endpoint, LabelerServiceOp, handle_op}
use labeler_relay.Wiring.Discovery.{Discovered, handle_op-Discovered}

abbrev moves : LabelerServiceOp ℕ
moves = record { repo_did = "did:plc:a"; action = "update"; rkey = "self"; service = some 5 }

abbrev moves_env : OpEnv
moves_env = record {
  resolved = endpoint "https://new.example";
  record_fault = none;
  upsert_fault = none;
  ingest = no_faults;
  now_seconds = pos 30;
  now_millis = pos 30000;
}

abbrev before_move : Relay World
before_move = record { registry = two_labelers; persist = recorder; world = ([], []); pokes = 0 }

abbrev running : Slurper
running = record { active = two_labelers; started = two_labelers; ended = []; poked = true }

abbrev quiet : World
quiet = ([], [])

two_labelers-IsKeyed : IsKeyed two_labelers
unfolding find
two_labelers-IsKeyed = (refl, (refl, tt))

run_slurper-Follows_example : Follows (enabled_row (find "did:plc:a" two_labelers)) (
    find "did:plc:a"
      (run_slurper none
        (((ticked, err "locked") ∷ (poked, ok []) ∷ [])
          ++ last_read ticked two_labelers ((ticked, "locked") ∷ []))
        running
        quiet).0.active)
run_slurper-Follows_example =
    run_slurper-Follows none ticked two_labelers ((ticked, "locked") ∷ []) two_labelers-IsKeyed
      ((ticked, err "locked") ∷ (poked, ok []) ∷ []) running quiet "did:plc:a"

handle_op-Discovered_example :
    Discovered false "https://new.example" (find "did:plc:a" two_labelers) (
      find "did:plc:a"
        (run_slurper none
          (((ticked, err "locked") ∷ [])
            ++ last_read poked
                (handle_op plain_encoders false moves_env moves before_move).registry
                [])
          running
          quiet).0.active)
handle_op-Discovered_example =
    handle_op-Discovered plain_encoders false moves_env moves "https://new.example" before_move refl
      refl refl two_labelers-IsKeyed none ((ticked, err "locked") ∷ []) poked [] running quiet
