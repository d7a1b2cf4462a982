-- ===== src/Slurper/Tests.antt =====
-- Runs of the slurper's parts, and the theorems about them at concrete inputs.
use labeler_relay.Prelude.{
  ℕ, ◌<◌, ◌≡◌, refl, true, false, none, [], ◌∷◌, length, arith, pos, ok, if◌then◌else◌, ◌==◌,
}
use labeler_relay.Store.Registry.{Labeler}
use labeler_relay.Store.Samples.{plain_encoders, recorder, labeler, two_labelers}
use labeler_relay.Slurper.Backoff.{delays, next_ms}
use labeler_relay.Store.Registry.{find}
use labeler_relay.Slurper.Reconcile.{
  Slurper, sync, restart_changed, start_missing, stop_disabled, remove, is_enabled,
}
use labeler_relay.Slurper.Reconcile.Idempotent.{sync-sync}
use labeler_relay.Slurper.Limiter.{Poll}
use labeler_relay.Slurper.Limiter.First.{Refused}
use labeler_relay.Slurper.Samples.{subscriber, quiet}
use labeler_relay.Slurper.Policy.{subscription_config_changed, keep_label}
use labeler_relay.Slurper.Frames.{handle_label_labels, keep_labels}
use labeler_relay.Slurper.Frames.CrashSafe.{Safe, kept_of, handle_label_labels-Safe}

delays_run : delays 0 (5 ∷ 7 ∷ 9 ∷ []) ≡ 400
unfolding delays next_ms
delays_run = refl

abbrev renamed : Labeler
renamed = record (labeler "did:plc:a" "manual") { updated_at = pos 5; enabled = false }

kept_run : (keep_labels subscriber (λ i. none) 0 (40 ∷ 41 ∷ []) [] ([], [])).0 ≡ ok (41 ∷ [])
unfolding keep_labels keep_label
kept_run = refl

handle_label_labels-Safe_example :
    Safe plain_encoders subscriber quiet
      (pos 40)
      (pos 12)
      recorder
      two_labelers
      (kept_of subscriber (40 ∷ 41 ∷ []))
      (handle_label_labels plain_encoders subscriber quiet
        (pos 40)
        (pos 12)
        (40 ∷ 41 ∷ [])
        recorder
        two_labelers
        ([], []))
handle_label_labels-Safe_example =
    handle_label_labels-Safe plain_encoders subscriber quiet (pos 40) (pos 12) recorder two_labelers
      (40 ∷ 41 ∷ []) ([], []) (omega arith)

-- The first labeler has moved, the second is new, and a third is not enabled any more.
abbrev running : Slurper
running = record {
  active =
      record (labeler "did:plc:a" "manual") { endpoint = "https://old.example" }
      ∷ labeler "did:plc:c" "manual"
      ∷ [];
  started = [];
  ended = [];
  poked = false;
}

sync_run : length (sync two_labelers running).ended ≡ 2
unfolding sync restart_changed start_missing stop_disabled find remove is_enabled
    subscription_config_changed
sync_run = refl

sync-sync_example : sync two_labelers (sync two_labelers running) ≡ sync two_labelers running
unfolding find
sync-sync_example = sync-sync two_labelers running (refl, (refl, tt))

-- The hour window refuses twice.
abbrev crowded : ℕ → Poll
crowded i = record {
  second_allows = true;
  hour_allows = if i == 2 then true else false;
  done_at_check = none;
  done_in_sleep = none;
}

crowded-Refused : (j : ℕ) → j < 2 → Refused (crowded j)
crowded-Refused j h = record { blocked = ground (arith, h); waits = refl; slept = refl }
