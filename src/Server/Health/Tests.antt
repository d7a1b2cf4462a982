-- ===== src/Server/Health/Tests.antt =====
-- The health endpoint over sample tables.
use labeler_relay.Prelude.{◌≡◌, refl, some, pos}
use labeler_relay.Store.Samples.{three_rows, two_labelers}
use labeler_relay.Store.Playback
use labeler_relay.Store.Playback.{max_seq, min_seq?}
use labeler_relay.Store.Listing.{list, order_by_did, insert_by_did}
use labeler_relay.Server.Health.{handle_health}
use labeler_relay.Server.Health.Reported.{quiet}

health_run :
    handle_health quiet (pos 3600) three_rows two_labelers
    ≡ some (record {
      head_seq = 5;
      labeler_count = 2;
      retention_floor = 2;
      retention_window_seconds = pos 3600;
    })
unfolding handle_health Playback.head Playback.retention_floor max_seq min_seq? list order_by_did
    insert_by_did
health_run = refl
