-- ===== src/Wiring.antt =====
-- cmd/labeler-relay/main.go: how the parts are built from the configuration and joined, and how the
-- process ends. Opening the database, registering metrics and the groups of goroutines are libraries'.
pub mod Control
pub mod Discovery
pub mod Ingest
pub mod Gauged
pub mod Routing
mod Tests
use labeler_relay.Prelude.{
  ℕ, ◌+◌, ◌/◌, String, Bool, Option, none, some, List, [], ◌∷◌, ℤ, pos, negsuc, ◌-ℤ◌, Result, ok,
  err, ◌>>=◌, ◌>>◌, Fault, attempt, errorf, with_context,
}
use labeler_relay.Config.{Config, RateLimit}
use labeler_relay.Metrics.{Gauges, add_at}
use labeler_relay.Slurper.Wired.{
  LabelSlurper, new_slurper, set_upstreams_callback, set_throttled_callback,
  set_drop_unsigned_callback, set_ingested_callback,
}
use labeler_relay.Server.Subscribe.Settings.{
  Server, new_server, set_connect_callback, set_disconnect_callback,
}
use labeler_relay.Store.Prune.Job.{PruneJob, new_prune_job, set_floor_callback}
use labeler_relay.Store.Events.{
  Events, LiveEvent, LabelPersist, new_label_persist, set_broadcaster, set_head_seq_callback,
}
use labeler_relay.Server.Hub.{Hub, broadcast}

-- What the callbacks reach: the hub, `none` after a panic, the gauge HeadSeq and the other metrics. A
-- gauge of float64s has the integer that its value stands for.
pub record Process : Type 0 where
  pub hub : Option Hub
  pub head_seq : ℕ
  pub gauges : Gauges

unfoldable pub broadcast_to : LiveEvent → Process → Process
broadcast_to e w = record w { hub = elim w.hub [ none ↦ none | some h ↦ broadcast e h ] }

abbrev pub set_head_gauge : ℕ → Process → Process
set_head_gauge n w = record w { head_seq = n }

unfoldable pub wired_persist : Events → LabelPersist Process
wired_persist st =
    set_broadcaster broadcast_to (set_head_seq_callback set_head_gauge (new_label_persist st))

-- cfg.RetentionWindow / time.Second
abbrev pub seconds : ℤ → ℤ
seconds (pos n) = pos (n / 1000000000)
seconds (negsuc n) = pos 0 -ℤ pos ((n + 1) / 1000000000)

-- What each part takes of the configuration.
pub record Wiring : Type 0 where
  pub sig_default : Bool
  pub limits : RateLimit
  pub firehose_url : String
  pub auto_subscribe : Bool
  pub admin_token : String
  pub retention_seconds : ℤ
  pub sub_buf_size : ℤ
  pub listen_addr : String
  pub prune_window : ℤ
  pub prune_interval : ℤ

unfoldable pub wiring : Config → Wiring
wiring cfg = record {
  sig_default = cfg.require_sig;
  limits = cfg.upstream_rate_limit;
  firehose_url = cfg.firehose_url;
  auto_subscribe = cfg.auto_subscribe_discovered;
  admin_token = cfg.admin_token;
  retention_seconds = seconds cfg.retention_window;
  sub_buf_size = cfg.subscriber_buf_size;
  listen_addr = cfg.listen_addr;
  prune_window = cfg.retention_window;
  prune_interval = pos 600000000000;
}

-- The goroutines, by what they run.
pub data Task : Type 0 where
  listen close_http slurp close_slurper watch prune_events first_reconcile : Task

-- The result of a goroutine, from an error that is neither of the two that stand for a normal end.
abbrev pub task_result : Task → Fault → Result (Unit {0})
task_result task none = ok tt
task_result listen (some e) = err (errorf "http server" e)
task_result close_http (some e) = err e
task_result slurp (some e) = err (errorf "slurper" e)
task_result close_slurper (some e) = ok tt
task_result watch (some e) = err (errorf "firehose watcher" e)
task_result prune_events (some e) = err (errorf "prune job" e)
task_result first_reconcile (some e) = ok tt

-- errgroup's Wait, over the goroutines in the order in which they end: the first error.
unfoldable pub wait_group : List (Task × Fault) → Result (Unit {0})
wait_group [] = ok tt
wait_group ((task, e) ∷ rest) = let later = wait_group rest in task_result task e >> later

-- run: the fallible steps of the start, and then the goroutines with the wiring of the configuration.
unfoldable pub run_process :
    Result Config → Fault → Fault → (Wiring → List (Task × Fault)) → Result (Unit {0})
unfolding wiring wait_group
run_process loaded open_store register tasks = do
  cfg ← with_context "failed to start" loaded
  attempt open_store "failed to open store"
  attempt register "failed to register metrics"
  wait_group (tasks (wiring cfg))

-- The callbacks that set the other metrics.
abbrev pub on_gauges : (Gauges → Gauges) → Process → Process
on_gauges f w = record w { gauges = f w.gauges }

abbrev pub set_upstreams : ℕ → Process → Process
set_upstreams n = on_gauges (λ g. record g { upstreams = n })

abbrev pub count_throttled : String → Process → Process
count_throttled did = on_gauges (λ g. record g { throttles = add_at did 1 g.throttles })

abbrev pub count_dropped : String → Process → Process
count_dropped did = on_gauges (λ g. record g { dropped = add_at did 1 g.dropped })

abbrev pub count_ingested : String × ℕ → Process → Process
count_ingested (did, n) = on_gauges (λ g. record g { ingested = add_at did n g.ingested })

abbrev pub count_connect : Process → Process
count_connect = on_gauges (λ g. record g { consumers = g.consumers -ℤ negsuc 0 })

abbrev pub count_disconnect : Process → Process
count_disconnect = on_gauges (λ g. record g { consumers = g.consumers -ℤ pos 1 })

abbrev pub set_floor : ℕ → Process → Process
set_floor n = on_gauges (λ g. record g { floor = n })

unfoldable pub wired_slurper : Config → LabelSlurper Process
unfolding new_slurper set_upstreams_callback set_throttled_callback set_drop_unsigned_callback
    set_ingested_callback
wired_slurper cfg = set_ingested_callback count_ingested (
    set_drop_unsigned_callback count_dropped (
      set_throttled_callback count_throttled (
        set_upstreams_callback set_upstreams
          (new_slurper cfg.require_sig cfg.upstream_rate_limit))))

unfoldable pub wired_server : Config → Server Process
unfolding new_server set_connect_callback set_disconnect_callback
wired_server cfg = set_disconnect_callback count_disconnect (
    set_connect_callback count_connect
      (new_server (seconds cfg.retention_window) cfg.subscriber_buf_size))

unfoldable pub wired_prune_job : Config → PruneJob Process
unfolding new_prune_job set_floor_callback
wired_prune_job cfg =
    set_floor_callback set_floor (new_prune_job cfg.retention_window (pos 600000000000))
