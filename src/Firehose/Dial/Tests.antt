-- ===== src/Firehose/Dial/Tests.antt =====
-- A session of the firehose and the dial after it.
use Prim.Native.String
use labeler_relay.Prelude.{
  ℕ, false, ◌≡◌, refl, String, none, some, true, List, [], ◌∷◌, ℤ, pos, negsuc, Result, ok, err,
  ◌>>=◌, with_context, if◌then◌else◌, ◌==◌,
}
use labeler_relay.Store.Meta.{get_meta, find_meta}
use labeler_relay.Store.Events.Order.{no_faults}
use labeler_relay.Store.Samples.{plain_encoders, two_labelers, World, recorder}
use labeler_relay.Upstream.{Urls, run}
use labeler_relay.Firehose.Redial.{Session, redial, run_watcher}
use labeler_relay.Firehose.Redial.Progress.{run_watcher-cursor}
use labeler_relay.Firehose.{LabelerServiceOp, Relay, Batch, OpEnv, no_labeler_endpoint, cursor_key}
use labeler_relay.Firehose.Dial.{
  Commit, StreamEvent, repo_commit, error_frame, Watcher, DialFaults, dial_url, dial, with_cursor,
}
use labeler_relay.Firehose.Dial.Resume.{reached, dial-resumes}

abbrev digit : ℤ → String
digit (pos n) = if n == 8 then "8" else "9"
digit (negsuc n) = "-"

-- URLs that are texts, to which a cursor is appended.
abbrev plain_urls : Urls String
plain_urls = record {
  parse = λ s. ok s;
  scheme = λ u. "wss";
  with_scheme = λ s u. u;
  set_cursor = λ cursor u. String.◌++◌ u (String.◌++◌ "?cursor=" cursor);
  render = λ u. u;
}

abbrev watcher : Watcher ℕ ℕ String
watcher = record {
  encoders = plain_encoders;
  urls = plain_urls;
  sprint = digit;
  url = "wss://relay.example";
  auto_subscribe = true;
  cursor_flush_every = pos 0;
  cursor_flush_interval = pos 0;
}

abbrev env : OpEnv
env = record {
  resolved = no_labeler_endpoint;
  record_fault = none;
  upsert_fault = none;
  ingest = no_faults;
  now_seconds = pos 30;
  now_millis = pos 30000;
}

abbrev commit : ℤ → Result (List (LabelerServiceOp ℕ)) → Commit ℕ
commit seq ops = record { seq = seq; ops = ops; envs = λ i. env; flush_fault = none; elapsed = 10 }

-- The second archive cannot be read.
abbrev events : List (StreamEvent ℕ)
events =
    repo_commit (commit (pos 8) (ok []))
    ∷ error_frame
    ∷ repo_commit (commit (pos 9) (err "bad CAR"))
    ∷ []

abbrev relay : Relay World
relay = record { registry = two_labelers; persist = recorder; world = ([], []); pokes = 0 }

abbrev before : Batch
before = record { pending_seq = none; commit_count = 0; meta = ("firehose_cursor", "3") ∷ [] }

abbrev calm : DialFaults
calm = record { read_meta = none; connect = none; exit_flush = none; stream = some "EOF" }

url_run : dial_url watcher none before.meta ≡ ok "wss://relay.example?cursor=3"
unfolding dial_url get_meta find_meta
url_run = refl

dial-resumes_example :
    (get_meta none cursor_key (dial watcher calm events relay before).2.meta
      ≡ ok (reached watcher events (find_meta cursor_key before.meta)))
    × (dial_url watcher none (dial watcher calm events relay before).2.meta ≡ (
        with_context "invalid URL" (ok "wss://relay.example") >>= (λ u. ok (
          with_cursor watcher (ok (reached watcher events (find_meta cursor_key before.meta))) u))))
dial-resumes_example =
    dial-resumes watcher calm events relay before "wss://relay.example?cursor=3" url_run refl refl

abbrev one_session : List (StreamEvent ℕ) → Session ℕ
one_session es = record {
  faults = calm;
  events = es;
  done_before = false;
  connected_for = 5;
  intn = λ n. 0;
  done_asleep = false;
}

-- The second session sees only the archive that cannot be read.
abbrev sessions : List (Session ℕ)
sessions = one_session events ∷ one_session (repo_commit (commit (pos 9) (err "bad CAR")) ∷ []) ∷ []

watcher_run : (run_watcher watcher sessions relay before).1 ≡ false
unfolding run_watcher run redial dial dial_url get_meta find_meta
watcher_run = refl

before_run : get_meta none cursor_key before.meta ≡ ok (some "3")
unfolding get_meta find_meta
before_run = refl

run_watcher-cursor_example :
    get_meta none cursor_key (run_watcher watcher sessions relay before).2.1.meta ≡ ok (some "8")
run_watcher-cursor_example =
    run_watcher-cursor watcher sessions "wss://relay.example" relay before (some "3") refl
      ((refl, refl), ((refl, refl), tt)) before_run watcher_run
