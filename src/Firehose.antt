-- ===== src/Firehose.antt =====
-- internal/firehose/watcher.go: a commit of the firehose, from its labeler operations to the cursor. DID
-- resolution and the outcomes of the database's calls are arguments.
pub mod Resolve
pub mod Extract
pub mod Dial
pub mod Redial
pub mod Stays
mod Tests
unfoldable pub use Extract.*
use labeler_relay.Prelude.{
  ℕ, zero, suc, ◌+◌, String, Bool, true, false, not, ◌&&◌, ◌||◌, Option, none, some, List, [], ◌∷◌,
  ◌++◌, ltb, if◌then◌else◌, ℤ, pos, negsuc, Result, ok, err, ◌>>=◌, Fault, errorf, str_eq, any,
  with_context,
}
use labeler_relay.Store.Events.{Encoders, IngestFaults, IngestEvent, LabelPersist, persist_ingest}
use labeler_relay.Store.Registry.{Labeler, Registry, upsert, record_error}
use labeler_relay.Store.Meta.{Meta, set_meta}

-- What the registry, the log and the slurper have after an operation.
pub record Relay (W : Type 0) : Type 0 where
  pub registry : Registry
  pub persist : LabelPersist W
  pub world : W
  pub pokes : ℕ

pub data Resolved : Type 0 where
  endpoint : String → Resolved
  no_labeler_endpoint : Resolved
  failed : String → Resolved

pub record OpEnv : Type 0 where
  pub resolved : Resolved
  pub record_fault : Fault
  pub upsert_fault : Fault
  pub ingest : IngestFaults
  pub now_seconds : ℤ
  pub now_millis : ℤ

abbrev pub discovered : String → String → Bool → ℤ → Labeler
discovered did ep auto_subscribe now = record {
  did = did;
  endpoint = ep;
  origin = "firehose";
  enabled = auto_subscribe;
  require_sig = none;
  last_upstream_seq = none;
  last_error = "";
  updated_at = now;
}

-- A result that is only logged.
abbrev pub or_same : {A : Type 0} → A → Result A → A
or_same a (ok b) = b
or_same a (err e) = a

abbrev pub note_error : OpEnv → String → String → Registry → Registry
note_error env did text db = or_same db (record_error env.record_fault did text env.now_seconds db)

abbrev pub service_event :
    {Label Service : Type 0} → LabelerServiceOp Service → IngestEvent Label Service
service_event op = record {
  kind = "service";
  labeler_did = op.repo_did;
  upstream_seq = none;
  labels = [];
  op = op.action;
  service = op.service;
}

-- After PersistIngest: a poke if it succeeded.
abbrev pub poke_if : {W : Type 0} → Registry → ℕ → Result ℕ × LabelPersist W × W → Relay W
poke_if db pokes (err e, p, w) = record { registry = db; persist = p; world = w; pokes = pokes }
poke_if db pokes (ok seq, p, w) = record {
  registry = db;
  persist = p;
  world = w;
  pokes = suc pokes;
}

module _ {W Label Service : Type 0} (enc : Encoders Label Service) (auto_subscribe : Bool) where
  abbrev pub after_discovery :
      OpEnv → LabelerServiceOp Service → Relay W → Result Registry → Relay W
  after_discovery env op r (err e) = r
  after_discovery env op r (ok db) =
      poke_if db r.pokes
        (persist_ingest enc env.ingest env.now_millis (service_event op) r.persist r.world)

  abbrev pub after_resolve : OpEnv → LabelerServiceOp Service → Resolved → Relay W → Relay W
  after_resolve env op no_labeler_endpoint r = record r {
    registry = note_error env op.repo_did "no atproto_labeler service endpoint" r.registry;
  }
  after_resolve env op (failed text) r = record r {
    registry = note_error env op.repo_did text r.registry;
  }
  after_resolve env op (endpoint ep) r = after_discovery env op r (
      upsert env.upsert_fault (discovered op.repo_did ep auto_subscribe env.now_seconds) r.registry)

  unfoldable pub handle_op : OpEnv → LabelerServiceOp Service → Relay W → Relay W
  handle_op env op r = if writes_record op.action then after_resolve env op env.resolved r else r

  unfoldable pub handle_ops : (ℕ → OpEnv) → ℕ → List (LabelerServiceOp Service) → Relay W → Relay W
  unfolding handle_op
  handle_ops envs i [] r = r
  handle_ops envs i (op ∷ ops) r = handle_ops envs (suc i) ops (handle_op (envs i) op r)

-- The batching of the cursor, with the table that it is written to.
pub record Batch : Type 0 where
  pub pending_seq : Option ℤ
  pub commit_count : ℕ
  pub meta : Meta

-- The thresholds, of which zero and less mean the default; the interval is in nanoseconds.
abbrev pub or_default : ℕ → ℤ → ℕ
or_default fallback (ℤ.pos zero) = fallback
or_default fallback (ℤ.pos (suc n)) = suc n
or_default fallback (ℤ.negsuc n) = fallback

abbrev pub cursor_key : String
cursor_key = "firehose_cursor"

-- maybeFlushCursor, given the time since the last flush. `sprint` is fmt.Sprint.
unfoldable pub maybe_flush_cursor : (ℤ → String) → ℤ → ℤ → Fault → ℕ → ℤ → Batch → Batch
unfolding set_meta
maybe_flush_cursor sprint every interval fault elapsed seq b =
    let staged : Batch = record b { pending_seq = some seq; commit_count = suc b.commit_count } in
    if ltb (suc b.commit_count) (or_default 100 every)
      && ltb elapsed (or_default 5000000000 interval)
    then staged
    else elim (set_meta fault cursor_key (sprint seq) b.meta) [
      | err e ↦ staged
      | ok meta ↦ record { pending_seq = none; commit_count = 0; meta = meta }
    ]

-- handleCommit. An archive that cannot be read leaves even the cursor.
unfoldable pub handle_commit :
    {W Label Service : Type 0}
    → Encoders Label Service
    → Bool
    → (ℤ → String)
    → (ℕ → OpEnv)
    → ℤ
    → ℤ
    → Fault
    → ℕ
    → ℤ
    → Result (List (LabelerServiceOp Service))
    → Relay W
    → Batch
    → Relay W × Batch
unfolding handle_ops maybe_flush_cursor
handle_commit enc auto_subscribe sprint envs every interval fault elapsed seq (err e) r b = (r, b)
handle_commit enc auto_subscribe sprint envs every interval fault elapsed seq (ok ops) r b = (
  handle_ops enc auto_subscribe envs 0 ops r,
  maybe_flush_cursor sprint every interval fault elapsed seq b,
)
