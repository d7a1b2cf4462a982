-- ===== src/Firehose/Tests.antt =====
-- Commits of the firehose, and the theorems about them at concrete ones.
use labeler_relay.Prelude.{
  ℕ, ◌+◌, ◌≡◌, refl, false, none, some, List, [], ◌∷◌, pos, negsuc, ok, ℤ, String, if◌then◌else◌,
  ◌==◌,
}
use labeler_relay.Store.Events.Order.{no_faults}
use labeler_relay.Store.Registry.{find}
use labeler_relay.Store.Samples.{plain_encoders, two_labelers, labeler, World, recorder}
use labeler_relay.Store.Meta.{set_meta, put_meta}
use labeler_relay.Firehose.{
  Relay, OpEnv, endpoint, LabelerServiceOp, RepoOp, split_slash, labeler_rkey,
  extract_labeler_service_ops, extract_ops, handle_ops, maybe_flush_cursor, Batch,
}
use labeler_relay.Firehose.Stays.{Kept, handle_ops-Kept}

-- Content identifiers, blocks and records are numbers.
abbrev commit_ops : List (RepoOp ℕ)
commit_ops =
    record { path = "app.bsky.feed.post/3k"; action = "create"; cid = some 1 }
    ∷ record { path = "app.bsky.labeler.service/self"; action = "update"; cid = some 2 }
    ∷ []

extract_run :
    extract_labeler_service_ops "did:plc:a" (ok (λ c. ok (c + 10))) (λ b. ok (b + 100)) commit_ops
    ≡ ok (
        record { repo_did = "did:plc:a"; action = "update"; rkey = "self"; service = some 112 }
        ∷ [])
unfolding extract_labeler_service_ops extract_ops labeler_rkey split_slash
extract_run = refl

abbrev moved_op : LabelerServiceOp ℕ
moved_op = record { repo_did = "did:plc:a"; action = "update"; rkey = "self"; service = some 5 }

abbrev op_env : OpEnv
op_env = record {
  resolved = endpoint "https://new.example";
  record_fault = none;
  upsert_fault = none;
  ingest = no_faults;
  now_seconds = pos 30;
  now_millis = pos 30000;
}

abbrev relay : Relay World
relay = record { registry = two_labelers; persist = recorder; world = ([], []); pokes = 0 }

handle_ops-Kept_example : Kept (labeler "did:plc:a" "manual") (
    find "did:plc:a"
      (handle_ops plain_encoders false (λ i. op_env) 0 (moved_op ∷ []) relay).registry)
unfolding find
handle_ops-Kept_example =
    handle_ops-Kept plain_encoders false "did:plc:a" (labeler "did:plc:a" "manual") (λ i. op_env) 0
      (moved_op ∷ []) relay
      (record {
        row = labeler "did:plc:a" "manual";
        present = refl;
        same_source = refl;
        same_enabled = refl;
        same_require_sig = refl;
        same_cursor = refl;
      })

-- The numbers of these tests as texts.
abbrev digit : ℤ → String
digit (pos n) = if n == 8 then "8" else "3"
digit (negsuc n) = "-"

abbrev batch : Batch
batch = record { pending_seq = none; commit_count = 1; meta = ("firehose_cursor", "3") ∷ [] }

flush_run :
    (maybe_flush_cursor digit (pos 2) (pos 0) none 10 (pos 8) batch).meta
    ≡ ("firehose_cursor", "8") ∷ []
unfolding maybe_flush_cursor set_meta put_meta
flush_run = refl

abbrev flushed : Batch
flushed = maybe_flush_cursor digit (pos 2) (pos 0) none 10 (pos 8) batch
