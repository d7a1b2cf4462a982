-- ===== src/Firehose/Stays.antt =====
-- What a commit cannot change, and what the batching of its cursor keeps.
use labeler_relay.Prelude.{
  ℕ, suc, arith, ◌≡◌, refl, sym, ap, ◌∙◌, subst, ◌⊎◌, inl, inr, String, Bool, Option, none, some,
  List, [], ◌∷◌, ℤ, Result, ok, err, Fault, str_eq, eq_iff, if◌then◌else◌, Bool-cases, Option-cases,
}
use labeler_relay.Store.Events.{Encoders, LabelPersist, persist_ingest}
use labeler_relay.Store.Registry.{Labeler, Registry, find, upsert, record_error, failed_discovery}
use labeler_relay.Store.Registry.Laws.{upserted, upsert-row, find-put, merged}
use labeler_relay.Store.Meta.{set_meta, get_meta, find_meta-put_meta}
use labeler_relay.Firehose.{
  Relay, Resolved, endpoint, no_labeler_endpoint, failed, OpEnv, LabelerServiceOp, discovered,
  note_error, after_discovery, after_resolve, handle_op, handle_ops, poke_if, service_event, Batch,
  maybe_flush_cursor, cursor_key, writes_record,
}

-- The row that was there is still there, with what an operator controls as it was.
pub record Kept (old : Labeler) (now : Option Labeler) : Type 0 where
  pub row : Labeler
  pub present : now ≡ some row
  pub same_source : row.origin ≡ old.origin
  pub same_enabled : row.enabled ≡ old.enabled
  pub same_require_sig : row.require_sig ≡ old.require_sig
  pub same_cursor : row.last_upstream_seq ≡ old.last_upstream_seq

-- An update of the row leaves those columns.
abbrev Spares : (Option Labeler → Labeler) → Type 0
Spares u =
    (r : Labeler)
    → ((u (some r)).origin ≡ r.origin)
      × ((u (some r)).enabled ≡ r.enabled)
      × ((u (some r)).require_sig ≡ r.require_sig)
      × ((u (some r)).last_upstream_seq ≡ r.last_upstream_seq)

Kept-put :
    (did j : String) (old : Labeler) (db after : Registry) (u : Option Labeler → Labeler)
    → find j after ≡ (if str_eq did j then some (u (find did db)) else find j db)
    → Spares u
    → Kept old (find j db)
    → Kept old (find j after)
Kept-put did j old db after u q f k = elim (Bool-cases (str_eq did j)) [
  | inr b ↦ record {
    row = k.row;
    present = q ∙ ap (λ c. if c then some (u (find did db)) else find j db) b ∙ k.present;
    same_source = k.same_source;
    same_enabled = k.same_enabled;
    same_require_sig = k.same_require_sig;
    same_cursor = k.same_cursor;
  }
  | inl b ↦
      let there : find did db ≡ some k.row = ap (λ d. find d db) ((eq_iff did j).0 b) ∙ k.present in
      let spared = f k.row in
      record {
        row = u (some k.row);
        present =
            q
            ∙ ap (λ c. if c then some (u (find did db)) else find j db) b
            ∙ ap (λ o. some (u o)) there;
        same_source = spared.0 ∙ k.same_source;
        same_enabled = spared.1 ∙ k.same_enabled;
        same_require_sig = spared.2 ∙ k.same_require_sig;
        same_cursor = spared.3 ∙ k.same_cursor;
      }
]

note_error-Kept :
    (env : OpEnv) (did text j : String) (old : Labeler) (db : Registry)
    → Kept old (find j db)
    → Kept old (find j (note_error env did text db))
unfolding record_error
note_error-Kept env did text j old db k = elim (Option-cases env.record_fault) [
  | inr (e, q) ↦ rw q k
  | inl q ↦ rw q (
      Kept-put did j old db _ (merged (failed_discovery did text env.now_seconds) noted)
        (find-put j (failed_discovery did text env.now_seconds) noted db (λ l. refl))
        (λ r. (refl, refl, refl, refl)) k)
]
  where
    noted : Labeler → Labeler
    noted l = record l { last_error = text; updated_at = env.now_seconds }

module _ {W Label Service : Type 0} (enc : Encoders Label Service) (auto_subscribe : Bool)
    (j : String) (old : Labeler) where
  poke_if-registry :
      (db : Registry) (n : ℕ) (o : Result ℕ × LabelPersist W × W) → (poke_if db n o).registry ≡ db
  poke_if-registry db n (err e, p, w) = refl
  poke_if-registry db n (ok seq, p, w) = refl

  after_discovery-Kept :
      (env : OpEnv) (op : LabelerServiceOp Service) (ep : String) (r : Relay W)
      (u : Result Registry)
      → upsert env.upsert_fault
          (discovered op.repo_did ep auto_subscribe env.now_seconds)
          r.registry
        ≡ u
      → Kept old (find j r.registry)
      → Kept old (find j (after_discovery enc auto_subscribe env op r u).registry)
  after_discovery-Kept env op ep r (err e) q k = k
  after_discovery-Kept env op ep r (ok db) q k =
      let new = discovered op.repo_did ep auto_subscribe env.now_seconds in
      subst (λ g. Kept old (find j g))
        (sym (
          poke_if-registry db r.pokes
            (persist_ingest enc env.ingest env.now_millis (service_event op) r.persist r.world)))
        (Kept-put op.repo_did j old r.registry db (upserted new)
          (upsert-row env.upsert_fault new r.registry db j q) (λ l. (refl, refl, refl, refl)) k)

  after_resolve-Kept :
      (env : OpEnv) (op : LabelerServiceOp Service) (v : Resolved) (r : Relay W)
      → Kept old (find j r.registry)
      → Kept old (find j (after_resolve enc auto_subscribe env op v r).registry)
  after_resolve-Kept env op (endpoint ep) r k = after_discovery-Kept env op ep r _ refl k
  after_resolve-Kept env op no_labeler_endpoint r k =
      note_error-Kept env op.repo_did "no atproto_labeler service endpoint" j old r.registry k
  after_resolve-Kept env op (failed text) r k =
      note_error-Kept env op.repo_did text j old r.registry k

  handle_op-Kept :
      (env : OpEnv) (op : LabelerServiceOp Service) (r : Relay W)
      → Kept old (find j r.registry)
      → Kept old (find j (handle_op enc auto_subscribe env op r).registry)
  unfolding handle_op
  handle_op-Kept env op r k = elim (Bool-cases (writes_record op.action)) [
    | inl b ↦ rw b (after_resolve-Kept env op env.resolved r k)
    | inr b ↦ rw b k
  ]

  -- Whatever labeler operations a commit has, deletions too, and whatever fails in handling them, a
  -- labeler that is in the registry stays there, and its source, its enabled flag, its signature
  -- policy and its cursor stay as they are.
  pub handle_ops-Kept :
      (envs : ℕ → OpEnv) (i : ℕ) (ops : List (LabelerServiceOp Service)) (r : Relay W)
      → Kept old (find j r.registry)
      → Kept old (find j (handle_ops enc auto_subscribe envs i ops r).registry)
  unfolding handle_ops
  handle_ops-Kept envs i [] r k = k
  handle_ops-Kept envs i (op ∷ ops) r k =
      handle_ops-Kept envs (suc i) ops (handle_op enc auto_subscribe (envs i) op r)
        (handle_op-Kept (envs i) op r k)

-- The cursor of a commit is never lost: afterwards it is either pending, for the next flush, the table
-- being as before, or it is what GetMeta reads, and the count starts again.
pub maybe_flush_cursor-outcome :
    (sprint : ℤ → String) (every interval : ℤ) (f : Fault) (elapsed : ℕ) (seq : ℤ) (b : Batch)
    → let after = maybe_flush_cursor sprint every interval f elapsed seq b in
      ((after.pending_seq ≡ some seq) × (after.meta ≡ b.meta))
      ⊎ ((after.pending_seq ≡ none)
          × (get_meta none cursor_key after.meta ≡ ok (some (sprint seq)))
          × (after.commit_count ≡ 0))
unfolding maybe_flush_cursor set_meta get_meta
maybe_flush_cursor-outcome sprint every interval f elapsed seq b =
    ground (arith, find_meta-put_meta cursor_key cursor_key (sprint seq) b.meta)
