-- ===== src/Firehose/Extract.antt =====
-- internal/firehose/extract.go: the labeler operations of a commit. Its archive, the blocks and their
-- decoder are arguments.
use Prim.Native.String.{slice, len}
use text.Mathlib.Text.{find?}
use labeler_relay.Prelude.{
  ◌+◌, String, Bool, true, false, ◌||◌, Option, none, some, List, [], ◌∷◌, if◌then◌else◌, Result,
  ok, err, ◌>>=◌, errorf, str_eq, any, with_context,
}

-- An operation of a commit; `cid` is nil for a deletion.
pub record RepoOp (Cid : Type 0) : Type 0 where
  pub path : String
  pub action : String
  pub cid : Option Cid

pub record LabelerServiceOp (Service : Type 0) : Type 0 where
  pub repo_did : String
  pub action : String
  pub rkey : String
  pub service : Option Service

-- strings.SplitN(path, "/", 2), where it has two parts.
unfoldable pub split_slash : String → Option (String × String)
split_slash path = elim (find? path "/") [
  | none ↦ none
  | some i ↦ some (slice path 0 i, slice path (i + 1) (len path))
]

abbrev pub service_collection : String
service_collection = "app.bsky.labeler.service"

-- The record key of a path in the labeler collection.
unfoldable pub labeler_rkey : String → Option String
unfolding split_slash
labeler_rkey path = elim (split_slash path) [
  | none ↦ none
  | some (collection, rkey) ↦ if str_eq collection service_collection then some rkey else none
]

abbrev pub is_some : {A : Type 0} → Option A → Bool
is_some none = false
is_some (some a) = true

abbrev pub writes_record : String → Bool
writes_record action = str_eq action "create" || str_eq action "update"

module _ {Cid Block Service : Type 0} where
  abbrev pub load_record :
      (Cid → Result Block)
      → (Block → Result Service)
      → String
      → Option Cid
      → Result (Option Service)
  load_record get decode path none = err (errorf "create/update op missing CID for" path)
  load_record get decode path (some cid) = do
    block ← with_context "failed to get block" (get cid)
    service ← with_context "failed to unmarshal LabelerService" (decode block)
    ok (some service)

  -- The second loop.
  unfoldable pub extract_ops :
      String
      → (Cid → Result Block)
      → (Block → Result Service)
      → List (RepoOp Cid)
      → Result (List (LabelerServiceOp Service))
  unfolding labeler_rkey
  extract_ops repo get decode [] = ok []
  extract_ops repo get decode (op ∷ ops) =
      let rest = extract_ops repo get decode ops in
      elim (labeler_rkey op.path) [
        | none ↦ rest
        | some rkey ↦ do
          service ←
              (if writes_record op.action then load_record get decode op.path op.cid else ok none)
          others ← rest
          ok (
              record { repo_did = repo; action = op.action; rkey = rkey; service = service }
              ∷ others)
      ]

  -- ExtractLabelerServiceOps: the archive is loaded only when there is an operation to extract.
  unfoldable pub extract_labeler_service_ops :
      String
      → Result (Cid → Result Block)
      → (Block → Result Service)
      → List (RepoOp Cid)
      → Result (List (LabelerServiceOp Service))
  unfolding extract_ops labeler_rkey
  extract_labeler_service_ops repo archive decode ops =
      if any (λ op. is_some (labeler_rkey op.path)) ops
      then with_context "failed to load repo from CAR" archive
        >>= (λ get. extract_ops repo get decode ops)
      else ok []
