-- ===== src/Store/Registry.antt =====
-- internal/store/registry.go over the `labelers` table of schema.sql. Each method is one statement,
-- whose outcome is an argument. The table is the list of its rows; `did` is its primary key.
pub mod Laws
pub mod Keys
use labeler_relay.Prelude.{
  ℕ, ◌+◌, String, Bool, true, false, not, Option, none, some, List, [], ◌∷◌, ◌++◌, ltb, ◌==◌,
  if◌then◌else◌, ℤ, Result, ok, err, ◌>>=◌, ◌>>◌, Fault, attempt, errorf, str_eq, select, length,
  map,
}

-- A row; `RequireSig`, `LastUpstreamSeq` and an empty `LastError` are NULL when absent.
pub record Labeler : Type 0 where
  pub did : String
  pub endpoint : String
  pub origin : String  -- the column and field `source`
  pub enabled : Bool
  pub require_sig : Option Bool
  pub last_upstream_seq : Option ℤ
  pub last_error : String
  pub updated_at : ℤ

abbrev pub Registry : Type 0
Registry = List Labeler

-- WHERE did = ?
unfoldable pub find : String → Registry → Option Labeler
find did [] = none
find did (l ∷ ls) = if str_eq l.did did then some l else find did ls

-- UPDATE ... WHERE did = ?
unfoldable pub modify : String → (Labeler → Labeler) → Registry → Registry
modify did f [] = []
modify did f (l ∷ ls) =
    let rest = modify did f ls in if str_eq l.did did then f l ∷ rest else l ∷ rest

-- ON CONFLICT(did) DO UPDATE: the two statements of Upsert.
abbrev pub refresh : Labeler → Labeler → Labeler
refresh new old = record old {
  endpoint = new.endpoint;
  last_error = "";
  updated_at = new.updated_at;
}

abbrev pub claim : Labeler → Labeler → Labeler
claim new old = record old {
  endpoint = new.endpoint;
  origin = new.origin;
  enabled = new.enabled;
  last_error = "";
  updated_at = new.updated_at;
}

abbrev pub on_conflict : Labeler → Labeler → Labeler
on_conflict new = if str_eq new.origin "manual" then claim new else refresh new

-- INSERT ... ON CONFLICT
abbrev pub put : Option Labeler → Labeler → (Labeler → Labeler) → Registry → Registry
put none new update db = db ++ new ∷ []
put (some old) new update db = modify new.did update db

unfoldable pub upsert : Fault → Labeler → Registry → Result Registry
unfolding find modify
upsert f l db = do
  attempt f "failed to upsert labeler"
  ok (put (find l.did db) l (on_conflict l) db)

-- The faults of an UPDATE and of RowsAffected; the second leaves the UPDATE done.
abbrev pub update_one :
    Fault → Fault → String → String → (Labeler → Labeler) → Registry → Result (Unit {0}) × Registry
update_one exec affected what did f db = elim exec [
  | some e ↦ (err (errorf what e), db)
  | none ↦ elim affected [
    | some e ↦ (err (errorf "failed to check rows affected" e), modify did f db)
    | none ↦ elim (find did db) [
      | none ↦ (err (errorf "labeler not found" did), modify did f db)
      | some l ↦ (ok tt, modify did f db)
    ]
  ]
]

unfoldable pub set_enabled : Fault → Fault → String → Bool → Registry → Result (Unit {0}) × Registry
unfolding find modify
set_enabled exec affected did b =
    update_one exec affected "failed to set enabled" did (λ l. record l { enabled = b })

unfoldable pub set_require_sig :
    Fault → Fault → String → Option Bool → Registry → Result (Unit {0}) × Registry
unfolding find modify
set_require_sig exec affected did sig =
    update_one exec affected "failed to set require_sig" did (λ l. record l { require_sig = sig })

unfoldable pub write_cursor : Fault → Fault → String → ℤ → Registry → Result (Unit {0}) × Registry
unfolding find modify
write_cursor exec affected did seq =
    update_one exec affected "failed to write cursor" did
      (λ l. record l { last_upstream_seq = some seq })

-- Get: `none` is sql.ErrNoRows.
unfoldable pub get : Fault → String → Registry → Result (Option Labeler)
unfolding find
get f did db = do attempt f "failed to get labeler"; ok (find did db)

unfoldable pub read_cursor : Fault → String → Registry → Result (Option ℤ)
unfolding find
read_cursor f did db = do
  attempt f "failed to read cursor"
  ok (elim (find did db) [ none ↦ none | some l ↦ l.last_upstream_seq ])

-- RecordError: a new row is a disabled one of the firehose.
abbrev pub failed_discovery : String → String → ℤ → Labeler
failed_discovery did msg now = record {
  did = did;
  endpoint = "";
  origin = "firehose";
  enabled = false;
  require_sig = none;
  last_upstream_seq = none;
  last_error = msg;
  updated_at = now;
}

unfoldable pub record_error : Fault → String → String → ℤ → Registry → Result Registry
unfolding find modify
record_error f did msg now db = do
  attempt f "failed to record error"
  ok (
      put (find did db) (failed_discovery did msg now)
        (λ l. record l { last_error = msg; updated_at = now }) db)
