-- ===== src/Store/Events.antt =====
-- internal/store/persist.go and the `events` table of internal/store/schema.sql.
--
-- The table is the list of its rows in storage order, with the counter that AUTOINCREMENT keeps in
-- sqlite_sequence. A transaction works on a copy that replaces the table at the commit. Every call
-- of the database that may fail takes its outcome as an argument (`Fault`).
pub mod Order
pub mod Ingest
use labeler_relay.Prelude.{
  ℕ, zero, suc, ◌+◌, ◌-◌, ◌^◌, String, Bool, true, false, Option, none, some, List, [], ◌∷◌, ◌++◌,
  ltb, leb, ◌==◌, if◌then◌else◌, ℤ, pos, negsuc, ltb_ℤ, past, Result, ok, err, ◌>>=◌, ◌>>◌, Fault,
  float64, attempt, with_context, errorf, str_eq, select, any, take, map, length, max, ◌&&◌,
}

abbrev pub Bytes : Type 0
Bytes = List ℕ

pub record Row : Type 0 where
  pub relay_seq : ℕ
  pub kind : String
  pub labeler_did : String
  pub upstream_seq : Option ℤ
  pub frame_cbor : Bytes
  pub ingest_ts : ℤ

pub record Events : Type 0 where
  pub rows : List Row
  pub last_seq : ℕ

pub record LiveEvent : Type 0 where
  pub relay_seq : ℕ
  pub kind : String
  pub labeler_did : String
  pub frame_cbor : Bytes

pub record IngestEvent (Label Service : Type 0) : Type 0 where
  pub kind : String
  pub labeler_did : String
  pub upstream_seq : Option ℤ
  pub labels : List Label
  pub op : String
  pub service : Option Service

-- The encoders of frame.go, which the ingest path calls.
pub record Encoders (Label Service : Type 0) : Type 0 where
  pub encode_labels : ℕ → String → ℤ → List Label → Result Bytes
  pub encode_service : ℕ → String → String → Option Service → Result Bytes

pub record IngestFaults : Type 0 where
  pub begin_tx : Fault
  pub insert : Fault
  pub update : Fault
  pub commit : Fault

abbrev pub max_int64 : ℕ
max_int64 = 2 ^ 63 - 1

-- The relay's view of a stored row.
abbrev pub to_live : Row → LiveEvent
to_live r = record {
  relay_seq = r.relay_seq;
  kind = r.kind;
  labeler_did = r.labeler_did;
  frame_cbor = r.frame_cbor;
}

-- UPDATE events SET frame_cbor = ? WHERE relay_seq = ?
unfoldable pub update_frame : Bytes → ℕ → List Row → List Row
update_frame frame seq [] = []
update_frame frame seq (r ∷ rs) =
    (if r.relay_seq == seq then record r { frame_cbor = frame } else r) ∷ update_frame frame seq rs

abbrev pub seq_or_zero : Option ℤ → ℤ
seq_or_zero none = pos 0
seq_or_zero (some n) = n

module _ {Label Service : Type 0} where
  -- The row of the INSERT, with an empty frame.
  abbrev pub placeholder : ℕ → IngestEvent Label Service → ℤ → Row
  placeholder seq e now = record {
    relay_seq = seq;
    kind = e.kind;
    labeler_did = e.labeler_did;
    upstream_seq = e.upstream_seq;
    frame_cbor = [];
    ingest_ts = now;
  }

  -- INSERT ... RETURNING relay_seq: AUTOINCREMENT takes the number after the largest one ever
  -- given, and fails past the largest int64.
  unfoldable pub insert_placeholder : IngestEvent Label Service → ℤ → Events → Result (ℕ × Events)
  insert_placeholder e now db =
      if leb max_int64 db.last_seq
      then err "database or disk is full"
      else ok (
        suc db.last_seq,
        record {
          rows = db.rows ++ placeholder (suc db.last_seq) e now ∷ [];
          last_seq = suc db.last_seq;
        },
      )

  -- The switch on e.Kind.
  unfoldable pub encode_frame :
      Encoders Label Service → ℕ → IngestEvent Label Service → Result Bytes
  encode_frame enc seq e =
      if str_eq e.kind "labels"
      then with_context "failed to encode labels frame"
          (enc.encode_labels seq e.labeler_did (seq_or_zero e.upstream_seq) e.labels)
      else if str_eq e.kind "service"
      then with_context "failed to encode service frame"
          (enc.encode_service seq e.labeler_did e.op e.service)
      else err (errorf "unknown event kind" e.kind)

  -- Steps 1 to 4 of PersistIngest: the transaction. An error leaves the caller's table.
  unfoldable pub ingest_tx :
      Encoders Label Service
      → IngestFaults
      → ℤ
      → IngestEvent Label Service
      → Events
      → Result (LiveEvent × Events)
  ingest_tx enc f now e db = do
    attempt f.begin_tx "failed to begin transaction"
    attempt f.insert "failed to insert placeholder"
    (seq, db') ← with_context "failed to insert placeholder" (insert_placeholder e now db)
    frame ← encode_frame enc seq e
    attempt f.update "failed to update frame"
    attempt f.commit "failed to commit transaction"
    ok (
      record { relay_seq = seq; kind = e.kind; labeler_did = e.labeler_did; frame_cbor = frame },
      record db' { rows = update_frame frame seq db'.rows },
    )

-- LabelPersist: the table, and the two callbacks, which act on a world `W`.
pub record LabelPersist (W : Type 0) : Type 0 where
  pub store : Events
  pub broadcaster : Option (LiveEvent → W → W)
  pub on_head_advanced : Option (ℕ → W → W)
  pub prune_batch_size : ℕ

abbrev pub call : {A W : Type 0} → Option (A → W → W) → A → W → W
call none a w = w
call (some f) a w = f a w

abbrev pub default_prune_batch_size : ℕ
default_prune_batch_size = 5000

module _ {W : Type 0} where
  unfoldable pub new_label_persist : Events → LabelPersist W
  new_label_persist s = record {
    store = s;
    broadcaster = none;
    on_head_advanced = none;
    prune_batch_size = default_prune_batch_size;
  }

  unfoldable pub set_broadcaster : (LiveEvent → W → W) → LabelPersist W → LabelPersist W
  set_broadcaster fn p = record p { broadcaster = some fn }

  unfoldable pub set_head_seq_callback : (ℕ → W → W) → LabelPersist W → LabelPersist W
  set_head_seq_callback fn p = record p { on_head_advanced = some fn }

-- Steps 5 and 6, after a committed transaction.
abbrev pub announce :
    {W : Type 0} → LabelPersist W → W → Result (LiveEvent × Events) → Result ℕ × LabelPersist W × W
announce p w (err e) = (err e, p, w)
announce p w (ok (le, db)) = (
  ok le.relay_seq,
  record p { store = db },
  call p.on_head_advanced (float64 le.relay_seq) (call p.broadcaster le w),
)

-- PersistIngest, with the mutex held throughout.
unfoldable pub persist_ingest :
    {W Label Service : Type 0}
    → Encoders Label Service
    → IngestFaults
    → ℤ
    → IngestEvent Label Service
    → LabelPersist W
    → W
    → Result ℕ × LabelPersist W × W
persist_ingest enc f now e p w = announce p w (ingest_tx enc f now e p.store)
