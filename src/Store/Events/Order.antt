-- ===== src/Store/Events/Order.antt =====
-- The invariant of the events table: its rows stand in ascending order of their numbers, and none
-- is past the AUTOINCREMENT counter.
use labeler_relay.Prelude.{
  ℕ, suc, ◌≤◌, ◌<◌, ◌≡◌, ap, none, List, [], ◌∷◌, ◌++◌, arith, ℤ, ok, All, All-append, All-imp,
  IsAscending, IsAscending-append, ==_refl, ==_false,
}
use labeler_relay.Store.Events.{
  Bytes, Row, Events, LiveEvent, IngestEvent, Encoders, IngestFaults, placeholder, update_frame,
  insert_placeholder, encode_frame, ingest_tx, to_live, max_int64,
}

abbrev pub seq_of : Row → ℕ
seq_of r = r.relay_seq

pub record IsWellFormed (db : Events) : Type 0 where
  pub ascending : IsAscending seq_of db.rows
  pub bounded : All (λ r. r.relay_seq ≤ db.last_seq) db.rows
  pub positive : All (λ r. 0 < r.relay_seq) db.rows

-- The table with one more row, which takes the next number.
abbrev pub append_row : Events → Row → Events
append_row db r = record { rows = db.rows ++ r ∷ []; last_seq = suc db.last_seq }

pub append_row-IsWellFormed :
    (db : Events) (r : Row)
    → r.relay_seq ≡ suc db.last_seq
    → IsWellFormed db
    → IsWellFormed (append_row db r)
append_row-IsWellFormed db r e h = record {
  ascending =
      IsAscending-append seq_of db.rows r h.ascending
        (All-imp _ _ db.rows (λ x k. omega arith) h.bounded);
  bounded =
      All-append _ db.rows (r ∷ []) (All-imp _ _ db.rows (λ x k. omega arith) h.bounded)
        (omega arith, tt);
  positive = All-append _ db.rows (r ∷ []) h.positive (omega arith, tt);
}

abbrev pub no_faults : IngestFaults
no_faults = record { begin_tx = none; insert = none; update = none; commit = none }

module _ {Label Service : Type 0} where
  abbrev pub stored : ℕ → IngestEvent Label Service → ℤ → Bytes → Row
  stored seq e now frame = record (placeholder seq e now) { frame_cbor = frame }

  -- The UPDATE reaches the row that the INSERT added and no other.
  pub update_frame-append :
      (e : IngestEvent Label Service) (now : ℤ) (frame : Bytes) (seq : ℕ) (rows : List Row)
      → All (λ r. r.relay_seq < seq) rows
      → update_frame frame seq (rows ++ placeholder seq e now ∷ [])
        ≡ rows ++ stored seq e now frame ∷ []
  unfolding update_frame
  update_frame-append e now frame seq [] h = rw (==_refl seq)
  update_frame-append e now frame seq (r ∷ rs) h =
      rw (==_false r.relay_seq seq h.0) (ap (◌∷◌ r) (update_frame-append e now frame seq rs h.1))

  -- What a committed transaction has done: it appended the encoded row under the next number.
  pub record Committed (enc : Encoders Label Service) (now : ℤ) (e : IngestEvent Label Service)
      (db : Events) (le : LiveEvent) (db' : Events) : Type 0 where
    pub room : db.last_seq < max_int64
    pub encoded : encode_frame enc (suc db.last_seq) e ≡ ok le.frame_cbor
    pub announced : le ≡ to_live (stored (suc db.last_seq) e now le.frame_cbor)
    pub appended : db' ≡ append_row db (stored (suc db.last_seq) e now le.frame_cbor)

  pub ingest_tx-Committed :
      (enc : Encoders Label Service) (f : IngestFaults) (now : ℤ) (e : IngestEvent Label Service)
      (db : Events) (le : LiveEvent) (db' : Events)
      → IsWellFormed db
      → ingest_tx enc f now e db ≡ ok (le, db')
      → Committed enc now e db le db'
  unfolding ingest_tx insert_placeholder
  ingest_tx-Committed enc f now e db le db' h p =
      let u =
        update_frame-append e now le.frame_cbor (suc db.last_seq) db.rows
          (All-imp _ _ db.rows (λ x k. omega arith) h.bounded) in
      ground (arith, u)

  -- With no fault, a free number and an event that encodes, the transaction commits.
  pub ingest_tx-commits :
      (enc : Encoders Label Service) (now : ℤ) (e : IngestEvent Label Service) (db : Events)
      (frame : Bytes)
      → db.last_seq < max_int64
      → encode_frame enc (suc db.last_seq) e ≡ ok frame
      → (le : LiveEvent) × (db' : Events) × (ingest_tx enc no_faults now e db ≡ ok (le, db'))
  unfolding ingest_tx insert_placeholder
  ingest_tx-commits enc now e db frame room h = (
    to_live (stored (suc db.last_seq) e now frame),
    record {
      rows =
          update_frame frame (suc db.last_seq)
            (db.rows ++ placeholder (suc db.last_seq) e now ∷ []);
      last_seq = suc db.last_seq;
    },
    ground arith,
  )
