-- ===== src/Store/Registry/Laws.antt =====
-- What the operations of the registry do to the row of each labeler.
use labeler_relay.Prelude.{
  ◌≡◌, ◌≢◌, refl, ap, ◌∙◌, sym, ◌⊎◌, String, Option, none, some, [], ◌∷◌, ◌++◌, arith, ℤ, Result,
  ok, err, Fault, if◌then◌else◌, str_eq, eq_iff, Bool-cases, Option-cases, inl, inr,
}
use labeler_relay.Store.Registry.{
  Labeler, Registry, find, modify, put, on_conflict, upsert, write_cursor, read_cursor, update_one,
}

-- An update of the row keeps its key.
abbrev pub KeepsDid : (Labeler → Labeler) → Type 0
KeepsDid f = (l : Labeler) → (f l).did ≡ l.did

-- The row after an update, if there is one.
abbrev pub changed : (Labeler → Labeler) → Option Labeler → Option Labeler
changed f none = none
changed f (some l) = some (f l)

pub find-modify :
    (did j : String) (f : Labeler → Labeler) (db : Registry)
    → KeepsDid f
    → find j (modify did f db) ≡ (if str_eq did j then changed f (find j db) else find j db)
unfolding find modify
find-modify did j f [] k = ground arith
find-modify did j f (l ∷ ls) k =
    ground (arith, k l, find-modify did j f ls k, eq_iff l.did did, eq_iff l.did j, eq_iff did j)

pub find-append :
    (j : String) (l : Labeler) (db : Registry)
    → find l.did db ≡ none
    → find j (db ++ l ∷ []) ≡ (if str_eq l.did j then some l else find j db)
unfolding find
find-append j l [] h = refl
find-append j l (x ∷ xs) h =
    ground (arith, find-append j l xs, eq_iff x.did l.did, eq_iff x.did j, eq_iff l.did j)

-- The row that an INSERT ... ON CONFLICT leaves under its key.
abbrev pub merged : Labeler → (Labeler → Labeler) → Option Labeler → Labeler
merged new update none = new
merged new update (some old) = update old

find-put_at :
    (j : String) (new : Labeler) (update : Labeler → Labeler) (db : Registry) (o : Option Labeler)
    → KeepsDid update
    → find new.did db ≡ o
    → find j (put o new update db)
      ≡ (if str_eq new.did j then some (merged new update o) else find j db)
find-put_at j new update db none k q = find-append j new db q
find-put_at j new update db (some old) k q =
    ground (arith, find-modify new.did j update db k, eq_iff new.did j)

pub find-put :
    (j : String) (new : Labeler) (update : Labeler → Labeler) (db : Registry)
    → KeepsDid update
    → find j (put (find new.did db) new update db)
      ≡ (if str_eq new.did j then some (merged new update (find new.did db)) else find j db)
find-put j new update db k = find-put_at j new update db (find new.did db) k refl

-- The row that Upsert leaves under the key of `new`, from the one that was there.
abbrev pub upserted : Labeler → Option Labeler → Labeler
upserted new none = new
upserted new (some old) = record {
  did = old.did;
  endpoint = new.endpoint;
  origin = if str_eq new.origin "manual" then new.origin else old.origin;
  enabled = if str_eq new.origin "manual" then new.enabled else old.enabled;
  require_sig = old.require_sig;
  last_upstream_seq = old.last_upstream_seq;
  last_error = "";
  updated_at = new.updated_at;
}

merged-on_conflict :
    (new : Labeler) (o : Option Labeler) → merged new (on_conflict new) o ≡ upserted new o
merged-on_conflict new none = refl
merged-on_conflict new (some old) = elim (Bool-cases (str_eq new.origin "manual")) [
  | inl q ↦ rw q refl
  | inr q ↦ rw q refl
]

pub on_conflict-KeepsDid : (new : Labeler) → KeepsDid (on_conflict new)
on_conflict-KeepsDid new l = elim (Bool-cases (str_eq new.origin "manual")) [
  | inl q ↦ rw q refl
  | inr q ↦ rw q refl
]

-- When Upsert succeeds, the table has under the key of the row that was passed that row, when there
-- was none, and otherwise the old row, updated: a manual one takes the endpoint, the source and
-- `enabled` of the new row, one of the firehose only its endpoint. Either clears `last_error` and keeps
-- `require_sig` and the cursor. The row of every other labeler is as before.
pub upsert-row :
    (f : Fault) (new : Labeler) (db after : Registry) (j : String)
    → upsert f new db ≡ ok after
    → find j after ≡ (if str_eq new.did j then some (upserted new (find new.did db)) else find j db)
unfolding upsert
upsert-row (some e) new db after j h = ground arith
upsert-row none new db after j h = ground (
  arith,
  find-put j new (on_conflict new) db (on_conflict-KeepsDid new),
  merged-on_conflict new (find new.did db),
)

update_one-found :
    (exec affected : Fault) (what did j : String) (f : Labeler → Labeler) (db : Registry)
    → KeepsDid f
    → (update_one exec affected what did f db).0 ≡ ok tt
    → (l : Labeler) × ((find did db ≡ some l)
        × (find j ((update_one exec affected what did f db).1)
            ≡ (if str_eq did j then some (f l) else find j db)))
update_one-found (some e) affected what did j f db k h = ground arith
update_one-found none (some e) what did j f db k h = ground arith
update_one-found none none what did j f db k h = elim (Option-cases (find did db)) [
  | inl q ↦ absurd (ground (arith, q, h))
  | inr (old, q) ↦
      (old, (q, rw (q, update_one) (find-modify did j f db k ∙ ground (arith, q, eq_iff did j))))
]

-- What ReadCursor takes from a row.
abbrev pub cursor_of : Option Labeler → Option ℤ
cursor_of none = none
cursor_of (some l) = l.last_upstream_seq

read_cursor-find :
    (did : String) (db : Registry) → read_cursor none did db ≡ ok (cursor_of (find did db))
unfolding read_cursor
read_cursor-find did db = elim (Option-cases (find did db)) [
  | inl q ↦ rw q refl
  | inr (l, q) ↦ rw q refl
]

-- When WriteCursor reports success, the DID has a row, and then ReadCursor gives the cursor that was
-- written for that DID and gives for every other DID what it gave before.
pub write_cursor-read_cursor :
    (exec affected : Fault) (did j : String) (seq : ℤ) (db : Registry)
    → (write_cursor exec affected did seq db).0 ≡ ok tt
    → (find did db ≢ none)
      × (read_cursor none j ((write_cursor exec affected did seq db).1)
          ≡ (if str_eq did j then ok (some seq) else read_cursor none j db))
unfolding write_cursor
write_cursor-read_cursor exec affected did j seq db h =
    let (l, rest) =
      update_one-found exec affected "failed to write cursor" did j
        (λ l. record l { last_upstream_seq = some seq }) db (λ l. refl) h in
    let (found, after) = rest in
    (
      ground (arith, found),
      read_cursor-find j ((write_cursor exec affected did seq db).1)
          ∙ ap (λ o. ok (cursor_of o)) after
          ∙ elim (Bool-cases (str_eq did j)) [
            | inl q ↦ rw q refl
            | inr q ↦ rw q (sym (read_cursor-find j db))
          ],
    )

-- An update whose statement succeeds is that of the rows, whatever is reported.
update_one-modify :
    (affected : Fault) (what did : String) (f : Labeler → Labeler) (db : Registry)
    → (update_one none affected what did f db).1 ≡ modify did f db
update_one-modify (some e) what did f db = refl
update_one-modify none what did f db = elim (Option-cases (find did db)) [
  | inl q ↦ rw (q, update_one) refl
  | inr (l, q) ↦ rw (q, update_one) refl
]

-- What an update leaves in every row, unless its statement fails.
pub update_one-outcome :
    (exec affected : Fault) (what did : String) (f : Labeler → Labeler) (db : Registry)
    → KeepsDid f
    → ((e : String) × (update_one exec affected what did f db ≡ (err e, db)))
      ⊎ ((j : String)
          → find j (update_one exec affected what did f db).1
            ≡ (if str_eq did j then changed f (find did db) else find j db))
update_one-outcome (some e) affected what did f db k = inl (_, refl)
update_one-outcome none affected what did f db k = inr (λ j.
    ap (λ r. find j r) (update_one-modify affected what did f db)
    ∙ find-modify did j f db k
    ∙ elim (Bool-cases (str_eq did j)) [
      | inl q ↦ rw q (ap (λ i. changed f (find i db)) (sym ((eq_iff did j).0 q)))
      | inr q ↦ rw q refl
    ])

-- An update changes the row of the DID, or no row.
pub update_one-cases :
    (exec affected : Fault) (what did : String) (f : Labeler → Labeler) (db : Registry)
    → ((update_one exec affected what did f db).1 ≡ db)
      ⊎ ((update_one exec affected what did f db).1 ≡ modify did f db)
update_one-cases (some e) affected what did f db = inl refl
update_one-cases none affected what did f db = inr (update_one-modify affected what did f db)

abbrev read_as : Option Labeler → Result (Option ℤ)
read_as o = ok (cursor_of o)

read_as-changed :
    (seq : ℤ) (o : Option Labeler)
    → (read_as (changed (λ l. record l { last_upstream_seq = some seq }) o) ≡ read_as o)
      ⊎ (read_as (changed (λ l. record l { last_upstream_seq = some seq }) o) ≡ ok (some seq))
read_as-changed seq none = inl refl
read_as-changed seq (some l) = inr refl

-- Whatever WriteCursor reports, the cursor of the DID is then what it was or the one written.
pub write_cursor-moves :
    (exec affected : Fault) (did : String) (seq : ℤ) (db : Registry)
    → (read_cursor none did (write_cursor exec affected did seq db).1 ≡ read_cursor none did db)
      ⊎ (read_cursor none did (write_cursor exec affected did seq db).1 ≡ ok (some seq))
unfolding write_cursor
write_cursor-moves exec affected did seq db =
    let set : Labeler → Labeler = λ l. record l { last_upstream_seq = some seq } in
    elim (update_one-cases exec affected "failed to write cursor" did set db) [
      | inl q ↦ inl (ap (λ r. read_cursor none did r) q)
      | inr q ↦
          let found : find did (modify did set db) ≡ changed set (find did db) =
            find-modify did did set db (λ l. refl) ∙ ground (arith, eq_iff did did) in
          let after : read_cursor none did (write_cursor exec affected did seq db).1
              ≡ read_as (changed set (find did db)) =
            ap (λ r. read_cursor none did r) q
            ∙ read_cursor-find did (modify did set db)
            ∙ ap read_as found in
          elim (read_as-changed seq (find did db)) [
            | inl k ↦ inl (after ∙ k ∙ sym (read_cursor-find did db))
            | inr k ↦ inr (after ∙ k)
          ]
    ]
