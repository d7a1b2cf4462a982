-- ===== src/Store/Registry/Keys.antt =====
-- The primary key of the `labelers` table: one row for each DID.
use labeler_relay.Prelude.{
  ◌≡◌, refl, sym, ap, ◌∙◌, String, Bool, false, Option, none, some, List, [], ◌∷◌, ◌++◌, arith, ok,
  Fault, str_eq, eq_iff, Bool-cases, inl, inr, select,
}
use labeler_relay.Store.Registry.{
  Labeler, Registry, find, modify, put, on_conflict, upsert, update_one,
}
use labeler_relay.Store.Registry.Laws.{
  KeepsDid, find-modify, find-append, on_conflict-KeepsDid, update_one-cases,
}

abbrev pub IsKeyed : List Labeler → Type 0
IsKeyed [] = Unit
IsKeyed (l ∷ ls) = (find l.did ls ≡ none) × IsKeyed ls

-- An update adds no row.
find-absent :
    (did j : String) (f : Labeler → Labeler) (db : Registry)
    → KeepsDid f
    → find j db ≡ none
    → find j (modify did f db) ≡ none
find-absent did j f db k h =
    find-modify did j f db k
    ∙ elim (Bool-cases (str_eq did j)) [ inl q ↦ rw (q, h) refl | inr q ↦ rw (q, h) refl ]

pub modify-IsKeyed :
    (did : String) (f : Labeler → Labeler) (db : Registry)
    → KeepsDid f
    → IsKeyed db
    → IsKeyed (modify did f db)
unfolding modify
modify-IsKeyed did f [] k h = tt
modify-IsKeyed did f (l ∷ ls) k h =
    let rest = modify-IsKeyed did f ls k h.1 in
    let absent = find-absent did l.did f ls k h.0 in
    elim (Bool-cases (str_eq l.did did)) [
      | inl q ↦ rw q (ap (λ d. find d (modify did f ls)) (k l) ∙ absent, rest)
      | inr q ↦ rw q (absent, rest)
    ]

append-IsKeyed :
    (db : Registry) (l : Labeler) → find l.did db ≡ none → IsKeyed db → IsKeyed (db ++ l ∷ [])
unfolding find
append-IsKeyed [] l a h = (refl, tt)
append-IsKeyed (x ∷ xs) l a h = elim (Bool-cases (str_eq x.did l.did)) [
  | inl q ↦ absurd (ground (arith, a, q))
  | inr q ↦
      let there : find l.did xs ≡ none = ground (arith, a, q) in
      let other : str_eq l.did x.did ≡ false =
        ground (arith, q, eq_iff x.did l.did, eq_iff l.did x.did) in
      let absent = find-append x.did l xs there in
      (ground (arith, absent, other, h.0), append-IsKeyed xs l there h.1)
]

put-IsKeyed :
    (o : Option Labeler) (new : Labeler) (update : Labeler → Labeler) (db : Registry)
    → KeepsDid update
    → find new.did db ≡ o
    → IsKeyed db
    → IsKeyed (put o new update db)
put-IsKeyed none new update db k q h = append-IsKeyed db new q h
put-IsKeyed (some old) new update db k q h = modify-IsKeyed new.did update db k h

pub upsert-IsKeyed :
    (f : Fault) (new : Labeler) (db after : Registry)
    → upsert f new db ≡ ok after
    → IsKeyed db
    → IsKeyed after
unfolding upsert
upsert-IsKeyed (some e) new db after q h = cc
upsert-IsKeyed none new db after q h =
    let made =
      put-IsKeyed (find new.did db) new (on_conflict new) db (on_conflict-KeepsDid new) refl h in
    let same : put (find new.did db) new (on_conflict new) db ≡ after = cc in rw (sym same) made

pub update_one-IsKeyed :
    (exec affected : Fault) (what did : String) (f : Labeler → Labeler) (db : Registry)
    → KeepsDid f
    → IsKeyed db
    → IsKeyed (update_one exec affected what did f db).1
update_one-IsKeyed exec affected what did f db k h =
    elim (update_one-cases exec affected what did f db) [
      | inl q ↦ rw q h
      | inr q ↦ rw q (modify-IsKeyed did f db k h)
    ]

module _ (p : Labeler → Bool) where
  pub select-absent :
      (d : String) (ls : List Labeler) → find d ls ≡ none → find d (select p ls) ≡ none
  unfolding find
  select-absent d [] h = refl
  select-absent d (l ∷ ls) h = ground (arith, select-absent d ls, h)

  pub select-IsKeyed : (ls : List Labeler) → IsKeyed ls → IsKeyed (select p ls)
  select-IsKeyed [] h = tt
  select-IsKeyed (l ∷ ls) h = elim (Bool-cases (p l)) [
    | inl q ↦ rw q (select-absent l.did ls h.0, select-IsKeyed ls h.1)
    | inr q ↦ rw q (select-IsKeyed ls h.1)
  ]
