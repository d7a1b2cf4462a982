-- ===== src/Store/Meta.antt =====
-- internal/store/store.go: GetMeta and SetMeta over the `meta` table, which is the list of its rows.
use labeler_relay.Prelude.{
  ◌≡◌, refl, String, Option, none, some, List, [], ◌∷◌, if◌then◌else◌, str_eq, eq_iff, arith,
  Result, ok, ◌>>◌, Fault, attempt,
}

abbrev pub Meta : Type 0
Meta = List (String × String)

unfoldable pub find_meta : String → Meta → Option String
find_meta key [] = none
find_meta key ((k, v) ∷ rows) =
    let rest = find_meta key rows in if str_eq k key then some v else rest

-- INSERT ... ON CONFLICT(key) DO UPDATE SET value = excluded.value
unfoldable pub put_meta : String → String → Meta → Meta
put_meta key value [] = (key, value) ∷ []
put_meta key value ((k, v) ∷ rows) =
    let rest = put_meta key value rows in if str_eq k key then (k, value) ∷ rows else (k, v) ∷ rest

-- `none` is sql.ErrNoRows.
unfoldable pub get_meta : Fault → String → Meta → Result (Option String)
unfolding find_meta
get_meta f key db = do attempt f "failed to get meta"; ok (find_meta key db)

unfoldable pub set_meta : Fault → String → String → Meta → Result Meta
unfolding put_meta
set_meta f key value db = do attempt f "failed to set meta"; ok (put_meta key value db)

pub find_meta-put_meta :
    (key j value : String) (db : Meta)
    → find_meta j (put_meta key value db) ≡ (if str_eq key j then some value else find_meta j db)
unfolding find_meta put_meta
find_meta-put_meta key j value [] = refl
find_meta-put_meta key j value ((k, v) ∷ rows) =
    ground (arith, find_meta-put_meta key j value rows, eq_iff k key, eq_iff k j, eq_iff key j)

-- A value that was set is read back under its key, whether or not the key was there, and each other key
-- reads as before.
pub set_meta-get_meta :
    (key j value : String) (db after : Meta)
    → set_meta none key value db ≡ ok after
    → get_meta none j after ≡ (if str_eq key j then ok (some value) else get_meta none j db)
unfolding set_meta get_meta
set_meta-get_meta key j value db after h = ground (arith, find_meta-put_meta key j value db, h)
