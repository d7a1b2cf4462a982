-- ===== src/Store/Playback/Cursors.antt =====
-- What the answer of CursorStatus says about the table: AC2.2 to AC2.4 of the design.
use labeler_relay.Prelude.{
  ◌-◌, ◌<◌, ◌≡◌, refl, ◌≢◌, ◌⊎◌, inl, inr, Bool, true, false, not, none, List, [], ◌∷◌, arith, ℤ,
  pos, negsuc, ltb_ℤ, ok, All, any, Bool-cases, lt→ltb,
}
use labeler_relay.Store.Events.{Row, Events}
use labeler_relay.Store.Events.Order.{IsWellFormed}
use labeler_relay.Store.Playback.{
  max_seq, min_seq?, or_zero, CursorState, cursor_ok, cursor_future, cursor_outdated, classify,
  cursor_status,
}

-- The row's number is below the cursor.
abbrev pub is_before : ℤ → Row → Bool
is_before c r = ltb_ℤ (pos r.relay_seq) c

-- At least one number lies between the cursor and the row's.
abbrev pub leaves_gap : ℤ → Row → Bool
leaves_gap c r = ltb_ℤ c (pos (r.relay_seq - 1))

abbrev pub Means : ℤ → List Row → CursorState → Type 0
Means c rows cursor_future = All (λ r. is_before c r ≡ true) rows × (ltb_ℤ (pos 0) c ≡ true)
Means c rows cursor_outdated = (rows ≢ []) × All (λ r. leaves_gap c r ≡ true) rows
Means c rows cursor_ok =
    ((rows ≡ []) × (ltb_ℤ (pos 0) c ≡ false))
    ⊎ ((any (λ r. not (is_before c r)) rows ≡ true) × (any (λ r. not (leaves_gap c r)) rows ≡ true))

before_max :
    (c : ℤ) (rows : List Row)
    → ltb_ℤ (pos (max_seq rows)) c ≡ true
    → All (λ r. is_before c r ≡ true) rows × (ltb_ℤ (pos 0) c ≡ true)
unfolding max_seq
before_max c [] h = (tt, h)
before_max (pos c) (x ∷ xs) h =
    let rest = before_max (pos c) xs (ground arith) in ((ground arith, rest.0), rest.1)
before_max (negsuc c) (x ∷ xs) h = cc

not_before_max :
    (c : ℤ) (x : Row) (xs : List Row)
    → ltb_ℤ (pos (max_seq (x ∷ xs))) c ≡ false
    → any (λ r. not (is_before c r)) (x ∷ xs) ≡ true
unfolding max_seq
not_before_max (pos c) x [] h = ground arith
not_before_max (pos c) x (y ∷ ys) h = ground (arith, not_before_max (pos c) y ys)
not_before_max (negsuc c) x [] h = refl
not_before_max (negsuc c) x (y ∷ ys) h = refl

-- The floor of a table with rows is positive.
floor_pos :
    (x : Row) (xs : List Row)
    → All (λ r. 0 < r.relay_seq) (x ∷ xs)
    → 0 < or_zero (min_seq? (x ∷ xs))
unfolding min_seq?
floor_pos x [] h = h.0
floor_pos x (y ∷ ys) h = ground (arith, floor_pos y ys h.1)

gap_below_min :
    (c : ℤ) (rows : List Row)
    → All (λ r. 0 < r.relay_seq) rows
    → ltb_ℤ c (pos (or_zero (min_seq? rows) - 1)) ≡ true
    → All (λ r. leaves_gap c r ≡ true) rows
unfolding min_seq?
gap_below_min c [] p h = tt
gap_below_min (pos c) (x ∷ []) p h = (h, tt)
gap_below_min (pos c) (x ∷ y ∷ ys) p h =
    (ground arith, gap_below_min (pos c) (y ∷ ys) p.1 (ground (arith, floor_pos y ys p.1)))
gap_below_min (negsuc c) (x ∷ xs) p h = (refl, gap_below_min (negsuc c) xs p.1 refl)

no_gap_at_min :
    (c : ℤ) (x : Row) (xs : List Row)
    → ltb_ℤ c (pos (or_zero (min_seq? (x ∷ xs)) - 1)) ≡ false
    → any (λ r. not (leaves_gap c r)) (x ∷ xs) ≡ true
unfolding min_seq?
no_gap_at_min (pos c) x [] h = ground arith
no_gap_at_min (pos c) x (y ∷ ys) h = ground (arith, no_gap_at_min (pos c) y ys)
no_gap_at_min (negsuc c) x xs h = cc

classify-Means :
    (c : ℤ) (rows : List Row)
    → All (λ r. 0 < r.relay_seq) rows
    → Means c rows (classify c (max_seq rows) (or_zero (min_seq? rows)))
unfolding classify max_seq min_seq?
classify-Means c [] p = elim (Bool-cases (ltb_ℤ (pos 0) c)) [
  | inl e ↦ rw e (tt, e)
  | inr e ↦ rw e (inl (refl, e))
]
classify-Means c (x ∷ xs) p =
    let m = max_seq (x ∷ xs) in
    let f = or_zero (min_seq? (x ∷ xs)) in
    elim (Bool-cases (ltb_ℤ (pos m) c)) [
      | inl e ↦ rw e (before_max c (x ∷ xs) e)
      | inr e ↦ elim (Bool-cases (ltb_ℤ c (pos (f - 1)))) [
        | inl g ↦ rw (e, lt→ltb 0 f (floor_pos x xs p), g) ((λ q. cc), gap_below_min c (x ∷ xs) p g)
        | inr g ↦
            rw (e, lt→ltb 0 f (floor_pos x xs p), g)
              (inr (not_before_max c x xs e, no_gap_at_min c x xs g))
      ]
    ]

-- Over a well-formed table and with no fault CursorStatus always answers, and the answer says
-- where the cursor stands: `cursor_future` that it is positive and every stored number is below
-- it; `cursor_outdated` that there are stored events and before each of them at least one number
-- is missing after the cursor; `cursor_ok` that some stored number is not below it and some stored
-- number leaves no gap, or that nothing is stored and the cursor is not positive.
pub cursor_status-Means :
    (db : Events) (c : ℤ)
    → IsWellFormed db
    → (s : CursorState) × (cursor_status none none db c ≡ ok s) × Means c db.rows s
unfolding cursor_status
cursor_status-Means db c h = (
  classify c (max_seq db.rows) (or_zero (min_seq? db.rows)),
  refl,
  classify-Means c db.rows h.positive,
)
