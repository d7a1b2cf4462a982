-- ===== src/Store/Playback.antt =====
-- internal/store/persist.go: the queries over the events table, PlaybackFrames and
-- PlaybackFramesChunk, Head, RetentionFloor and CursorStatus.
pub mod Exact
pub mod Cursors
use labeler_relay.Prelude.{
  ℕ, zero, suc, ◌+◌, ◌-◌, Bool, true, false, Option, none, some, List, [], ◌∷◌, ltb, if◌then◌else◌,
  ℤ, pos, ltb_ℤ, past, Result, ok, err, ◌>>=◌, ◌>>◌, Fault, attempt, select, take, map, length, max,
  min, ◌&&◌,
}
use labeler_relay.Store.Events.{Row, Events, LiveEvent, to_live}

-- ORDER BY relay_seq ASC
unfoldable pub insert_by_seq : Row → List Row → List Row
insert_by_seq r [] = r ∷ []
insert_by_seq r (x ∷ xs) =
    let rest = insert_by_seq r xs in if ltb x.relay_seq r.relay_seq then x ∷ rest else r ∷ x ∷ xs

unfoldable pub order_by_seq : List Row → List Row
unfolding insert_by_seq
order_by_seq [] = []
order_by_seq (r ∷ rs) = insert_by_seq r (order_by_seq rs)

-- WHERE relay_seq > since
abbrev pub rows_after : ℤ → List Row → List Row
rows_after since = select (λ r. past since r.relay_seq)

-- A callback of the playback: it takes the event and changes the world, or refuses with an error.
abbrev pub Callback : Type 0 → Type 0
Callback W = LiveEvent → W → Result W

-- `for rows.Next()`: the scan of a row may fail, and so may the callback; the count says how many
-- events were delivered.
unfoldable pub deliver : {W : Type 0} → Callback W → (ℕ → Fault) → ℕ → List Row → W → ℕ × Fault × W
deliver cb scan n [] w = (n, none, w)
deliver cb scan n (r ∷ rs) w = elim (scan n) [
  | some e ↦ (n, some e, w)
  | none ↦ elim (cb (to_live r) w) [
    | err e ↦ (n, some e, w)
    | ok w' ↦ deliver cb scan (suc n) rs w'
  ]
]

module _ {W : Type 0} where
  -- PlaybackFrames. The faults are those of the query and of each row's scan.
  unfoldable pub playback_frames : Fault → (ℕ → Fault) → Events → ℤ → Callback W → W → ℕ × Fault × W
  unfolding deliver order_by_seq
  playback_frames query scan db since cb w = elim query [
    | some e ↦ (0, some e, w)
    | none ↦ deliver cb scan 0 (order_by_seq (rows_after since db.rows)) w
  ]

  -- PlaybackFramesChunk: the same with LIMIT.
  unfoldable pub playback_frames_chunk :
      Fault → (ℕ → Fault) → Events → ℤ → ℕ → Callback W → W → ℕ × Fault × W
  unfolding deliver order_by_seq
  playback_frames_chunk query scan db since limit cb w = elim query [
    | some e ↦ (0, some e, w)
    | none ↦ deliver cb scan 0 (take limit (order_by_seq (rows_after since db.rows))) w
  ]

-- COALESCE(MAX(relay_seq), 0)
unfoldable pub max_seq : List Row → ℕ
max_seq [] = 0
max_seq (r ∷ rs) = max r.relay_seq (max_seq rs)

-- MIN(relay_seq), and `none` over no row.
unfoldable pub min_seq? : List Row → Option ℕ
min_seq? [] = none
min_seq? (r ∷ rs) = elim (min_seq? rs) [
  | none ↦ some r.relay_seq
  | some m ↦ some (min r.relay_seq m)
]

abbrev pub or_zero : Option ℕ → ℕ
or_zero none = 0
or_zero (some n) = n

unfoldable pub head : Fault → Events → Result ℕ
unfolding max_seq
head query db = do attempt query "failed to query head"; ok (max_seq db.rows)

unfoldable pub retention_floor : Fault → Events → Result ℕ
unfolding min_seq?
retention_floor query db = do
  attempt query "failed to query retention floor"
  ok (or_zero (min_seq? db.rows))

pub data CursorState : Type 0 where
  cursor_ok cursor_future cursor_outdated : CursorState

-- The tests of CursorStatus on the head and the floor.
unfoldable pub classify : ℤ → ℕ → ℕ → CursorState
classify cursor h floor =
    if ltb_ℤ (pos h) cursor
    then cursor_future
    else if ltb 0 floor && ltb_ℤ cursor (pos (floor - 1))
    then cursor_outdated
    else cursor_ok

unfoldable pub cursor_status : Fault → Fault → Events → ℤ → Result CursorState
unfolding head retention_floor classify
cursor_status head_query floor_query db cursor = do
  h ← head head_query db
  floor ← retention_floor floor_query db
  ok (classify cursor h floor)
