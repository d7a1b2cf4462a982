-- ===== src/Server/Subscribe/Pruned.antt =====
-- A consumer that comes back with the last number it was sent, before and after a Prune.
mod Tests
use labeler_relay.Prelude.{
  ℕ, ◌≤◌, ◌<◌, ◌-◌, ◌≡◌, ◌≢◌, refl, sym, ap, ◌∙◌, subst, String, false, true, not, Option, none,
  some, List, [], ◌∷◌, ℤ, pos, Result, ok, All, All-imp, select-of_false, count, str_eq, arith,
}
use labeler_relay.Store.Events.{Row, Events}
use labeler_relay.Store.Events.Order.{IsWellFormed}
use labeler_relay.Store.Playback.{
  max_seq, min_seq?, or_zero, head, retention_floor, cursor_status, cursor_ok, cursor_future,
  classify,
}
use labeler_relay.Store.Prune.{PruneRound, is_old, prune}
use labeler_relay.Store.Prune.Exact.{IsQuiet, fresh, prune-exact}
use labeler_relay.Server.Subscribe.{
  Frame, error_frame, StartFaults, by_state, with_cursor, resolve_since,
}

floor_le_head : (rows : List Row) → or_zero (min_seq? rows) ≤ max_seq rows
unfolding max_seq min_seq?
floor_le_head [] = omega arith
floor_le_head (x ∷ []) = ground arith
floor_le_head (x ∷ y ∷ ys) = ground (arith, floor_le_head (y ∷ ys))

-- The head itself is a cursor that CursorStatus accepts.
head-cursor_ok : (db : Events) → cursor_status none none db (pos (max_seq db.rows)) ≡ ok cursor_ok
unfolding cursor_status head retention_floor classify
head-cursor_ok db = ground (arith, floor_le_head db.rows)

empty-cursor_future :
    (db : Events) (c : ℕ)
    → db.rows ≡ []
    → 0 < c
    → cursor_status none none db (pos c) ≡ ok cursor_future
unfolding cursor_status head retention_floor classify max_seq
empty-cursor_future db c q p = rw q (ground arith)

floor_of_none :
    (n : ℕ) (db : Events)
    → ◌≡◌ {A = Option ((ℕ × ℕ × Option String) × Events)}
        (some ((n, or_zero (min_seq? []), none), db))
        (some ((n, 0, none), db))
unfolding min_seq?
floor_of_none n db = refl

module _ (parse_int : String → Result ℤ) (f : StartFaults) (param : String) (c : ℕ)
    (given : str_eq param "" ≡ false) (parsed : parse_int param ≡ ok (pos c))
    (head_read : f.status_head ≡ none) (floor_read : f.status_floor ≡ none) where
  resolve_since-by_state :
      (db : Events)
      → resolve_since parse_int f db param
        ≡ by_state f db (pos c) (cursor_status none none db (pos c))
  unfolding resolve_since
  resolve_since-by_state db = rw (given, parsed, head_read, floor_read) refl

  module _ (rounds : ℕ → PruneRound) (cutoff : ℤ) (size : ℕ)
      (quiet : (i : ℕ) → IsQuiet size cutoff (rounds i)) (pos_size : 0 < size) where
    -- The same request before a Prune and after it.
    pub record Refused (fuel : ℕ) (db : Events) : Type 0 where
      pub served : resolve_since parse_int f db param ≡ ([], some (pos c))
      pub left : Events
      pub pruned :
          prune rounds none size cutoff fuel db
          ≡ some ((count (is_old cutoff) db.rows, 0, none), left)
      pub counter : left.last_seq ≡ db.last_seq
      pub refused :
          resolve_since parse_int f left param
          ≡ (error_frame "FutureCursor" "cursor is ahead of the current stream head" ∷ [], none)

    -- A request whose cursor is the largest number stored in a well-formed table, when the queries of
    -- CursorStatus succeed: its stream starts from that number. Once every stored event is older
    -- than the cutoff and a Prune has run that no call fails and nobody interrupts, with rounds enough,
    -- the same request is refused with FutureCursor, although the counter of the table is as before.
    pub prune-Refused :
        (fuel : ℕ) (db : Events)
        → IsWellFormed db
        → c ≡ max_seq db.rows
        → 0 < c
        → All (λ r. is_old cutoff r ≡ true) db.rows
        → count (is_old cutoff) db.rows < fuel
        → Refused fuel db
    prune-Refused fuel db wf caught_up p old enough =
        let none_left : (fresh cutoff db).rows ≡ [] =
          select-of_false (λ r. not (is_old cutoff r)) db.rows
            (All-imp _ _ db.rows (λ r k. rw k) old) in
        record {
          served =
              resolve_since-by_state db
              ∙ ap (λ st. by_state f db (pos c) st)
                  (ap (λ n. cursor_status none none db (pos n)) caught_up ∙ head-cursor_ok db);
          left = fresh cutoff db;
          pruned =
              prune-exact rounds cutoff size quiet pos_size fuel db wf enough
              ∙ ap
                  (λ rows. some (
                    (count (is_old cutoff) db.rows, or_zero (min_seq? rows), none),
                    fresh cutoff db,
                  ))
                  none_left
              ∙ floor_of_none (count (is_old cutoff) db.rows) (fresh cutoff db);
          counter = refl;
          refused =
              resolve_since-by_state (fresh cutoff db)
              ∙ ap (λ st. by_state f (fresh cutoff db) (pos c) st)
                  (empty-cursor_future (fresh cutoff db) c none_left p);
        }
