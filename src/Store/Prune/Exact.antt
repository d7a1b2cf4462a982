-- ===== src/Store/Prune/Exact.antt =====
-- What a whole Prune removes, when nothing fails and nobody writes in between.
use labeler_relay.Prelude.{
  ℕ, zero, suc, ◌+◌, ◌<◌, ◌≡◌, Bool, not, none, some, List, min, arith, ltb, ltb→lt, ltb→le,
  Bool-cases, inl, inr, ℤ, select, count, count_rest, select_rest, select_all_both, IsAscending,
  IsAscending-select,
}
use labeler_relay.Store.Events.{Row, Events}
use labeler_relay.Store.Events.Order.{seq_of, IsWellFormed}
use labeler_relay.Store.Playback.{retention_floor, min_seq?, or_zero}
use labeler_relay.Store.Prune.{PruneRound, is_old, is_picked, prune_batch, prune_loop, prune}

-- What SQLite documents of `LIMIT size`: that many of the old rows, or all if there are fewer.
abbrev pub Limits : ℕ → ℤ → (List Row → ℕ → Bool) → Type 0
Limits size cutoff pick =
    (rows : List Row)
    → IsAscending seq_of rows
    → count (is_picked pick cutoff rows) rows ≡ min size (count (is_old cutoff) rows)

-- A round in which no call fails and no other transaction comes in between.
pub record IsQuiet (size : ℕ) (cutoff : ℤ) (r : PruneRound) : Type 0 where
  pub no_cancel : r.context_error ≡ none
  pub no_exec : r.exec ≡ none
  pub no_affected : r.rows_affected ≡ none
  pub limits : Limits size cutoff r.pick
  pub alone : (db : Events) → r.meanwhile db ≡ db

-- The table without its old rows.
abbrev pub fresh : ℤ → Events → Events
fresh cutoff db = record db { rows = select (λ r. not (is_old cutoff r)) db.rows }

module _ (rounds : ℕ → PruneRound) (cutoff : ℤ) (size : ℕ)
    (quiet : (i : ℕ) → IsQuiet size cutoff (rounds i)) (pos_size : 0 < size) where
  after : ℕ → Events → Events
  unfolding prune_batch
  after i db = (prune_batch (rounds i).pick cutoff db).0

  after-IsAscending :
      (i : ℕ) (db : Events) → IsAscending seq_of db.rows → IsAscending seq_of (after i db).rows
  unfolding after
  after-IsAscending i db h = IsAscending-select seq_of _ db.rows h

  prune_loop-exact :
      (fuel i deleted : ℕ) (db : Events)
      → IsAscending seq_of db.rows
      → count (is_old cutoff) db.rows < fuel
      → prune_loop rounds cutoff size fuel i deleted db
        ≡ some (deleted + count (is_old cutoff) db.rows, none, fresh cutoff db)
  unfolding prune_loop prune_batch after
  prune_loop-exact zero i deleted db asc h = absurd (omega arith)
  prune_loop-exact (suc fuel) i deleted db asc h =
      let q = quiet i in
      let old = is_old cutoff in
      let picked = (rounds i).pick db.rows in
      let lim = q.limits db.rows asc in
      let left = count_rest old (λ r. picked r.relay_seq) db.rows in
      let still = select_rest old (λ r. picked r.relay_seq) db.rows in
      elim (Bool-cases (ltb (count (is_picked (rounds i).pick cutoff db.rows) db.rows) size)) [
        | inl last ↦
            let same =
              select_all_both old (λ r. picked r.relay_seq) db.rows
                (omega (arith, lim, ltb→lt _ _ last)) in
            ground (arith, q.no_cancel, q.no_exec, q.no_affected, same)
        | inr more ↦ ground (
          arith,
          q.no_cancel,
          q.no_exec,
          q.no_affected,
          q.alone (after i db),
          prune_loop-exact fuel (suc i)
              (deleted + count (is_picked (rounds i).pick cutoff db.rows) db.rows) (after i db)
              (after-IsAscending i db asc) (omega (arith, lim, left, ltb→le _ _ more)),
          still,
          left,
        )
      ]

  -- A Prune that no call fails and nobody interrupts, with rounds enough for every old row, ends
  -- without an error: it removes exactly the rows older than the cutoff, reports how many they
  -- were, and returns the floor of the rows that are left.
  pub prune-exact :
      (fuel : ℕ) (db : Events)
      → IsWellFormed db
      → count (is_old cutoff) db.rows < fuel
      → prune rounds none size cutoff fuel db
        ≡ some (
          (count (is_old cutoff) db.rows, or_zero (min_seq? (fresh cutoff db).rows), none),
          fresh cutoff db,
        )
  unfolding prune retention_floor
  prune-exact fuel db h enough = ground (arith, prune_loop-exact fuel 0 0 db h.ascending enough)
