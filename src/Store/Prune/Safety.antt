-- ===== src/Store/Prune/Safety.antt =====
-- What Prune keeps whatever happens: faults, a cancelled context, writers between two rounds.
use labeler_relay.Prelude.{
  ℕ, zero, suc, ◌+◌, ◌≤◌, ◌≡◌, refl, Bool, some, List, arith, ℤ, Fault, All-select_of,
  IsAscending-select,
}
use labeler_relay.Store.Events.{Row, Events}
use labeler_relay.Store.Events.Order.{seq_of, IsWellFormed}
use labeler_relay.Store.Prune.{PruneRound, prune_batch, prune_loop}

pub prune_batch-IsWellFormed :
    (pick : List Row → ℕ → Bool) (cutoff : ℤ) (db : Events)
    → IsWellFormed db
    → IsWellFormed (prune_batch pick cutoff db).0
unfolding prune_batch
prune_batch-IsWellFormed pick cutoff db h = record {
  ascending = IsAscending-select seq_of _ db.rows h.ascending;
  bounded = All-select_of _ _ db.rows h.bounded;
  positive = All-select_of _ _ db.rows h.positive;
}

pub last_seq-prune_batch :
    (pick : List Row → ℕ → Bool) (cutoff : ℤ) (db : Events)
    → (prune_batch pick cutoff db).0.last_seq ≡ db.last_seq
unfolding prune_batch
last_seq-prune_batch pick cutoff db = refl

-- A table that comes later: its counter has not gone back.
pub record Later (db db' : Events) : Type 0 where
  pub well_formed : IsWellFormed db'
  pub counter : db.last_seq ≤ db'.last_seq

pub Later-trans : {a b c : Events} → Later a b → Later b c → Later a c
Later-trans h k = record { well_formed = k.well_formed; counter = omega arith }

-- Whatever fails, and whatever the other transactions do that themselves keep the table well
-- formed and its counter from going back, the loop of Prune leaves a well-formed table whose
-- counter has not gone back: no number is given out twice.
pub prune_loop-Later :
    (rounds : ℕ → PruneRound) (cutoff : ℤ) (size : ℕ)
    → ((i : ℕ) (db : Events) → IsWellFormed db → Later db ((rounds i).meanwhile db))
    → (fuel i deleted : ℕ) (db : Events) → IsWellFormed db
    → (d : ℕ) (e : Fault) (db' : Events)
    → prune_loop rounds cutoff size fuel i deleted db ≡ some (d, e, db')
    → Later db db'
unfolding prune_loop
prune_loop-Later rounds cutoff size others zero i deleted db h d e db' p = cc
prune_loop-Later rounds cutoff size others (suc fuel) i deleted db h d e db' p =
    let (db1, n) = prune_batch (rounds i).pick cutoff db in
    let first : Later db db1 = record {
      well_formed = prune_batch-IsWellFormed (rounds i).pick cutoff db h;
      counter = omega (arith, last_seq-prune_batch (rounds i).pick cutoff db);
    } in
    let second = Later-trans first (others i db1 first.well_formed) in
    let none_yet : Later db db = record { well_formed = h; counter = omega arith } in
    ground (
      arith,
      none_yet,
      first,
      λ (q : prune_loop rounds cutoff size fuel (suc i) (deleted + n) ((rounds i).meanwhile db1)
            ≡ some (d, e, db')).
          Later-trans second (
            prune_loop-Later rounds cutoff size others fuel (suc i) (deleted + n)
              ((rounds i).meanwhile db1) second.well_formed d e db' q),
    )
