-- ===== src/Store/Prune/First.antt =====
-- A database that serves `LIMIT` in the order of the row numbers picks as documented.
use labeler_relay.Prelude.{
  ℕ, ◌+◌, ◌-◌, ◌<◌, ◌≡◌, ap, Bool, true, false, ◌&&◌, List, [], ◌∷◌, min, arith, ltb, ℤ, length,
  count, All, All-imp, select-of_false, select-All_cong, select-cong, IsAscending,
}
use labeler_relay.Store.Events.{Row}
use labeler_relay.Store.Events.Order.{seq_of}
use labeler_relay.Store.Prune.{is_old, is_picked}
use labeler_relay.Store.Prune.Exact.{Limits}

-- The number of old rows before a number.
abbrev rank : ℤ → List Row → ℕ → ℕ
rank cutoff rows seq = count (λ r. is_old cutoff r && ltb r.relay_seq seq) rows

abbrev pub first_picked : ℕ → ℤ → List Row → ℕ → Bool
first_picked limit cutoff rows seq = ltb (rank cutoff rows seq) limit

-- The same with `k` old rows counted already.
abbrev picked_from : ℕ → ℕ → ℤ → List Row → Row → Bool
picked_from k limit cutoff rows r = is_old cutoff r && ltb (k + rank cutoff rows r.relay_seq) limit

rank_first :
    (cutoff : ℤ) (x : Row) (xs : List Row)
    → All (λ y. x.relay_seq < y.relay_seq) xs
    → rank cutoff (x ∷ xs) x.relay_seq ≡ 0
rank_first cutoff x xs h =
    let none_before =
      select-of_false (λ r. is_old cutoff r && ltb r.relay_seq x.relay_seq) xs
        (All-imp _ _ xs (λ y k. ground arith) h) in
    ground (arith, none_before)

abbrev one_if : Bool → ℕ
one_if true = 1
one_if false = 0

picked_later :
    (k limit : ℕ) (cutoff : ℤ) (x : Row) (xs ys : List Row)
    → All (λ y. x.relay_seq < y.relay_seq) ys
    → All
        (λ y.
          picked_from k limit cutoff (x ∷ xs) y
          ≡ picked_from (k + one_if (is_old cutoff x)) limit cutoff xs y)
        ys
picked_later k limit cutoff x xs [] h = tt
picked_later k limit cutoff x xs (y ∷ ys) h =
    (ground arith, picked_later k limit cutoff x xs ys h.1)

count-picked_from :
    (k limit : ℕ) (cutoff : ℤ) (xs : List Row)
    → IsAscending seq_of xs
    → count (picked_from k limit cutoff xs) xs ≡ min (limit - k) (count (is_old cutoff) xs)
count-picked_from k limit cutoff [] h = omega arith
count-picked_from k limit cutoff (x ∷ xs) h =
    let rest = select-All_cong _ _ xs (picked_later k limit cutoff x xs xs h.0) in
    let ih = count-picked_from (k + one_if (is_old cutoff x)) limit cutoff xs h.1 in
    let zero_rank = rank_first cutoff x xs h.0 in ground (arith, rest, ih, zero_rank)

pub first_picked-Limits : (limit : ℕ) (cutoff : ℤ) → Limits limit cutoff (first_picked limit cutoff)
first_picked-Limits limit cutoff rows h =
    let same = ap length (
      select-cong (is_picked (first_picked limit cutoff) cutoff rows)
        (picked_from 0 limit cutoff rows) rows (λ r. ground arith)) in
    omega (arith, same, count-picked_from 0 limit cutoff rows h)
