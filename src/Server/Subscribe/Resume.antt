-- ===== src/Server/Subscribe/Resume.antt =====
-- Where the stream of a subscriber starts.
use labeler_relay.Prelude.{
  ℕ, zero, suc, ◌≤◌, ◌≡◌, refl, inl, inr, String, Bool, true, false, none, some, List, [], ◌∷◌, ℤ,
  pos, past, Result, ok, err, arith, str_eq, ltb_ℤ, ◌-ℤ◌, All, Option-cases, Bool-cases,
  Result-cases, if◌then◌else◌, Fault, subst, negsuc,
}
use labeler_relay.Store.Events.{Row, Events, Bytes}
use labeler_relay.Store.Events.Order.{IsWellFormed}
use labeler_relay.Store.Playback.{
  head, max_seq, retention_floor, min_seq?, or_zero, cursor_status, classify, CursorState,
  cursor_ok, cursor_future, cursor_outdated,
}
use labeler_relay.Server.Subscribe.{
  StartFaults, from_head, from_floor, by_state, with_cursor, resolve_since,
}

max_seq-bound : (rows : List Row) (n : ℕ) → All (λ r. r.relay_seq ≤ n) rows → max_seq rows ≤ n
unfolding max_seq
max_seq-bound [] n a = omega arith
max_seq-bound (r ∷ rs) n a = ground (arith, max_seq-bound rs n a.1)

min_seq-bound :
    (rows : List Row) (n : ℕ) → All (λ r. r.relay_seq ≤ n) rows → or_zero (min_seq? rows) ≤ n
unfolding min_seq?
min_seq-bound [] n a = omega arith
min_seq-bound (r ∷ rs) n a = elim (Option-cases (min_seq? rs)) [
  | inl q ↦ rw q a.0
  | inr (m, q) ↦ rw q (omega (arith, a.0))
]

some_injective : {A : Type 0} {a b : A} → some a ≡ some b → a ≡ b
some_injective h = cc

before_floor : (floor n : ℕ) → floor ≤ n → past (pos floor -ℤ pos 1) (suc n) ≡ true
before_floor zero n h = ground arith
before_floor (suc floor) n h = ground arith

from_head-joins :
    (n : ℕ) (since : ℤ) (r : Result ℕ)
    → ((h : ℕ) → r ≡ ok h → h ≤ n)
    → (from_head r).1 ≡ some since
    → past since (suc n) ≡ true
from_head-joins n since (err e) k q = cc
from_head-joins n since (ok h) k q =
    subst (λ c. past c (suc n) ≡ true) (some_injective q) (ground (arith, k h refl))

from_floor-joins :
    (n : ℕ) (since : ℤ) (fails : Bool) (body : Result Bytes) (r : Result ℕ)
    → ((h : ℕ) → r ≡ ok h → h ≤ n)
    → (from_floor fails body r).1 ≡ some since
    → past since (suc n) ≡ true
from_floor-joins n since fails body (err e) k q = cc
from_floor-joins n since fails (err e) (ok h) k q = cc
from_floor-joins n since true (ok body) (ok h) k q = cc
from_floor-joins n since false (ok body) (ok h) k q =
    subst (λ c. past c (suc n) ≡ true) (some_injective q) (before_floor h n (k h refl))

head-bound :
    (f : Fault) (db : Events) → IsWellFormed db → (h : ℕ) → head f db ≡ ok h → h ≤ db.last_seq
unfolding head
head-bound none db w h q = ground (arith, max_seq-bound db.rows db.last_seq w.bounded)
head-bound (some e) db w h q = cc

floor-bound :
    (f : Fault) (db : Events)
    → IsWellFormed db
    → (h : ℕ) → retention_floor f db ≡ ok h
    → h ≤ db.last_seq
unfolding retention_floor
floor-bound none db w h q = ground (arith, min_seq-bound db.rows db.last_seq w.bounded)
floor-bound (some e) db w h q = cc

not_future : (c : ℤ) (n : ℕ) → ltb_ℤ (pos n) c ≡ false → (m : ℕ) → n ≤ m → past c (suc m) ≡ true
not_future (pos c) n h m k = ground arith
not_future (negsuc c) n h m k = ground arith

-- A cursor that CursorStatus accepts is not past the counter.
accepted-bound :
    (f g : Fault) (db : Events) (c : ℤ)
    → IsWellFormed db
    → cursor_status f g db c ≡ ok cursor_ok
    → past c (suc db.last_seq) ≡ true
unfolding cursor_status head classify
accepted-bound (some e) g db c w q = cc
accepted-bound none g db c w q = elim (Bool-cases (ltb_ℤ (pos (max_seq db.rows)) c)) [
  | inl future ↦ elim (Result-cases (retention_floor g db)) [
    | inl (floor, r) ↦ ground (arith, future, r, q)
    | inr (e, r) ↦ ground (arith, r, q)
  ]
  | inr below ↦
      not_future c (max_seq db.rows) below db.last_seq (max_seq-bound db.rows db.last_seq w.bounded)
]

by_state-joins :
    (f : StartFaults) (db : Events) (c since : ℤ) (st : Result CursorState)
    → IsWellFormed db
    → (st ≡ ok cursor_ok → past c (suc db.last_seq) ≡ true)
    → (by_state f db c st).1 ≡ some since
    → past since (suc db.last_seq) ≡ true
by_state-joins f db c since (err e) w k q = cc
by_state-joins f db c since (ok cursor_future) w k q = cc
by_state-joins f db c since (ok cursor_outdated) w k q =
    from_floor-joins db.last_seq since f.info_write_fails f.info_body
      (retention_floor f.resume_floor db) (floor-bound f.resume_floor db w) q
by_state-joins f db c since (ok cursor_ok) w k q =
    subst (λ c. past c (suc db.last_seq) ≡ true) (some_injective q) (k refl)

with_cursor-joins :
    (f : StartFaults) (db : Events) (since : ℤ) (r : Result ℤ)
    → IsWellFormed db
    → (with_cursor f db r).1 ≡ some since
    → past since (suc db.last_seq) ≡ true
with_cursor-joins f db since (err e) w q = cc
with_cursor-joins f db since (ok c) w q =
    by_state-joins f db c since (cursor_status f.status_head f.status_floor db c) w
      (accepted-bound f.status_head f.status_floor db c w) q

-- Whenever the handler goes on to stream, it has `since` below the number that the next event will
-- have: the condition on which what StreamFrom sends is what was stored and committed past `since`.
pub resolve_since-joins :
    (parse_int : String → Result ℤ) (f : StartFaults) (db : Events) (cursor : String) (since : ℤ)
    → IsWellFormed db
    → (resolve_since parse_int f db cursor).1 ≡ some since
    → past since (suc db.last_seq) ≡ true
unfolding resolve_since
resolve_since-joins parse_int f db cursor since w =
    elim (str_eq cursor "")
      as (λ b.
        (if b then from_head (head f.live_head db) else with_cursor f db (parse_int cursor)).1
          ≡ some since
        → past since (suc db.last_seq) ≡ true) [
          | true ↦
              from_head-joins db.last_seq since (head f.live_head db) (head-bound f.live_head db w)
          | false ↦ with_cursor-joins f db since (parse_int cursor) w
        ]
