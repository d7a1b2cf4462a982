-- ===== src/Store/Listing/Rows.antt =====
-- The rows that the listings of the registry have.
use labeler_relay.Prelude.{
  ◌≡◌, refl, sym, ap, ◌∙◌, String, false, Option, none, some, List, [], ◌∷◌, arith, if◌then◌else◌,
  str_eq, eq_iff, Bool-cases, inl, inr, select,
}
use labeler_relay.Store.Registry.{Labeler, find}
use labeler_relay.Store.Registry.Keys.{IsKeyed, select-absent}
use labeler_relay.Store.Listing.{comes_first, insert_by_did, order_by_did}

-- The sort keeps each row under its key.
find-insert_by_did :
    (j : String) (l : Labeler) (ls : List Labeler)
    → find l.did ls ≡ none
    → find j (insert_by_did l ls) ≡ (if str_eq l.did j then some l else find j ls)
unfolding find insert_by_did
find-insert_by_did j l [] h = refl
find-insert_by_did j l (x ∷ xs) h = elim (Bool-cases (str_eq x.did l.did)) [
  | inl q ↦ absurd (ground (arith, h, q))
  | inr q ↦
      let there : find l.did xs ≡ none = ground (arith, h, q) in
      let rest = find-insert_by_did j l xs there in
      elim (Bool-cases (comes_first x.did l.did)) [
        | inl b ↦ rw b (ground (arith, rest, q, eq_iff x.did l.did, eq_iff x.did j, eq_iff l.did j))
        | inr b ↦ rw b refl
      ]
]

insert_by_did-IsKeyed :
    (l : Labeler) (ls : List Labeler)
    → find l.did ls ≡ none
    → IsKeyed ls
    → IsKeyed (insert_by_did l ls)
unfolding find insert_by_did
insert_by_did-IsKeyed l [] a h = (refl, tt)
insert_by_did-IsKeyed l (x ∷ xs) a h = elim (Bool-cases (str_eq x.did l.did)) [
  | inl q ↦ absurd (ground (arith, a, q))
  | inr q ↦
      let there : find l.did xs ≡ none = ground (arith, a, q) in
      let other : str_eq l.did x.did ≡ false =
        ground (arith, q, eq_iff x.did l.did, eq_iff l.did x.did) in
      let placed = find-insert_by_did x.did l xs there in
      elim (Bool-cases (comes_first x.did l.did)) [
        | inl b ↦ rw b (placed ∙ ground (arith, other, h.0), insert_by_did-IsKeyed l xs there h.1)
        | inr b ↦ rw b (a, h)
      ]
]

pub find-order_by_did :
    (j : String) (ls : List Labeler) → IsKeyed ls → find j (order_by_did ls) ≡ find j ls
unfolding find order_by_did
find-order_by_did j [] h = refl
find-order_by_did j (l ∷ ls) h =
    find-insert_by_did j l (order_by_did ls) (find-order_by_did l.did ls h.1 ∙ h.0)
    ∙ ap (λ o. if str_eq l.did j then some l else o) (find-order_by_did j ls h.1)

pub order_by_did-IsKeyed : (ls : List Labeler) → IsKeyed ls → IsKeyed (order_by_did ls)
unfolding order_by_did
order_by_did-IsKeyed [] h = tt
order_by_did-IsKeyed (l ∷ ls) h =
    insert_by_did-IsKeyed l (order_by_did ls) (find-order_by_did l.did ls h.1 ∙ h.0)
      (order_by_did-IsKeyed ls h.1)

-- The row of a labeler, if it is enabled.
abbrev pub enabled_row : Option Labeler → Option Labeler
enabled_row none = none
enabled_row (some l) = if l.enabled then some l else none

pub find-enabled_row :
    (j : String) (ls : List Labeler)
    → IsKeyed ls
    → find j (select (λ l. l.enabled) ls) ≡ enabled_row (find j ls)
unfolding find
find-enabled_row j [] h = refl
find-enabled_row j (l ∷ ls) h =
    let rest = find-enabled_row j ls h.1 in
    let absent = select-absent (λ x. x.enabled) l.did ls h.0 in
    elim (Bool-cases l.enabled) [
      | inl e ↦ elim (Bool-cases (str_eq l.did j)) [
        | inl q ↦ ground (arith, e, q)
        | inr q ↦ ground (arith, e, q, rest)
      ]
      | inr e ↦ elim (Bool-cases (str_eq l.did j)) [
        | inl q ↦
            let same : find j (select (λ x. x.enabled) ls) ≡ none =
              ap (λ d. find d (select (λ x. x.enabled) ls)) (sym ((eq_iff l.did j).0 q)) ∙ absent in
            ground (arith, e, q, same)
        | inr q ↦ ground (arith, e, q, rest)
      ]
    ]
