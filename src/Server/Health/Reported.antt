-- ===== src/Server/Health/Reported.antt =====
-- The health endpoint's numbers against the tables.
use labeler_relay.Prelude.{
  ℕ, suc, ◌≤◌, ◌≡◌, ◌≢◌, ◌↔◌, ◌⊎◌, refl, sym, ap, ◌∙◌, subst, true, ◌==◌, none, some, List, [], ◌∷◌,
  ℤ, length, any, All, All-and, arith, All-imp, min,
}
use labeler_relay.Store.Events.{Row, Events}
use labeler_relay.Store.Playback.{head, max_seq, min_seq?, or_zero}
use labeler_relay.Store.Playback
use labeler_relay.Store.Registry.{Labeler, Registry}
use labeler_relay.Store.Listing.{list, insert_by_did, order_by_did}
use labeler_relay.Server.Health.{HealthResponse, HealthFaults, handle_health}

max_seq-bound : (rows : List Row) → All (λ r. r.relay_seq ≤ max_seq rows) rows
unfolding max_seq
max_seq-bound [] = tt
max_seq-bound (r ∷ rs) = (omega arith, All-imp _ _ rs (λ x h. omega arith) (max_seq-bound rs))

max_seq-stored :
    (r : Row) (rs : List Row) → any (λ x. x.relay_seq == max_seq (r ∷ rs)) (r ∷ rs) ≡ true
unfolding max_seq
max_seq-stored r [] = ground arith
max_seq-stored r (x ∷ xs) = ground (arith, max_seq-stored x xs)

-- The smallest number is a row's, and no row has a smaller one.
min_seq?-least :
    (r : Row) (rs : List Row)
    → (m : ℕ) × (min_seq? (r ∷ rs) ≡ some m)
      × All (λ x. m ≤ x.relay_seq) (r ∷ rs)
      × (any (λ x. x.relay_seq == m) (r ∷ rs) ≡ true)
unfolding min_seq?
min_seq?-least r [] = (r.relay_seq, refl, (omega arith, tt), ground arith)
min_seq?-least r (x ∷ xs) =
    let (m, e, h, k) = min_seq?-least x xs in
    (
      min r.relay_seq m,
      rw e refl,
      (omega arith, All-imp _ _ (x ∷ xs) (λ y q. omega arith) h),
      ground (arith, k),
    )

length-insert_by_did :
    (l : Labeler) (ls : List Labeler) → length (insert_by_did l ls) ≡ suc (length ls)
unfolding insert_by_did
length-insert_by_did l [] = refl
length-insert_by_did l (x ∷ xs) = ground (arith, length-insert_by_did l xs)

length-order_by_did : (ls : List Labeler) → length (order_by_did ls) ≡ length ls
unfolding order_by_did
length-order_by_did [] = refl
length-order_by_did (l ∷ ls) =
    length-insert_by_did l (order_by_did ls) ∙ ap suc (length-order_by_did ls)

-- Head and floor are the numbers of rows, and each row's number lies between them; both are 0 over no row.
abbrev pub Bounds : List Row → ℕ → ℕ → Type 0
Bounds [] floor head = (floor ≡ 0) × (head ≡ 0)
Bounds (r ∷ rs) floor head =
    All (λ x. (floor ≤ x.relay_seq) × (x.relay_seq ≤ head)) (r ∷ rs)
    × (any (λ x. x.relay_seq == floor) (r ∷ rs) ≡ true)
    × (any (λ x. x.relay_seq == head) (r ∷ rs) ≡ true)

floor_head-Bounds : (rows : List Row) → Bounds rows (or_zero (min_seq? rows)) (max_seq rows)
unfolding min_seq? max_seq
floor_head-Bounds [] = (refl, refl)
floor_head-Bounds (r ∷ rs) =
    let (m, e, h, k) = min_seq?-least r rs in
    subst (λ o. Bounds (r ∷ rs) (or_zero o) (max_seq (r ∷ rs))) (sym e)
      (All-and _ _ (r ∷ rs) h (max_seq-bound (r ∷ rs)), k, max_seq-stored r rs)

abbrev pub quiet : HealthFaults
quiet = record { head_query = none; floor_query = none; list_query = none }

-- When no read fails, the health endpoint answers with the number of labelers, disabled ones too, the
-- configured window, and a floor and a head that are the numbers of stored events and between which
-- the number of each stored event lies; over no event both are 0.
pub handle_health-Bounds :
    (window : ℤ) (db : Events) (reg : Registry)
    → (r : HealthResponse) × (handle_health quiet window db reg ≡ some r)
      × Bounds db.rows r.retention_floor r.head_seq
      × (r.labeler_count ≡ length reg)
      × (r.retention_window_seconds ≡ window)
unfolding handle_health Playback.head Playback.retention_floor list
handle_health-Bounds window db reg = (
  record {
    head_seq = max_seq db.rows;
    labeler_count = length (order_by_did reg);
    retention_floor = or_zero (min_seq? db.rows);
    retention_window_seconds = window;
  },
  refl,
  floor_head-Bounds db.rows,
  length-order_by_did reg,
  refl,
)

-- The health endpoint answers with an error exactly when one of its three reads fails.
pub handle_health-fails :
    (f : HealthFaults) (window : ℤ) (db : Events) (reg : Registry)
    → (handle_health f window db reg ≡ none)
      ↔ ((f.head_query ≢ none) ⊎ (f.floor_query ≢ none) ⊎ (f.list_query ≢ none))
unfolding handle_health Playback.head Playback.retention_floor list
handle_health-fails f window db reg = ground arith
