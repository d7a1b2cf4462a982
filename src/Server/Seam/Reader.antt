-- ===== src/Server/Seam/Reader.antt =====
-- The steps of StreamFrom's goroutine and of its drainer keep the invariant.
use mathlib.Core.List.{map-append}
use labeler_relay.Prelude.{
  ℕ, zero, suc, ◌≡◌, refl, ap, sym, ◌∙◌, Bool, true, false, not, List, [], ◌∷◌, ◌++◌, map, arith, ℤ,
  past, Result, ok, err, All, select-append, take, drop, take-append-drop, if◌then◌else◌, ◌==◌,
}
use labeler_relay.Store.Events.{Row, LiveEvent, to_live}
use labeler_relay.Store.Playback.{rows_after, head}
use labeler_relay.Store.Playback.Exact.{query-IsWellFormed}
use labeler_relay.Server.Seam.{
  System, Loop, backfill, seam, straggler, Phase, at, reading, ReaderEnv, failed, finish, leave,
  after_chunk, start_chunk, begin_loop, after_head, gap_exceeds,
}
use labeler_relay.Server.Seam.Invariant.{
  beyond, View, Backfilling, Covered, Snapshot, LastLoop, PhaseInv, view, Inv,
}

-- The part of the invariant that does not speak of the phase, for a system that differs in the
-- phase alone.
abbrev pub at_phase : System → Phase → System
at_phase s p = record s { phase = p }

pub move-Inv :
    (since : ℤ) (s : System) (p : Phase)
    → (h : Inv since s) → PhaseInv p (view s (s.live.buffer ++ h.lost))
    → Inv since (at_phase s p)
move-Inv since s p h k = record {
  well_formed = h.well_formed;
  ascending = h.ascending;
  minted = h.minted;
  ahead = h.ahead;
  cursor_ahead = h.cursor_ahead;
  since_ahead = h.since_ahead;
  exactly_once = h.exactly_once;
  before = h.before;
  lost = h.lost;
  held = h.held;
  open_lost = h.open_lost;
  phase = k;
}

pub finish-Inv : (since : ℤ) (s : System) → Inv since s → Inv since (finish s)
finish-Inv since s h = record {
  well_formed = h.well_formed;
  ascending = h.ascending;
  minted = h.minted;
  ahead = h.ahead;
  cursor_ahead = h.cursor_ahead;
  since_ahead = h.since_ahead;
  exactly_once = h.exactly_once;
  before = h.before;
  lost = h.lost;
  held = h.held;
  open_lost = λ o. cc;
  phase = tt;
}

pub self :
    (c : ℤ) (xs : List LiveEvent)
    → All (λ e. past c e.relay_seq ≡ true → past c e.relay_seq ≡ true) xs
self c [] = tt
self c (x ∷ xs) = ((λ h. h), self c xs)

-- Where a loop goes on from an exhausted chunk: the next phase has what it needs.
leave-PhaseInv : (l : Loop) (v : View) → Backfilling v → LastLoop l [] zero v → PhaseInv (leave l) v
leave-PhaseInv backfill v b h = b
leave-PhaseInv seam v b h = b
leave-PhaseInv straggler v b h = record {
  stopped = h.0;
  covered = rw (← b.at_sent) h.1;
  unsent = rw (← b.at_sent) (self v.cursor v.waiting);
  monotone = λ n k. rw b.at_sent k;
}

pub if-Inv :
    (since : ℤ) (b : Bool) (s t : System)
    → (b ≡ true → Inv since s)
    → (b ≡ false → Inv since t)
    → Inv since (if b then s else t)
if-Inv since true s t h k = h refl
if-Inv since false s t h k = k refl

at-PhaseInv :
    (l : Loop) (n : ℕ) (v : View) → Backfilling v → LastLoop l [] (suc n) v → PhaseInv (at l) v
at-PhaseInv backfill n v b h = b
at-PhaseInv seam n v b h = b
at-PhaseInv straggler n v b h = (b, h)

module _ (since : ℤ) (s : System) (running : s.cancelled ≡ false) (h : Inv since s) where
  abbrev pub now : View
  now = view s (s.live.buffer ++ h.lost)

  pub after_chunk-Inv :
      (l : Loop) (n : ℕ) (fails : Bool)
      → Backfilling now
      → (fails ≡ false → LastLoop l [] n now)
      → Inv since (after_chunk l n fails s)
  unfolding after_chunk
  after_chunk-Inv l n true b k =
      if-Inv since (not s.cancelled) _ _ (λ q. finish-Inv since s h) (λ q. absurd (ground arith))
  after_chunk-Inv l zero false b k = move-Inv since s (leave l) h (leave-PhaseInv l now b (k refl))
  after_chunk-Inv l (suc n) false b k =
      if-Inv since (suc n == 0) _ _ (λ q. absurd (ground arith))
        (λ q. move-Inv since s (at l) h (at-PhaseInv l n now b (k refl)))

  -- The chunk that a query returns.
  abbrev chunk : ℕ → List Row
  chunk size = take size (rows_after s.cursor s.db.rows)

  chunk-Snapshot : (size : ℕ) → Backfilling now → Snapshot now (map to_live (chunk size))
  chunk-Snapshot size b =
      let all = rows_after s.cursor s.db.rows in
      (
        map to_live (drop size all),
        sym b.synced
            ∙ ap (map to_live) (sym (take-append-drop size all))
            ∙ map-append to_live (take size all) (drop size all),
      )

  unread_nil : (size : ℕ) (rows : List Row) → map to_live (take (suc size) rows) ≡ [] → rows ≡ []
  unread_nil size [] e = refl
  unread_nil size (r ∷ rs) e = cc

  -- Nothing unread, so nothing of what waits is past the cursor either.
  nothing-Covered : beyond s.cursor s.history ≡ [] → Covered now
  nothing-Covered e =
      e
      ∙ sym (
          nil_right _ _ (
            sym (select-append _ h.before (s.live.buffer ++ h.lost))
            ∙ ap (beyond s.cursor) (sym h.held)
            ∙ e))
    where
      nil_right : (xs ys : List LiveEvent) → xs ++ ys ≡ [] → ys ≡ []
      nil_right [] ys q = q
      nil_right (x ∷ xs) ys q = cc

  chunk-LastLoop :
      (l : Loop) (size : ℕ)
      → PhaseInv (at l) now
      → Backfilling now
      → (rest : List LiveEvent) → rest ≡ map to_live (chunk (suc size))
      → LastLoop l rest zero now
  chunk-LastLoop backfill size k b rest e = tt
  chunk-LastLoop seam size k b rest e = tt
  chunk-LastLoop straggler size k b (x ∷ xs) e = k.1
  chunk-LastLoop straggler size k b [] e = (
    k.1,
    nothing-Covered
        (sym b.synced ∙ ap (map to_live) (unread_nil size (rows_after s.cursor s.db.rows) (sym e))),
  )

  at-Backfilling : (l : Loop) → PhaseInv (at l) now → Backfilling now
  at-Backfilling backfill k = k
  at-Backfilling seam k = k
  at-Backfilling straggler k = k.0

  start_chunk-Inv :
      (env : ReaderEnv) (size : ℕ) (l : Loop)
      → PhaseInv (at l) now
      → Inv since (start_chunk env (suc size) l s)
  unfolding start_chunk
  start_chunk-Inv env size l k =
      let b = at-Backfilling l k in
      if-Inv since (failed env.query) _ _ (λ q. after_chunk-Inv l 0 true b (λ p. cc))
        (λ q. rw (query-IsWellFormed s.db s.cursor h.well_formed) (
          move-Inv since s (reading l (map to_live (chunk (suc size))) 0) h
            (b, chunk-Snapshot (suc size) b, chunk-LastLoop l size k b _ refl)))

  pub after_head-Inv :
      (env : ReaderEnv) (size : ℕ) (r : Result ℕ)
      → Backfilling now
      → Inv since (after_head env (suc size) r s)
  after_head-Inv env size (err m) b = finish-Inv since s h
  after_head-Inv env size (ok n) b =
      if-Inv since (gap_exceeds (suc size) n s.cursor) _ _
        (λ q. start_chunk-Inv env size backfill b) (λ q. move-Inv since s (at seam) h b)

  pub begin_loop-Inv :
      (env : ReaderEnv) (size : ℕ) (l : Loop)
      → PhaseInv (at l) now
      → Inv since (begin_loop env (suc size) l s)
  unfolding begin_loop
  begin_loop-Inv env size backfill k =
      if-Inv since s.cancelled _ _ (λ q. finish-Inv since s h)
        (λ q. after_head-Inv env size (head env.head_query s.db) k)
  begin_loop-Inv env size seam k =
      if-Inv since s.cancelled _ _ (λ q. finish-Inv since s h)
        (λ q. start_chunk-Inv env size seam k)
  begin_loop-Inv env size straggler k =
      if-Inv since s.cancelled _ _ (λ q. finish-Inv since s h)
        (λ q. start_chunk-Inv env size straggler k)
