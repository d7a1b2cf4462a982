-- ===== src/Server/Seam/Writer.antt =====
-- The writer's two steps keep the invariant of StreamFrom.
use mathlib.Core.List.{map-append}
use labeler_relay.Prelude.{
  ℕ, zero, suc, ◌<◌, ◌≡◌, refl, ap, sym, subst, ◌∙◌, true, false, none, some, List, [], ◌∷◌, ◌++◌,
  map, arith, append_assoc, append-nil, ℤ, past, past_trans, All, All-append, All-imp,
  All-select_of, IsAscending-append, select-append, ap, inl, inr, Option-cases, Result-cases,
  Bool-cases,
}
use labeler_relay.Store.Events.{
  Row, LiveEvent, IngestEvent, Encoders, IngestFaults, to_live, ingest_tx,
}
use labeler_relay.Store.Events.Order.{
  append_row, append_row-IsWellFormed, stored, ingest_tx-Committed,
}
use labeler_relay.Store.Playback.{rows_after}
use labeler_relay.Server.Channel.{Chan, has_room}
use labeler_relay.Server.Seam.{
  System, Loop, backfill, seam, straggler, Phase, at, reading, stopping, tailing, finished, sending,
  broadcast_step, broadcast_of, offer_live,
}
use labeler_relay.Server.Seam.Schedule.{commit_step, commit_of}
use labeler_relay.Server.Seam.Invariant.{
  live_seq, beyond, to_list, View, Backfilling, Covered, Snapshot, LastLoop, Tailing, Sending,
  PhaseInv, view, Inv,
}

pub beyond-snoc :
    (c : ℤ) (xs : List LiveEvent) (e : LiveEvent)
    → past c e.relay_seq ≡ true
    → beyond c (xs ++ e ∷ []) ≡ beyond c xs ++ e ∷ []
beyond-snoc c xs e h = select-append _ xs (e ∷ []) ∙ ap (◌++◌ (beyond c xs)) (rw h)

-- One event more, in the table, in the history and among those waiting.
abbrev grow : LiveEvent → View → View
grow e v = record v {
  unread = v.unread ++ e ∷ [];
  history = v.history ++ e ∷ [];
  waiting = v.waiting ++ e ∷ [];
}

module _ (e : LiveEvent) (v : View) (past_cursor : past v.cursor e.relay_seq ≡ true)
    (past_sent : past v.sent e.relay_seq ≡ true)
    (newest : All (λ x. x.relay_seq < e.relay_seq) v.history) where
  grow-Backfilling : Backfilling v → Backfilling (grow e v)
  grow-Backfilling b = record {
    at_sent = b.at_sent;
    synced = ap (λ xs. xs ++ e ∷ []) b.synced ∙ sym (beyond-snoc v.cursor v.history e past_cursor);
  }

  grow-Covered : Covered v → Covered (grow e v)
  grow-Covered c =
      beyond-snoc v.cursor v.history e past_cursor
      ∙ ap (λ xs. xs ++ e ∷ []) c
      ∙ sym (beyond-snoc v.cursor v.waiting e past_cursor)

  grow-LastLoop :
      (l : Loop) (rest : List LiveEvent) (n : ℕ)
      → LastLoop l rest n v
      → LastLoop l rest n (grow e v)
  grow-LastLoop backfill rest n h = tt
  grow-LastLoop seam rest n h = tt
  grow-LastLoop straggler rest (suc n) h = h
  grow-LastLoop straggler (x ∷ xs) zero h = h
  grow-LastLoop straggler [] zero h = (h.0, grow-Covered h.1)

  grow-Snapshot : (rest : List LiveEvent) → Snapshot v rest → Snapshot (grow e v) rest
  grow-Snapshot rest s = (
    s.0 ++ e ∷ [],
    beyond-snoc v.cursor v.history e past_cursor
        ∙ ap (λ xs. xs ++ e ∷ []) s.1
        ∙ append_assoc rest s.0 (e ∷ []),
  )

  grow-Tailing : Tailing v → Tailing (grow e v)
  grow-Tailing t = record {
    stopped = t.stopped;
    covered =
        beyond-snoc v.sent v.history e past_sent
        ∙ ap (λ xs. xs ++ e ∷ []) t.covered
        ∙ sym (beyond-snoc v.sent v.waiting e past_sent);
    unsent = All-append _ v.waiting (e ∷ []) t.unsent ((λ p. past_sent), tt);
    monotone = t.monotone;
  }

  grow-Sending : (x : LiveEvent) → Sending x v → Sending x (grow e v)
  grow-Sending x s = record {
    stopped = s.stopped;
    next = beyond-snoc v.sent v.history e past_sent ∙ ap (λ xs. xs ++ e ∷ []) s.next;
    new = s.new;
    later = All-append _ v.waiting (e ∷ []) s.later (
      (subst (All (λ y. y.relay_seq < e.relay_seq)) s.next (All-select_of _ _ v.history newest)).0,
      tt,
    );
  }

  grow-PhaseInv : (p : Phase) → PhaseInv p v → PhaseInv p (grow e v)
  grow-PhaseInv (at backfill) h = grow-Backfilling h
  grow-PhaseInv (at seam) h = grow-Backfilling h
  grow-PhaseInv (at straggler) h = (grow-Backfilling h.0, h.1)
  grow-PhaseInv (reading l rest n) h =
      (grow-Backfilling h.0, grow-Snapshot rest h.1, grow-LastLoop l rest n h.2)
  grow-PhaseInv stopping h = grow-Backfilling h
  grow-PhaseInv tailing h = grow-Tailing h
  grow-PhaseInv (sending x) h = grow-Sending x h
  grow-PhaseInv finished h = tt

-- The rows past the cursor, after one more row past it.
unread-append :
    (c : ℤ) (rows : List Row) (r : Row)
    → past c r.relay_seq ≡ true
    → map to_live (rows_after c (rows ++ r ∷ []))
      ≡ map to_live (rows_after c rows) ++ to_live r ∷ []
unread-append c rows r h =
    ap (map to_live) (select-append _ rows (r ∷ []) ∙ ap (◌++◌ (rows_after c rows)) (rw h))
    ∙ map-append to_live (rows_after c rows) (r ∷ [])

-- The system after a commit, with its invariant.
committed-Inv :
    (since : ℤ) (s : System) (r : Row)
    → s.pending ≡ none
    → r.relay_seq ≡ suc s.db.last_seq
    → Inv since s
    → Inv since (record s {
      db = append_row s.db r;
      pending = some (to_live r);
      history = s.history ++ to_live r ∷ [];
    })
committed-Inv since s r idle number h =
    let e = to_live r in
    let p_sent : past s.sent r.relay_seq ≡ true = rw number h.ahead in
    let p_cursor : past s.cursor r.relay_seq ≡ true = rw number h.cursor_ahead in
    let newest : All (λ x. x.relay_seq < r.relay_seq) s.history =
      All-imp _ _ s.history (λ x k. omega arith) h.minted in
    record {
      well_formed = append_row-IsWellFormed s.db r number h.well_formed;
      ascending = IsAscending-append live_seq s.history e h.ascending newest;
      minted =
          All-append _ s.history (e ∷ []) (All-imp _ _ s.history (λ x k. omega arith) h.minted)
            (omega arith, tt);
      ahead = past_trans s.sent (suc s.db.last_seq) (suc (suc s.db.last_seq)) h.ahead (omega arith);
      cursor_ahead =
          past_trans s.cursor (suc s.db.last_seq) (suc (suc s.db.last_seq)) h.cursor_ahead
            (omega arith);
      since_ahead =
          past_trans since (suc s.db.last_seq) (suc (suc s.db.last_seq)) h.since_ahead
            (omega arith);
      exactly_once =
          ap (◌++◌ s.out) (beyond-snoc s.sent s.history e p_sent)
          ∙ sym (append_assoc s.out (beyond s.sent s.history) (e ∷ []))
          ∙ ap (λ xs. xs ++ e ∷ []) h.exactly_once
          ∙ sym (beyond-snoc since s.history e (rw number h.since_ahead));
      before = h.before;
      lost = h.lost ++ e ∷ [];
      held =
          ap (λ xs. xs ++ e ∷ []) h.held
          ∙ append_assoc h.before (s.live.buffer ++ h.lost) (e ∷ [])
          ∙ ap (◌++◌ h.before) (append_assoc s.live.buffer h.lost (e ∷ []));
      open_lost = λ o. ap (λ xs. xs ++ e ∷ []) (h.open_lost o ∙ ap to_list idle);
      phase =
          subst (PhaseInv s.phase)
            (λ i. record (view s (s.live.buffer ++ h.lost)) {
              unread = sym (unread-append s.cursor s.db.rows r p_cursor) i;
              history = s.history ++ e ∷ [];
              waiting = append_assoc s.live.buffer h.lost (e ∷ []) i;
            })
            (grow-PhaseInv e (view s (s.live.buffer ++ h.lost)) p_cursor p_sent newest s.phase
              h.phase);
    }

commit_of-Inv :
    {Label Service : Type 0} (enc : Encoders Label Service) (f : IngestFaults) (now : ℤ)
    (e : IngestEvent Label Service) (since : ℤ) (s : System)
    → s.pending ≡ none
    → Inv since s
    → Inv since (commit_of none (ingest_tx enc f now e s.db) s)
commit_of-Inv enc f now e since s idle h = elim (Result-cases (ingest_tx enc f now e s.db)) [
  | inr (m, q) ↦ rw q h
  | inl ((le, db), q) ↦
      let c = ingest_tx-Committed enc f now e s.db le db h.well_formed q in
      rw (q, c.announced, c.appended)
        (committed-Inv since s (stored (suc s.db.last_seq) e now le.frame_cbor) idle refl h)
]

pub commit_step-Inv :
    {Label Service : Type 0} (enc : Encoders Label Service) (buf_size : ℕ) (f : IngestFaults)
    (now : ℤ) (e : IngestEvent Label Service) (since : ℤ) (s : System)
    → Inv since s
    → Inv since (commit_step enc buf_size f now e s)
unfolding commit_step
commit_step-Inv enc buf_size f now e since s h = elim (Option-cases s.pending) [
  | inr (le, busy) ↦
      subst (λ o. Inv since (commit_of o (ingest_tx enc f now e s.db) s)) (sym busy) h
  | inl idle ↦
      subst (λ o. Inv since (commit_of o (ingest_tx enc f now e s.db) s)) (sym idle)
        (commit_of-Inv enc f now e since s idle h)
]

-- The offer moves the event from the writer into the buffer, or closes the channel; what waits
-- stays the same.
record Offered (e : LiveEvent) (c : Chan LiveEvent) (lost : List LiveEvent) (c' : Chan LiveEvent)
    : Type 0 where
  lost' : List LiveEvent
  same : c'.buffer ++ lost' ≡ c.buffer ++ lost
  none_lost : c'.closed ≡ false → lost' ≡ []

offer_live-Offered :
    (e : LiveEvent) (c : Chan LiveEvent) (lost : List LiveEvent)
    → (c.closed ≡ false → lost ≡ e ∷ [])
    → Offered e c lost (offer_live e c)
unfolding offer_live
offer_live-Offered e c lost h = elim (Bool-cases c.closed) [
  | inl shut ↦ rw shut (record { lost' = lost; same = refl; none_lost = λ o. cc })
  | inr open_now ↦ elim (Bool-cases (has_room c)) [
    | inl room ↦
        rw (open_now, room)
          (record {
            lost' = [];
            same = append-nil (c.buffer ++ e ∷ []) ∙ ap (◌++◌ c.buffer) (sym (h open_now));
            none_lost = λ o. refl;
          })
    | inr full ↦ rw (open_now, full) (record { lost' = lost; same = refl; none_lost = λ o. cc })
  ]
]

offered-Inv :
    (since : ℤ) (s : System) (e : LiveEvent)
    → s.pending ≡ some e
    → Inv since s
    → Inv since (broadcast_of (some e) s)
offered-Inv since s e busy h =
    let o = offer_live-Offered e s.live h.lost (λ q. h.open_lost q ∙ ap to_list busy) in
    record {
      well_formed = h.well_formed;
      ascending = h.ascending;
      minted = h.minted;
      ahead = h.ahead;
      cursor_ahead = h.cursor_ahead;
      since_ahead = h.since_ahead;
      exactly_once = h.exactly_once;
      before = h.before;
      lost = o.lost';
      held = h.held ∙ ap (◌++◌ h.before) (sym o.same);
      open_lost = o.none_lost;
      phase = subst (λ w. PhaseInv s.phase (view s w)) (sym o.same) h.phase;
    }

pub broadcast_step-Inv : (since : ℤ) (s : System) → Inv since s → Inv since (broadcast_step s)
unfolding broadcast_step
broadcast_step-Inv since s h = elim (Option-cases s.pending) [
  | inl idle ↦ subst (λ o. Inv since (broadcast_of o s)) (sym idle) h
  | inr (e, busy) ↦
      subst (λ o. Inv since (broadcast_of o s)) (sym busy) (offered-Inv since s e busy h)
]
