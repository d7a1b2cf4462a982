-- ===== src/Server/Seam/Sends.antt =====
-- The steps that send an event, or take one from the live channel, keep the invariant.
use labeler_relay.Prelude.{
  ℕ, zero, suc, ◌≤◌, ◌≡◌, refl, ap, sym, subst, ◌∙◌, true, false, ◌||◌, List, [], ◌∷◌, ◌++◌, map,
  arith, append_assoc, ℤ, pos, past, past_trans, All, All-imp, All-select_of, IsAscending, lt→ltb,
  if◌then◌else◌, above-advance, above_behind, ltb→lt,
}
use labeler_relay.Store.Events.{Row, LiveEvent, to_live}
use labeler_relay.Store.Events.Order.{seq_of}
use labeler_relay.Store.Playback.{rows_after}
use labeler_relay.Server.Seam.{
  System, Loop, backfill, seam, straggler, reading, tailing, sending, ReaderEnv, failed, finish,
  gives_up, send, read_row,
}
use labeler_relay.Server.Seam.Invariant.{live_seq, beyond, View, LastLoop, PhaseInv, view, Inv}
use labeler_relay.Server.Seam.Reader.{finish-Inv, if-Inv, after_chunk-Inv}

-- The next event past `sent`, once it is sent.
record Sent (since : ℤ) (s : System) (e : LiveEvent) (rest : List LiveEvent) : Type 0 where
  ahead : past (pos e.relay_seq) (suc s.db.last_seq) ≡ true
  beyond_it : beyond (pos e.relay_seq) s.history ≡ rest
  exactly_once : (s.out ++ e ∷ []) ++ beyond (pos e.relay_seq) s.history ≡ beyond since s.history

next-Sent :
    (since : ℤ) (s : System) (e : LiveEvent) (rest : List LiveEvent)
    → Inv since s
    → beyond s.sent s.history ≡ e ∷ rest
    → Sent since s e rest
next-Sent since s e rest h q =
    let r = above-advance live_seq s.sent s.history e rest h.ascending q in
    let bound =
      (subst (All (λ x. x.relay_seq ≤ s.db.last_seq)) q (All-select_of _ _ s.history h.minted)).0 in
    record {
      ahead = lt→ltb e.relay_seq (suc s.db.last_seq) (omega (arith, bound));
      beyond_it = r;
      exactly_once =
          ap (◌++◌ (s.out ++ e ∷ [])) r
          ∙ append_assoc s.out (e ∷ []) rest
          ∙ ap (◌++◌ s.out) (sym q)
          ∙ h.exactly_once;
    }

-- A list of live events made of rows: its head is a row's, its tail the other rows'.
uncons_rows :
    (rows : List Row) (e : LiveEvent) (rest : List LiveEvent)
    → map to_live rows ≡ e ∷ rest
    → (r : Row) × (rs : List Row) × (rows ≡ r ∷ rs) × (to_live r ≡ e) × (map to_live rs ≡ rest)
uncons_rows [] e rest q = cc
uncons_rows (r ∷ rs) e rest q = (r, rs, refl, cc, cc)

unread-advance :
    (c : ℤ) (rows : List Row) (e : LiveEvent) (rest : List LiveEvent)
    → IsAscending seq_of rows
    → map to_live (rows_after c rows) ≡ e ∷ rest
    → map to_live (rows_after (pos e.relay_seq) rows) ≡ rest
unread-advance c rows e rest asc q =
    let (r, rs, split, same, tail) = uncons_rows (rows_after c rows) e rest q in
    rw (← same) (ap (map to_live) (above-advance seq_of c rows r rs asc split) ∙ tail)

advance-LastLoop :
    (l : Loop) (e : LiveEvent) (es : List LiveEvent) (n : ℕ) (v : View) (c : ℤ) (u : List LiveEvent)
    → LastLoop l (e ∷ es) n v
    → LastLoop l es (suc n) (record v { cursor = c; sent = c; unread = u })
advance-LastLoop backfill e es n v c u k = tt
advance-LastLoop seam e es n v c u k = tt
advance-LastLoop straggler e es zero v c u k = k
advance-LastLoop straggler e es (suc n) v c u k = k

module _ (since : ℤ) (s : System) (running : s.cancelled ≡ false) (h : Inv since s) where
  abbrev here : View
  here = view s (s.live.buffer ++ h.lost)

  row_sent-Inv :
      (l : Loop) (e : LiveEvent) (es : List LiveEvent) (n : ℕ)
      → PhaseInv (reading l (e ∷ es) n) here
      → Inv since (record (send e s) { cursor = pos e.relay_seq; phase = reading l es (suc n) })
  row_sent-Inv l e es n k =
      let (b, (tail, split), last) = k in
      let next : beyond s.sent s.history ≡ e ∷ (es ++ tail) = rw (← b.at_sent) split in
      let x = next-Sent since s e (es ++ tail) h next in
      let u =
        unread-advance s.cursor s.db.rows e (es ++ tail) h.well_formed.ascending
          (b.synced ∙ split) in
      record {
        well_formed = h.well_formed;
        ascending = h.ascending;
        minted = h.minted;
        ahead = x.ahead;
        cursor_ahead = x.ahead;
        since_ahead = h.since_ahead;
        exactly_once = x.exactly_once;
        before = h.before;
        lost = h.lost;
        held = h.held;
        open_lost = h.open_lost;
        phase = (
          record { at_sent = refl; synced = u ∙ sym x.beyond_it },
          (tail, x.beyond_it),
          advance-LastLoop l e es n here (pos e.relay_seq) _ last,
        );
      }

  pub read_row-Inv :
      (env : ReaderEnv) (l : Loop) (rest : List LiveEvent) (n : ℕ)
      → PhaseInv (reading l rest n) here
      → Inv since (read_row env l rest n s)
  unfolding read_row
  read_row-Inv env l [] n k = after_chunk-Inv since s running h l n (failed env.scan) k.0 (λ q. k.2)
  read_row-Inv env l (e ∷ es) n k =
      if-Inv since (failed env.scan || gives_up env s) _ _
        (λ q. after_chunk-Inv since s running h l n true k.0 (λ p. cc))
        (λ q. row_sent-Inv l e es n k)

  pub sending-Inv :
      (env : ReaderEnv) (e : LiveEvent)
      → PhaseInv (sending e) here
      → Inv since (if gives_up env s then finish s else record (send e s) { phase = tailing })
  sending-Inv env e k =
      let x = next-Sent since s e (s.live.buffer ++ h.lost) h k.next in
      if-Inv since (gives_up env s) _ _ (λ q. finish-Inv since s h)
        (λ q. record {
          well_formed = h.well_formed;
          ascending = h.ascending;
          minted = h.minted;
          ahead = x.ahead;
          cursor_ahead = h.cursor_ahead;
          since_ahead = h.since_ahead;
          exactly_once = x.exactly_once;
          before = h.before;
          lost = h.lost;
          held = h.held;
          open_lost = h.open_lost;
          phase = record {
            stopped = k.stopped;
            covered = x.beyond_it ∙ sym (above_behind live_seq e.relay_seq _ k.later);
            unsent = All-imp _ _ _ (λ y m p. lt→ltb e.relay_seq y.relay_seq m) k.later;
            monotone = λ m p. past_trans s.cursor e.relay_seq m k.new (ltb→lt e.relay_seq m p);
          };
        })
