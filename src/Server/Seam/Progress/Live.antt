-- ===== src/Server/Seam/Progress/Live.antt =====
-- From any phase to the live channel with nothing that waits.
use labeler_relay.Prelude.{
  ℕ, zero, suc, ◌≡◌, ◌≢◌, refl, sym, subst, ap, ◌∙◌, Bool, true, false, Option, none, some, List,
  [], ◌∷◌, ◌++◌, map, length, arith, ℤ, pos, past, inl, inr, Bool-cases,
}
use labeler_relay.Store.Events.{Events, LiveEvent, Encoders}
use labeler_relay.Store.Events.Order.{IsWellFormed}
use labeler_relay.Server.Seam.{
  System, Loop, backfill, seam, straggler, Phase, at, reading, stopping, tailing, finished, sending,
  leave, reader_step, tail_step, drain_stop, broadcast_step, offer_live, stream_from,
}
use labeler_relay.Server.Seam.Schedule.{Move, step, run, SparesUnread}
use labeler_relay.Server.Seam.Invariant.{beyond, Inv}
use labeler_relay.Server.Seam.Writer.{broadcast_step-Inv}
use labeler_relay.Server.Seam.Kept.{run-cap}
use labeler_relay.Server.Seam.Delivery.{Aligned, after, after-Inv, idle-sends_all}
use labeler_relay.Server.Seam.Tail.{drain_stop-Inv}
use labeler_relay.Server.Seam.Progress.{
  CalmMove, drainer_sees_stop, writer_broadcasts, move_of, Leads, Leads-now, Leads-step, mk, go,
  From, chunk, rows, from_loop,
}

module _ {Label Service : Type 0} (enc : Encoders Label Service) (size : ℕ) where
  module _ (since : ℤ) (db : Events) (pending : Option LiveEvent) (cap : ℕ)
      (history : List LiveEvent) where
    module _ (P : System → Type 0) where
      -- With the live phase reached, the events of the channel are taken one by one.
      tail :
          (d : Bool) (b : List LiveEvent)
          → ((d : Bool) (k : ℕ) → From enc size since db pending cap history P d [] tailing k)
          → (k : ℕ) → From enc size since db pending cap history P d b tailing k
      unfolding reader_step tail_step
      tail d [] done k c out sent h i = done d k c out sent h i
      tail d (e ∷ es) done k c out sent h i = elim (Bool-cases (past c e.relay_seq)) [
        | inr q ↦
            go enc size since db pending cap history P tailing d (e ∷ es) c out sent i
              (mk enc size since db pending cap history tailing d es c out sent) (rw q refl)
              (tail d es done k c out sent h)
        | inl q ↦
            go enc size since db pending cap history P tailing d (e ∷ es) c out sent i
              (mk enc size since db pending cap history (sending e) d es c out sent) (rw q refl)
              (λ i'.
                go enc size since db pending cap history P (sending e) d es c out sent i'
                  (mk enc size since db pending cap history tailing d es c (out ++ e ∷ [])
                    (pos e.relay_seq))
                  refl (tail d es done k c (out ++ e ∷ []) (pos e.relay_seq) h))
      ]

      stopped :
          (b : List LiveEvent)
          → ((k : ℕ) → From enc size since db pending cap history P false b (at straggler) k)
          → (k : ℕ) → From enc size since db pending cap history P false b stopping k
      unfolding reader_step
      stopped b next k c out sent h i =
          go enc size since db pending cap history P stopping false b c out sent i
            (mk enc size since db pending cap history (at straggler) false b c out sent) refl
            (next k c out sent h)

      stop_drainer :
          (d : Bool) (b : List LiveEvent)
          → ((k : ℕ) → From enc size since db pending cap history P false b stopping k)
          → (k : ℕ) → From enc size since db pending cap history P d b stopping k
      unfolding step drain_stop
      stop_drainer d b next k c out sent h i =
          Leads-step enc size P drainer_sees_stop
            (mk enc size since db pending cap history stopping d b c out sent)
            (next k c out sent h (
              drain_stop-Inv since
                (mk enc size since db pending cap history stopping d b c out sent) i))

      module _ (d : Bool) (b : List LiveEvent)
          (done : (d : Bool) (k : ℕ)
            → From enc size since db pending cap history P d [] tailing k) where
        from_stopping : (k : ℕ) → From enc size since db pending cap history P d b stopping k
        from_stopping = stop_drainer d b (
            stopped b (
              from_loop enc size since db pending cap history P false b straggler
                (tail false b done)))

        -- Every loop is left for the phase after it, down to the live phase.
        after_loop :
            (l : Loop) (k : ℕ) → From enc size since db pending cap history P d b (leave l) k
        after_loop backfill =
            from_loop enc size since db pending cap history P d b seam from_stopping
        after_loop seam = from_stopping
        after_loop straggler = tail d b done

        from_sending :
            (e : LiveEvent) (k : ℕ) → From enc size since db pending cap history P d b (sending e) k
        unfolding reader_step
        from_sending e k c out sent h i =
            go enc size since db pending cap history P (sending e) d b c out sent i
              (mk enc size since db pending cap history tailing d b c (out ++ e ∷ [])
                (pos e.relay_seq))
              refl (tail d b done k c (out ++ e ∷ []) (pos e.relay_seq) h)

        from_phase :
            (p : Phase)
            → p ≢ finished
            → (k : ℕ) → From enc size since db pending cap history P d b p k
        from_phase (at l) f k =
            from_loop enc size since db pending cap history P d b l (after_loop l) k
        from_phase (reading l rest zero) f k =
            chunk enc size since db pending cap history P d b l k (after_loop l k)
              (λ j less. from_loop enc size since db pending cap history P d b l (after_loop l) j)
              rest
        from_phase (reading l rest (suc n)) f k =
            rows enc size since db pending cap history P d b l rest n k
              (from_loop enc size since db pending cap history P d b l (after_loop l) k)
        from_phase stopping f k = from_stopping k
        from_phase tailing f k = tail d b done k
        from_phase finished f k = absurd (f refl)
        from_phase (sending e) f k = from_sending e k

  module _ (since : ℤ) (db : Events) (history : List LiveEvent) where
    -- Everything past `since` is sent.
    abbrev AllSent : System → Type 0
    AllSent t = t.out ≡ beyond since history

    idle :
        (d : Bool) (k : ℕ) → From enc size since db none (suc size) history AllSent d [] tailing k
    idle d k c out sent h i =
        Leads-now enc size AllSent
          (mk enc size since db none (suc size) history tailing d [] c out sent)
          (idle-sends_all since
            (mk enc size since db none (suc size) history tailing d [] c out sent) i refl refl refl
            refl)

    -- The channel is empty, so that it has room for the event that the writer still has to broadcast.
    has_announced :
        (e : LiveEvent) (d : Bool) (k : ℕ)
        → From enc size since db (some e) (suc size) history AllSent d [] tailing k
    unfolding step broadcast_step offer_live
    has_announced e d k c out sent h i =
        let before = mk enc size since db (some e) (suc size) history tailing d [] c out sent in
        let after = mk enc size since db none (suc size) history tailing d (e ∷ []) c out sent in
        let offered : broadcast_step before ≡ after = ground arith in
        Leads-step enc size AllSent writer_broadcasts before (
          subst (λ t. Leads enc size AllSent t) (sym offered)
            (tail since db none (suc size) history AllSent d (e ∷ []) idle k c out sent h
              (subst (λ t. Inv since t) offered (broadcast_step-Inv since before i))))

    announced :
        (pending : Option LiveEvent) (d : Bool) (k : ℕ)
        → From enc size since db pending (suc size) history AllSent d [] tailing k
    announced none d k = idle d k
    announced (some e) d k = has_announced e d k

  -- From a system that keeps the invariant.
  settles :
      (since : ℤ) (s : System)
      → Inv since s
      → s.cancelled ≡ false
      → s.live.closed ≡ false
      → s.live.cap ≡ suc size
      → s.phase ≢ finished
      → Leads enc size (λ t. t.out ≡ beyond since s.history) s
  settles since s i open_ kept cap running =
      let plain =
        mk enc size since s.db s.pending (suc size) s.history s.phase s.draining s.live.buffer
          s.cursor s.out s.sent in
      let same : s ≡ plain =
        ap (λ x. record s { cancelled = x }) open_
        ∙ ap (λ x. record s { cancelled = false; live = record s.live { closed = x } }) kept
        ∙ ap (λ x. record s { cancelled = false; live = record s.live { closed = false; cap = x } })
            cap in
      subst (λ t. Leads enc size (λ u. u.out ≡ beyond since s.history) t) (sym same)
        (from_phase since s.db s.pending (suc size) s.history (λ u. u.out ≡ beyond since s.history)
          s.draining s.live.buffer (announced since s.db s.history s.pending) s.phase running
          (length (beyond s.cursor s.history)) s.cursor s.out s.sent (omega arith)
          (subst (λ t. Inv since t) same i))

  module _ (since : ℤ) (db : Events) (pending : Option LiveEvent)
      (ms : List (Move Label Service)) where
    -- Whatever the schedule was so far, with prunes that spare what is unread, from a well-formed table and
    -- with `since` not past the next number: a stream that is not cancelled, not dropped and not ended has
    -- a continuation, of steps of its goroutine with a database that answers, of the stop signal to the
    -- drainer, and of the broadcast of the last commit, after which it has sent exactly the events past
    -- `since` that were stored at the start or committed, in order. No phase can get stuck.
    pub stream_from-can_send_all :
        IsWellFormed db
        → Aligned db pending
        → past since (suc db.last_seq) ≡ true
        → SparesUnread enc (suc size) ms (stream_from db pending since (suc size))
        → (after enc size since db pending ms).cancelled ≡ false
        → (after enc size since db pending ms).live.closed ≡ false
        → (after enc size since db pending ms).phase ≢ finished
        → (cs : List CalmMove) × ((run enc
              (suc size)
              (map (move_of enc size) cs)
              (after enc size since db pending ms)).out
            ≡ beyond since (after enc size since db pending ms).history)
    unfolding stream_from
    stream_from-can_send_all h a p k open_ kept running =
        settles since (after enc size since db pending ms)
          (after-Inv enc size since db pending ms h a p k open_) open_ kept
          (run-cap enc (suc size) ms (stream_from db pending since (suc size))) running
