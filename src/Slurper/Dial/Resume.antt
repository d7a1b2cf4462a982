-- ===== src/Slurper/Dial/Resume.antt =====
-- Where the next connection to a labeler starts.
use labeler_relay.Prelude.{
  ℕ, ◌≡◌, refl, ap, ◌∙◌, String, Option, none, some, List, [], ◌∷◌, ℤ, Result, ok, err, ◌>>=◌,
  arith, inl, inr, with_context, Result-cases, length, eq_iff,
}
use labeler_relay.Store.Events.{Encoders, LabelPersist}
use labeler_relay.Store.Registry.{Registry, read_cursor, write_cursor}
use labeler_relay.Store.Registry.Laws.{write_cursor-read_cursor}
use labeler_relay.Slurper.Frames.{
  Subscription, FrameFaults, keep_labels, after_persist, after_keep, handle_label_labels,
}
use labeler_relay.Upstream.{Urls}
use labeler_relay.Slurper.Dial.{
  StreamEvent, label_labels, label_info, error_frame, State, DialFaults, handle_event,
  handle_events, websocket_scheme, with_cursor, dial_url, dial,
}

module _ {Label Service W : Type 0} (enc : Encoders Label Service) (s : Subscription Label W) where
  -- The registry after a frame whose cursor write succeeded.
  abbrev Flushed : FrameFaults → ℤ → Registry → Registry → Type 0
  Flushed f seq reg after =
      (after ≡ (write_cursor f.cursor_exec f.cursor_affected s.labeler.did seq reg).1)
      × ((write_cursor f.cursor_exec f.cursor_affected s.labeler.did seq reg).0 ≡ ok tt)

  flushed : (context : String) (r : Result (Unit {0})) → with_context context r ≡ ok tt → r ≡ ok tt
  flushed context (ok tt) h = refl
  flushed context (err e) h = cc

  after_persist-Flushed :
      (f : FrameFaults) (seq : ℤ) (n : ℕ) (o : Result ℕ × LabelPersist W × W) (reg : Registry)
      → (after_persist s f seq n o reg).0 ≡ ok tt
      → Flushed f seq reg (after_persist s f seq n o reg).2
  after_persist-Flushed f seq n (err e, p, w) reg h = cc
  after_persist-Flushed f seq n (ok m, p, w) reg h = (refl, flushed "failed to flush cursor" _ h)

  after_keep-Flushed :
      (f : FrameFaults) (now seq : ℤ) (p : LabelPersist W) (reg : Registry)
      (r : Result (List Label)) (w : W)
      → (after_keep enc s f now seq p reg (r, w)).0 ≡ ok tt
      → Flushed f seq reg (after_keep enc s f now seq p reg (r, w)).2
  after_keep-Flushed f now seq p reg (err e) w h = cc
  after_keep-Flushed f now seq p reg (ok []) w h = (refl, flushed "failed to flush cursor" _ h)
  after_keep-Flushed f now seq p reg (ok (l ∷ ls)) w h =
      after_persist-Flushed f seq (length (l ∷ ls)) _ reg h

  pub handle_label_labels-cursor :
      (f : FrameFaults) (now seq : ℤ) (labels : List Label) (p : LabelPersist W) (reg : Registry)
      (w : W)
      → (handle_label_labels enc s f now seq labels p reg w).0 ≡ ok tt
      → read_cursor none s.labeler.did (handle_label_labels enc s f now seq labels p reg w).2
        ≡ ok (some seq)
  unfolding handle_label_labels
  handle_label_labels-cursor f now seq labels p reg w h =
      let out = keep_labels s f.wait 0 labels [] w in
      let (after, done) = after_keep-Flushed f now seq p reg out.0 out.1 h in
      let (found, read) =
        write_cursor-read_cursor f.cursor_exec f.cursor_affected s.labeler.did s.labeler.did seq reg
          done in
      ap (λ g. read_cursor none s.labeler.did g) after
      ∙ read
      ∙ ground (arith, eq_iff s.labeler.did s.labeler.did)

  -- The number of the last #labels frame, or `o` if there is none.
  abbrev pub reached : List (StreamEvent Label) → Option ℤ → Option ℤ
  reached [] o = o
  reached (label_labels seq labels f now ∷ es) o = reached es (some seq)
  reached (label_info ∷ es) o = reached es o
  reached (error_frame name ∷ es) o = reached es o

  handle_event-cursor :
      (e : StreamEvent Label) (st : State W) (o : Option ℤ)
      → (handle_event enc s e st).0 ≡ ok tt
      → read_cursor none s.labeler.did st.registry ≡ ok o
      → read_cursor none s.labeler.did (handle_event enc s e st).1.registry
        ≡ ok (reached (e ∷ []) o)
  unfolding handle_event
  handle_event-cursor (label_labels seq labels f now) st o h q =
      handle_label_labels-cursor f now seq labels st.persist st.registry st.world h
  handle_event-cursor label_info st o h q = q
  handle_event-cursor (error_frame name) st o h q = cc

  reached_cons :
      (e : StreamEvent Label) (es : List (StreamEvent Label)) (o : Option ℤ)
      → reached es (reached (e ∷ []) o) ≡ reached (e ∷ es) o
  reached_cons (label_labels seq labels f now) es o = refl
  reached_cons label_info es o = refl
  reached_cons (error_frame name) es o = refl

  -- When the handlers of all events of a connection succeed, the stored cursor of the labeler is the number
  -- of the last #labels frame, or what it was if there was none.
  handle_events-cursor :
      (es : List (StreamEvent Label)) (st : State W) (o : Option ℤ)
      → (handle_events enc s es st).0 ≡ ok tt
      → read_cursor none s.labeler.did st.registry ≡ ok o
      → read_cursor none s.labeler.did (handle_events enc s es st).1.registry ≡ ok (reached es o)
  unfolding handle_events read_cursor
  handle_events-cursor [] st o h q = q
  handle_events-cursor (e ∷ es) st o h q = elim (Result-cases (handle_event enc s e st).0) [
    | inr (m, k) ↦ absurd (ground (arith, k, h))
    | inl (done, k) ↦
        let rest =
          handle_events-cursor es (handle_event enc s e st).1 (reached (e ∷ []) o)
            (ground (arith, k, h)) (handle_event-cursor e st o k q) in
        rw k (rest ∙ ap (λ o. ok o) (reached_cons e es o))
  ]

  module _ {U : Type 0} (urls : Urls U) (sprint : ℤ → String) where
    dial-connected :
        (f : DialFaults) (es : List (StreamEvent Label)) (st : State W) (url : String)
        → dial_url urls sprint f.read_cursor s.labeler st.registry ≡ ok url
        → f.connect ≡ none
        → (dial enc s urls sprint f es st).1 ≡ (handle_events enc s es st).1
    unfolding dial
    dial-connected f es st url opened connected = rw (dial, opened, connected) refl

    -- When a connection to a labeler stood and the handlers of all its events succeeded, the next dial of the
    -- subscription uses the endpoint with a websocket scheme and, as the cursor, the number of the last
    -- #labels frame, or the cursor of the dial before if there was no such frame.
    pub dial-continues :
        (f : DialFaults) (es : List (StreamEvent Label)) (st : State W) (o : Option ℤ)
        (url : String)
        → dial_url urls sprint f.read_cursor s.labeler st.registry ≡ ok url
        → f.connect ≡ none
        → read_cursor none s.labeler.did st.registry ≡ ok o
        → (handle_events enc s es st).0 ≡ ok tt
        → dial_url urls sprint none s.labeler (dial enc s urls sprint f es st).1.registry ≡ (
            with_context "invalid endpoint URL" (urls.parse s.labeler.endpoint) >>= (λ u.
              ok (urls.render (with_cursor urls sprint (reached es o) (websocket_scheme urls u)))))
    unfolding dial_url
    dial-continues f es st o url opened connected q h =
        let after = dial-connected f es st url opened connected in
        ap
          (λ r. with_context "failed to read cursor" r >>= (λ last.
            with_context "invalid endpoint URL" (urls.parse s.labeler.endpoint)
            >>= (λ u. ok (urls.render (with_cursor urls sprint last (websocket_scheme urls u))))))
          (ap (λ st. read_cursor none s.labeler.did st.registry) after
            ∙ handle_events-cursor es st o h q)
