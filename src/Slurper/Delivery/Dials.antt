-- ===== src/Slurper/Delivery/Dials.antt =====
-- A connection of dial, as steps of the subscription.
use labeler_relay.Prelude.{
  ◌≡◌, refl, sym, subst, ◌⊎◌, inl, inr, String, Option, none, some, List, [], ◌∷◌, ◌++◌, ℤ, Result,
  ok, err, beyond, Result-cases, ◌>>=◌, attempt,
}
use labeler_relay.Store.Events.{Encoders}
use labeler_relay.Store.Registry.{read_cursor}
use labeler_relay.Slurper.Frames.{Subscription}
use labeler_relay.Slurper.Dial.{
  StreamEvent, label_labels, label_info, error_frame, State, DialFaults, handle_event,
  handle_events, dial_url, dial,
}
use labeler_relay.Upstream.{Urls}
use labeler_relay.Slurper.Delivery.{
  UpFrame, number_of, Link, after_frame, Step, connects, handles_labels, handles_info,
  handles_error, hangs_up, Steps, stop, step,
}

-- The #labels frames among the events of a connection.
abbrev pub frames_of : {Label : Type 0} → List (StreamEvent Label) → List (UpFrame Label)
frames_of [] = []
frames_of (label_labels seq labels f now ∷ es) = (seq, labels) ∷ frames_of es
frames_of (label_info ∷ es) = frames_of es
frames_of (error_frame name ∷ es) = frames_of es

module _ {Label Service W : Type 0} (enc : Encoders Label Service) (s : Subscription Label W)
    (stream : List (UpFrame Label)) where
  abbrev link : State W → Option (List (UpFrame Label)) → Link Label W
  link st coming = record { state = st; coming = coming }

  pub Steps_trans :
      {l m n : Link Label W}
      → Steps enc s stream l m
      → Steps enc s stream m n
      → Steps enc s stream l n
  Steps_trans stop k = k
  Steps_trans (step one h) k = step one (Steps_trans h k)

  handle_event-Step :
      (e : StreamEvent Label) (es : List (StreamEvent Label)) (later : List (UpFrame Label))
      (st : State W)
      → Step enc s stream (link st (some (frames_of (e ∷ es) ++ later))) (
          link
            (handle_event enc s e st).1
            (after_frame (handle_event enc s e st).0 (frames_of es ++ later)))
  handle_event-Step (label_labels seq labels f now) es later st =
      handles_labels seq labels f now (frames_of es ++ later) st
  handle_event-Step label_info es later st = handles_info (frames_of es ++ later) st
  handle_event-Step (error_frame name) es later st = handles_error name (frames_of es ++ later) st

  -- The step, with the handler's result.
  afterwards :
      (r : Result (Unit {0})) (e : StreamEvent Label) (es : List (StreamEvent Label))
      (later : List (UpFrame Label)) (st : State W)
      → (handle_event enc s e st).0 ≡ r
      → Step enc s stream (link st (some (frames_of (e ∷ es) ++ later))) (
          link
            (handle_event enc s e st).1
            (after_frame (handle_event enc s e st).0 (frames_of es ++ later)))
      → Step enc s stream
          (link st (some (frames_of (e ∷ es) ++ later)))
          (link (handle_event enc s e st).1 (after_frame r (frames_of es ++ later)))
  afterwards r e es later st q one =
      subst
        (λ r.
          Step enc s stream (link st (some (frames_of (e ∷ es) ++ later)))
            (link (handle_event enc s e st).1 (after_frame r (frames_of es ++ later))))
        q one

  handle_events-Steps :
      (es : List (StreamEvent Label)) (later : List (UpFrame Label)) (st : State W)
      → Steps enc s stream
          (link st (some (frames_of es ++ later)))
          (link (handle_events enc s es st).1 none)
  unfolding handle_events
  handle_events-Steps [] later st = step (hangs_up st (some later)) stop
  handle_events-Steps (e ∷ es) later st =
      let first = handle_event-Step e es later st in
      elim (Result-cases (handle_event enc s e st).0) [
        | inl (done, q) ↦
            rw (handle_events, q)
              (step (afterwards (ok tt) e es later st q first)
                (handle_events-Steps es later (handle_event enc s e st).1))
        | inr (m, q) ↦ rw (handle_events, q) (step (afterwards (err m) e es later st q first) stop)
      ]

  module _ {U : Type 0} (urls : Urls U) (sprint : ℤ → String) where
    -- The state after a connection.
    dial-ends :
        (f : DialFaults) (es : List (StreamEvent Label)) (st : State W)
        → ((dial enc s urls sprint f es st).1 ≡ st)
          ⊎ ((dial enc s urls sprint f es st).1 ≡ (handle_events enc s es st).1)
    unfolding dial
    dial-ends f es st =
        elim (Result-cases (
          dial_url urls sprint f.read_cursor s.labeler st.registry
          >>= (λ url. attempt f.connect "failed to dial"))) [
            | inl (done, q) ↦ rw (dial, q) (inr refl)
            | inr (m, q) ↦ rw (dial, q) (inl refl)
          ]

    -- A connection on which the labeler sends, in order, some of its frames past the stored cursor from
    -- the first on, between #info and error frames, leaves the state of a run of steps, however it ends
    -- and whatever fails on it.
    pub dial-Steps :
        (f : DialFaults) (es : List (StreamEvent Label)) (st : State W) (c : ℤ)
        (later : List (UpFrame Label))
        → read_cursor none s.labeler.did st.registry ≡ ok (some c)
        → frames_of es ++ later ≡ beyond number_of c stream
        → Steps enc s stream (link st none) (link (dial enc s urls sprint f es st).1 none)
    dial-Steps f es st c later q ahead =
        let run = step (connects c st none q) (
          subst
            (λ us. Steps enc s stream (link st (some us)) (link (handle_events enc s es st).1 none))
            ahead (handle_events-Steps es later st)) in
        elim (dial-ends f es st) [
          | inl same ↦ subst (λ x. Steps enc s stream (link st none) (link x none)) (sym same) stop
          | inr same ↦ subst (λ x. Steps enc s stream (link st none) (link x none)) (sym same) run
        ]
