-- ===== src/Slurper/Dial.antt =====
-- internal/slurper/subscription.go: dial, one connection to a labeler, from the cursor in its URL to the
-- frames of the stream. The websocket and the scheduler are a library's, which calls handleEvent for each
-- event in turn, and ends with the error of a call that returns one.
pub mod Resume
mod Tests
use labeler_relay.Prelude.{
  ℕ, String, Bool, Option, none, some, List, [], ◌∷◌, ℤ, Result, ok, err, ◌>>=◌, Fault, attempt,
  with_context, str_eq, if◌then◌else◌,
}
use labeler_relay.Store.Events.{Encoders, LabelPersist}
use labeler_relay.Store.Registry.{Labeler, Registry, read_cursor}
use labeler_relay.Slurper.Frames.{Subscription, FrameFaults, handle_label_labels, handle_error}
use labeler_relay.Upstream.{Urls}

-- The events with a callback; a #labels frame comes with the outcomes of the calls while it is handled.
pub data StreamEvent (Label : Type 0) : Type 0 where
  label_labels : ℤ → List Label → FrameFaults → ℤ → StreamEvent Label
  label_info : StreamEvent Label
  error_frame : String → StreamEvent Label

pub record DialFaults : Type 0 where
  pub read_cursor : Fault
  pub connect : Fault
  pub stream : Fault

-- What the handlers act on.
pub record State (W : Type 0) : Type 0 where
  pub persist : LabelPersist W
  pub registry : Registry
  pub world : W

module _ {U : Type 0} (urls : Urls U) where
  abbrev pub websocket_scheme : U → U
  websocket_scheme u =
      if str_eq (urls.scheme u) "http"
      then urls.with_scheme "ws" u
      else if str_eq (urls.scheme u) "https"
      then urls.with_scheme "wss" u
      else u

  -- `sprint` is the `%d` of the cursor.
  abbrev pub with_cursor : (ℤ → String) → Option ℤ → U → U
  with_cursor sprint none u = u
  with_cursor sprint (some seq) u = urls.set_cursor (sprint seq) u

  -- The URL that is dialled.
  unfoldable pub dial_url : (ℤ → String) → Fault → Labeler → Registry → Result String
  dial_url sprint fault labeler reg = do
    last_seq ←
        with_context "failed to read cursor"
          (package.labeler_relay.Store.Registry.read_cursor fault labeler.did reg)
    u ← with_context "invalid endpoint URL" (urls.parse labeler.endpoint)
    ok (urls.render (with_cursor sprint last_seq (websocket_scheme u)))

module _ {Label Service W : Type 0} (enc : Encoders Label Service) (s : Subscription Label W) where
  abbrev pub state_of :
      Result (Unit {0}) × LabelPersist W × Registry × W → Result (Unit {0}) × State W
  state_of (r, p, reg, w) = (r, record { persist = p; registry = reg; world = w })

  -- handleEvent; handleLabelInfo only logs.
  unfoldable pub handle_event : StreamEvent Label → State W → Result (Unit {0}) × State W
  handle_event (label_labels seq labels f now) st =
      state_of (handle_label_labels enc s f now seq labels st.persist st.registry st.world)
  handle_event label_info st = (ok tt, st)
  handle_event (error_frame name) st = (handle_error name, st)

  unfoldable pub handle_events : List (StreamEvent Label) → State W → Result (Unit {0}) × State W
  handle_events [] st = (ok tt, st)
  handle_events (e ∷ es) st =
      let (r, st') = handle_event e st in
      let later = handle_events es st' in elim r [ err m ↦ (err m, st') | ok done ↦ later ]

  abbrev pub or_raised : Fault → Result (Unit {0}) → Result (Unit {0})
  or_raised fault (err e) = err e
  or_raised none (ok done) = ok done
  or_raised (some e) (ok done) = err e

  unfoldable pub dial :
      {U : Type 0}
      → Urls U
      → (ℤ → String)
      → DialFaults
      → List (StreamEvent Label)
      → State W
      → Result (Unit {0}) × State W
  dial urls sprint f events st =
      let opened =
        dial_url urls sprint f.read_cursor s.labeler st.registry
        >>= (λ url. attempt f.connect "failed to dial") in
      let (r, st') = handle_events events st in
      elim opened [ err e ↦ (err e, st) | ok done ↦ (or_raised f.stream r, st') ]
