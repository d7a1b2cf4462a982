-- ===== src/Slurper/Delivery.antt =====
-- A labeler's stream against the subscription that reads it, over any number of connections
-- (internal/slurper/subscription.go): dial reads the stored cursor, and the labeler sends on that
-- connection its #labels frames past it, in order; handleEvent handles each; any connection may end
-- anywhere, and other goroutines store events and change rows in between.
pub mod Frame
pub mod AtLeastOnce
pub mod Dials
pub mod Relayed
mod Tests
use labeler_relay.Prelude.{
  ℕ, ◌≡◌, String, Bool, not, ◌&&◌, Option, none, some, List, [], ◌∷◌, ℤ, ltb_ℤ, Result, ok, err,
  beyond, select,
}
use labeler_relay.Store.Events.{IngestEvent, IngestFaults, Encoders, persist_ingest}
use labeler_relay.Store.Registry.{Registry, read_cursor}
use labeler_relay.Slurper.Frames.{Subscription, FrameFaults}
use labeler_relay.Slurper.Dial.{
  StreamEvent, label_labels, label_info, error_frame, State, handle_event,
}

-- A #labels frame of the labeler, under its number.
abbrev pub UpFrame : Type 0 → Type 0
UpFrame Label = ℤ × List Label

abbrev pub number_of : {Label : Type 0} → UpFrame Label → ℤ
number_of u = u.0

-- The subscription between two frames: its state, and the frames that the labeler has still to send on
-- the connection; `none` while there is none.
pub record Link (Label W : Type 0) : Type 0 where
  pub state : State W
  pub coming : Option (List (UpFrame Label))

-- The connection after a handler: an error ends it.
abbrev pub after_frame :
    {Label : Type 0} → Result (Unit {0}) → List (UpFrame Label) → Option (List (UpFrame Label))
after_frame (ok done) rest = some rest
after_frame (err e) rest = none

module _ {Label Service W : Type 0} (enc : Encoders Label Service) (s : Subscription Label W)
    (stream : List (UpFrame Label)) where
  pub data Step : Link Label W → Link Label W → Type 0 where
    connects :
        (c : ℤ) (st : State W) (coming : Option (List (UpFrame Label)))
        → read_cursor none s.labeler.did st.registry ≡ ok (some c)
        → Step
            (record { state = st; coming = coming })
            (record { state = st; coming = some (beyond number_of c stream) })
    handles_labels :
        (seq : ℤ) (labels : List Label) (f : FrameFaults) (now : ℤ) (rest : List (UpFrame Label))
        (st : State W)
        → Step
            (record { state = st; coming = some ((seq, labels) ∷ rest) })
            (record {
              state = (handle_event enc s (label_labels seq labels f now) st).1;
              coming = after_frame (handle_event enc s (label_labels seq labels f now) st).0 rest;
            })
    handles_info :
        (rest : List (UpFrame Label)) (st : State W)
        → Step
            (record { state = st; coming = some rest })
            (record {
              state = (handle_event enc s label_info st).1;
              coming = after_frame (handle_event enc s label_info st).0 rest;
            })
    handles_error :
        (name : String) (rest : List (UpFrame Label)) (st : State W)
        → Step
            (record { state = st; coming = some rest })
            (record {
              state = (handle_event enc s (error_frame name) st).1;
              coming = after_frame (handle_event enc s (error_frame name) st).0 rest;
            })
    hangs_up :
        (st : State W) (coming : Option (List (UpFrame Label)))
        → Step (record { state = st; coming = coming }) (record { state = st; coming = none })
    other_ingest :
        (f : IngestFaults) (now : ℤ) (e : IngestEvent Label Service) (w : W) (st : State W)
        (coming : Option (List (UpFrame Label)))
        → Step
            (record { state = st; coming = coming })
            (record {
              state = record st {
                persist = (persist_ingest enc f now e st.persist w).1;
                world = w;
              };
              coming = coming;
            })
    other_rows :
        (reg : Registry) (st : State W) (coming : Option (List (UpFrame Label)))
        → read_cursor none s.labeler.did reg ≡ read_cursor none s.labeler.did st.registry
        → Step
            (record { state = st; coming = coming })
            (record { state = record st { registry = reg }; coming = coming })

  pub data Steps : Link Label W → Link Label W → Type 0 where
    stop : {l : Link Label W} → Steps l l
    step : {l m n : Link Label W} → Step l m → Steps m n → Steps l n

-- The frames of the stream past the first cursor and not past the second.
abbrev pub between : {Label : Type 0} → ℤ → ℤ → List (UpFrame Label) → List (UpFrame Label)
between c0 c = select (λ u. ltb_ℤ c0 (number_of u) && not (ltb_ℤ c (number_of u)))
