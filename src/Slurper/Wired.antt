-- ===== src/Slurper/Wired.antt =====
-- internal/slurper/slurper.go: New, the setters of the callbacks, and what Reconcile makes for a subscription.
use labeler_relay.Prelude.{ℕ, String, Bool, false, Option, none, some, []}
use labeler_relay.Store.Events.{Bytes}
use labeler_relay.Store.Registry.{Labeler}
use labeler_relay.Config.{RateLimit}
use labeler_relay.Slurper.Frames.{Subscription}
use labeler_relay.Slurper.Limiter.{SlidingWindow, Limiter, new_limiter}
use labeler_relay.Slurper.Reconcile.{Slurper}

pub record LabelSlurper (W : Type 0) : Type 0 where
  pub sig_default : Bool
  pub limits : RateLimit
  pub on_upstreams_reconciled : Option (ℕ → W → W)
  pub on_throttled : Option (String → W → W)
  pub on_drop_unsigned : Option (String → W → W)
  pub on_ingested : Option (String × ℕ → W → W)
  pub state : Slurper

module _ {W : Type 0} where
  unfoldable pub new_slurper : Bool → RateLimit → LabelSlurper W
  new_slurper sig_default limits = record {
    sig_default = sig_default;
    limits = limits;
    on_upstreams_reconciled = none;
    on_throttled = none;
    on_drop_unsigned = none;
    on_ingested = none;
    state = record { active = []; started = []; ended = []; poked = false };
  }

  unfoldable pub set_upstreams_callback : (ℕ → W → W) → LabelSlurper W → LabelSlurper W
  set_upstreams_callback fn s = record s { on_upstreams_reconciled = some fn }

  unfoldable pub set_throttled_callback : (String → W → W) → LabelSlurper W → LabelSlurper W
  set_throttled_callback fn s = record s { on_throttled = some fn }

  unfoldable pub set_drop_unsigned_callback : (String → W → W) → LabelSlurper W → LabelSlurper W
  set_drop_unsigned_callback fn s = record s { on_drop_unsigned = some fn }

  unfoldable pub set_ingested_callback : (String × ℕ → W → W) → LabelSlurper W → LabelSlurper W
  set_ingested_callback fn s = record s { on_ingested = some fn }

  -- The subscription that Reconcile starts for a labeler, and its limiter with the observer of its waits.
  abbrev pub subscription_of :
      {Label : Type 0} → (Label → Bytes) → LabelSlurper W → Labeler → Subscription Label W
  subscription_of sig s l = record {
    labeler = l;
    sig_default = s.sig_default;
    sig = sig;
    on_drop_unsigned = s.on_drop_unsigned;
    on_ingested = s.on_ingested;
  }

  abbrev pub observer_of : LabelSlurper W → Labeler → Option (W → W)
  observer_of s l = elim s.on_throttled [ none ↦ none | some f ↦ some (f l.did) ]

  abbrev pub limiter_of : {L : Type 0} → SlidingWindow L → LabelSlurper W → Limiter L
  limiter_of lib s = new_limiter lib s.limits.per_sec s.limits.per_hour
