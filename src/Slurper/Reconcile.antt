-- ===== src/Slurper/Reconcile.antt =====
-- internal/slurper/slurper.go: Reconcile, Run, Poke and Shutdown.
--
-- `active` is the map from DIDs to subscriptions, of which Reconcile reads the snapshot of the
-- labeler. `started` and `ended` list the subscriptions whose goroutine was started, and those
-- whose context was cancelled and limiter closed. The map is a list without repeated keys.
pub mod Active
pub mod Idempotent
pub mod Registered
pub mod Converges
use labeler_relay.Prelude.{
  ℕ, zero, suc, ◌+◌, ◌≡◌, refl, String, Bool, true, false, not, ◌&&◌, ◌||◌, Option, none, some,
  List, [], ◌∷◌, ◌++◌, if◌then◌else◌, str_eq, Result, ok, err, Fault, errorf, length, select, arith,
  float64,
}
use labeler_relay.Store.Registry.{Labeler, Registry, find}
use labeler_relay.Store.Events.{call}
use labeler_relay.Slurper.Policy.{subscription_config_changed}

pub record Slurper : Type 0 where
  pub active : List Labeler
  pub started : List Labeler
  pub ended : List Labeler
  pub poked : Bool

-- delete(s.active, did)
unfoldable pub remove : String → List Labeler → List Labeler
remove did = select (λ l. not (str_eq l.did did))

-- sc.cancel(); sc.sub.limiter.Close(); delete(s.active, did)
abbrev pub stop : Labeler → Slurper → Slurper
stop sc s = record s { active = remove sc.did s.active; ended = s.ended ++ sc ∷ [] }

-- The first loop, at one enabled labeler.
abbrev pub restart_one : Labeler → Option Labeler → Slurper → Slurper
restart_one l none s = s
restart_one l (some sc) s = if subscription_config_changed sc l then stop sc s else s

unfoldable pub restart_changed : List Labeler → Slurper → Slurper
unfolding find remove subscription_config_changed
restart_changed [] s = s
restart_changed (l ∷ ls) s = restart_changed ls (restart_one l (find l.did s.active) s)

-- The second loop.
abbrev pub start_one : Labeler → Option Labeler → Slurper → Slurper
start_one l (some sc) s = s
start_one l none s = record s { active = s.active ++ l ∷ []; started = s.started ++ l ∷ [] }

unfoldable pub start_missing : List Labeler → Slurper → Slurper
unfolding find
start_missing [] s = s
start_missing (l ∷ ls) s = start_missing ls (start_one l (find l.did s.active) s)

-- Is the DID in `enabledSet`?
unfoldable pub is_enabled : List Labeler → String → Bool
is_enabled [] did = false
is_enabled (l ∷ ls) did = str_eq l.did did || is_enabled ls did

-- The third loop walks the map.
unfoldable pub stop_disabled : List Labeler → Slurper → Slurper
unfolding is_enabled
stop_disabled enabled s = record s {
  active = select (λ l. is_enabled enabled l.did) s.active;
  ended = s.ended ++ select (λ l. not (is_enabled enabled l.did)) s.active;
}

unfoldable pub sync : List Labeler → Slurper → Slurper
unfolding restart_changed start_missing stop_disabled
sync enabled s = stop_disabled enabled (start_missing enabled (restart_changed enabled s))

-- Reconcile, given what ListEnabled returns; the callback gets the number of subscriptions.
unfoldable pub reconcile :
    {W : Type 0}
    → Result (List Labeler)
    → Option (ℕ → W → W)
    → Slurper
    → W
    → Result (Unit {0}) × Slurper × W
unfolding sync
reconcile (err e) on_reconciled s w = (err (errorf "failed to list enabled labelers" e), s, w)
reconcile (ok enabled) on_reconciled s w =
    let after = sync enabled s in
    (ok tt, after, call on_reconciled (float64 (length after.active)) w)

-- Poke: a channel of capacity one.
abbrev pub poke : Slurper → Slurper
poke s = record s { poked = true }

-- Shutdown, up to the wait for the goroutines.
unfoldable pub shutdown : Slurper → Slurper
shutdown s = record s { active = []; ended = s.ended ++ s.active }

-- Run over what wakes it, a tick or a poke, until its context ends; an error is only logged.
pub data Wake : Type 0 where
  ticked poked : Wake

-- A receive from the channel of the pokes empties it.
abbrev pub after_wake : Wake → Slurper → Slurper
after_wake ticked s = s
after_wake poked s = record s { poked = false }

unfoldable pub run_slurper :
    {W : Type 0}
    → Option (ℕ → W → W)
    → List (Wake × Result (List Labeler))
    → Slurper
    → W
    → Slurper × W
unfolding reconcile
run_slurper on_reconciled [] s w = (s, w)
run_slurper on_reconciled ((wake, enabled) ∷ wakes) s w =
    let (r, s', w') = reconcile enabled on_reconciled (after_wake wake s) w in
    run_slurper on_reconciled wakes s' w'
