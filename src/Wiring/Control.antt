-- ===== src/Wiring/Control.antt =====
-- The admin API and the slurper over one registry: a request, and what the slurper runs once it has read
-- the registry again.
mod Keyed
use labeler_relay.Prelude.{
  ℕ, ◌≡◌, ◌≢◌, refl, sym, ap, ◌∙◌, subst, ◌⊎◌, inl, inr, String, Bool, true, false, Option, none,
  some, List, [], ◌∷◌, ◌++◌, ℤ, Result, ok, err, str_eq, eq_iff, if◌then◌else◌, Bool-cases, arith,
}
use labeler_relay.Store.Registry.{Labeler, Registry, find}
use labeler_relay.Store.Registry.Keys.{IsKeyed}
use labeler_relay.Store.Listing.Rows.{enabled_row}
use labeler_relay.Slurper.Reconcile.{Slurper, Wake, run_slurper}
use labeler_relay.Slurper.Reconcile.Converges.{
  Follows, Runs, Follows-Runs, last_read, run_slurper-Follows,
}
use labeler_relay.Store.Registry.Laws.{upserted, changed}
use labeler_relay.Admin.{Api, sets, split_space, manual_labeler}
use labeler_relay.Admin.Routes.{Request, serve}
use labeler_relay.Admin.Routes.Effects.{
  RowUpdate, Allowed, adds, sets_policy, removes, disables, enables,
}
use labeler_relay.Admin.Routes.Performs.{quiet_env, serve-Performed}
use labeler_relay.Wiring.Control.Keyed.{serve-IsKeyed}

-- What a request asks the relay to run for a labeler, from its row: whether there is to be a subscription,
-- and its endpoint and signature policy.
pub data Asks (resolve : String → Result String) (db : Registry) (req : Request)
    : String → Bool → String → Option Bool → Type 0 where
  adds_new :
      (did endpoint : String)
      → req.method ≡ "POST"
      → req.segments ≡ "admin" ∷ "labelers" ∷ []
      → req.add_body ≡ some did
      → resolve did ≡ ok endpoint
      → find did db ≡ none
      → Asks resolve db req did true endpoint none
  adds_again :
      (did endpoint : String) (row : Labeler)
      → req.method ≡ "POST"
      → req.segments ≡ "admin" ∷ "labelers" ∷ []
      → req.add_body ≡ some did
      → resolve did ≡ ok endpoint
      → find did db ≡ some row
      → Asks resolve db req did true endpoint row.require_sig
  asks_policy :
      (did : String) (sig : Option Bool) (row : Labeler)
      → req.method ≡ "PATCH"
      → req.segments ≡ "admin" ∷ "labelers" ∷ did ∷ []
      → req.patch_body ≡ sets sig
      → find did db ≡ some row
      → Asks resolve db req did row.enabled row.endpoint sig
  asks_removal :
      (did : String) (row : Labeler)
      → req.method ≡ "DELETE"
      → req.segments ≡ "admin" ∷ "labelers" ∷ did ∷ []
      → find did db ≡ some row
      → Asks resolve db req did false row.endpoint row.require_sig
  asks_disabled :
      (did : String) (row : Labeler)
      → req.method ≡ "POST"
      → req.segments ≡ "admin" ∷ "labelers" ∷ did ∷ "disable" ∷ []
      → find did db ≡ some row
      → Asks resolve db req did false row.endpoint row.require_sig
  asks_enabled :
      (did : String) (row : Labeler)
      → req.method ≡ "POST"
      → req.segments ≡ "admin" ∷ "labelers" ∷ did ∷ "enable" ∷ []
      → find did db ≡ some row
      → Asks resolve db req did true row.endpoint row.require_sig

module _ (token : String) (resolve : String → Result String) (now : ℤ) (req : Request)
    (a : Api) where
  -- The row that a request leaves.
  record Left (did : String) (on : Bool) (ep : String) (sig : Option Bool) : Type 0 where
    update : RowUpdate
    row : Labeler
    allowed : Allowed (quiet_env resolve now) req did update
    left : update (find did a.registry) ≡ some row
    at : row.endpoint ≡ ep
    under : row.require_sig ≡ sig
    switched : row.enabled ≡ on

  Asks-Left :
      (did : String) (on : Bool) (ep : String) (sig : Option Bool)
      → Asks resolve a.registry req did on ep sig
      → Left did on ep sig
  Asks-Left d on ep sig (adds_new did endpoint m p b r q) = record {
    update = λ o. some (upserted (manual_labeler did endpoint now) o);
    row = manual_labeler did endpoint now;
    allowed = adds did endpoint m p b r;
    left = ap (λ o. some (upserted (manual_labeler did endpoint now) o)) q;
    at = refl;
    under = refl;
    switched = refl;
  }
  Asks-Left d on ep sig (adds_again did endpoint row m p b r q) = record {
    update = λ o. some (upserted (manual_labeler did endpoint now) o);
    row = upserted (manual_labeler did endpoint now) (some row);
    allowed = adds did endpoint m p b r;
    left = ap (λ o. some (upserted (manual_labeler did endpoint now) o)) q;
    at = refl;
    under = refl;
    switched = refl;
  }
  Asks-Left d on ep sig (asks_policy did policy row m p b q) = record {
    update = changed (λ l. record l { require_sig = policy });
    row = record row { require_sig = policy };
    allowed = sets_policy did policy m p b;
    left = ap (changed (λ l. record l { require_sig = policy })) q;
    at = refl;
    under = refl;
    switched = refl;
  }
  Asks-Left d on ep sig (asks_removal did row m p q) = record {
    update = changed (λ l. record l { enabled = false });
    row = record row { enabled = false };
    allowed = removes did m p;
    left = ap (changed (λ l. record l { enabled = false })) q;
    at = refl;
    under = refl;
    switched = refl;
  }
  Asks-Left d on ep sig (asks_disabled did row m p q) = record {
    update = changed (λ l. record l { enabled = false });
    row = record row { enabled = false };
    allowed = disables did m p;
    left = ap (changed (λ l. record l { enabled = false })) q;
    at = refl;
    under = refl;
    switched = refl;
  }
  Asks-Left d on ep sig (asks_enabled did row m p q) = record {
    update = changed (λ l. record l { enabled = true });
    row = record row { enabled = true };
    allowed = enables did m p;
    left = ap (changed (λ l. record l { enabled = true })) q;
    at = refl;
    under = refl;
    switched = refl;
  }

  module _ {W : Type 0} (on_reconciled : Option (ℕ → W → W))
      (wakes : List (Wake × Result (List Labeler))) (wake : Wake) (later : List (Wake × String))
      (s : Slurper) (w : W) where
    -- The subscription to a labeler once the slurper has read the registry after the request.
    abbrev pub subscription_after : String → Option Labeler
    subscription_after j =
        find j
          (run_slurper on_reconciled
            (wakes ++ last_read wake (serve token (quiet_env resolve now) req a).1.registry later) s
            w).0.active

    as_asked :
        (did : String) (on : Bool) (ep : String) (sig : Option Bool) (l : Left did on ep sig)
        → Runs l.row.enabled l.row.endpoint l.row.require_sig (subscription_after did)
        → Runs on ep sig (subscription_after did)
    as_asked did on ep sig l h =
        subst (λ b. Runs b ep sig (subscription_after did)) l.switched
          (subst (λ e. Runs l.row.enabled e sig (subscription_after did)) l.at
            (subst (λ p. Runs l.row.enabled l.row.endpoint p (subscription_after did)) l.under h))

    -- A request to the admin API with the token that asks for something to be run for a DID, which is neither
    -- empty nor a slash, when no call of the database fails, over a registry with one row for each DID;
    -- then the slurper's loop, over any wakes, once it has read that registry and until it can read it again.
    -- A labeler that was added or enabled has a subscription, one that was removed or disabled has
    -- none, and one whose policy was set has one if its row is enabled; it is at the endpoint that was
    -- resolved for an added labeler, and otherwise at that of the row, with the policy that was
    -- set, or otherwise that of the row, or the default one if there was no row. Each other labeler has a
    -- subscription as its row says.
    pub serve-Runs :
        split_space req.authorization ≡ some ("Bearer", token)
        → IsKeyed a.registry
        → (did : String) (on : Bool) (ep : String) (sig : Option Bool)
        → Asks resolve a.registry req did on ep sig
        → str_eq did "" ≡ false
        → str_eq did "/" ≡ false
        → Runs on ep sig (subscription_after did)
          × ((j : String)
              → (did ≡ j) ⊎ Follows (enabled_row (find j a.registry)) (subscription_after j))
    serve-Runs bearer keyed did on ep sig asks named segment =
        let l = Asks-Left did on ep sig asks in
        let done =
          serve-Performed token resolve now req a bearer did l.update l.allowed named segment
            (λ q. cc (l.left, q)) in
        let after = (serve token (quiet_env resolve now) req a).1.registry in
        let reads : (j : String) → Follows (enabled_row (find j after)) (subscription_after j) =
          run_slurper-Follows on_reconciled wake after later
            (serve-IsKeyed token (quiet_env resolve now) req a keyed) wakes s w in
        let row : find did after ≡ some l.row =
          done.effect.rows did ∙ ground (arith, eq_iff did did) ∙ l.left in
        (
          as_asked did on ep sig l (
              Follows-Runs l.row (subscription_after did)
                (subst (λ o. Follows (enabled_row o) (subscription_after did)) row (reads did))),
          λ j. elim (Bool-cases (str_eq did j)) [
            | inl q ↦ inl ((eq_iff did j).0 q)
            | inr q ↦ inr (
                subst (λ o. Follows (enabled_row o) (subscription_after j))
                  (done.effect.rows j ∙ ground (arith, q)) (reads j))
          ],
        )
