-- ===== src/Slurper/Reconcile/Idempotent.antt =====
-- A second Reconcile with the same rows.
use labeler_relay.Prelude.{
  ◌≡◌, refl, ap, ◌∙◌, inl, inr, Bool, true, false, not, Option, none, some, List, [], ◌∷◌, ◌++◌,
  append-nil, arith, eq_iff, if◌then◌else◌, Bool-cases, select, select-of_true, select-of_false,
  All, All-imp, All-select,
}
use labeler_relay.Store.Registry.{Labeler, find}
use labeler_relay.Slurper.Policy.{subscription_config_changed, sig_changed}
use labeler_relay.Slurper.Reconcile.{
  Slurper, stop, restart_changed, restart_one, start_missing, start_one, is_enabled, stop_disabled,
  sync,
}
use labeler_relay.Store.Registry.Keys.{IsKeyed}
use labeler_relay.Slurper.Reconcile.Active.{wanted, sync-active}

sig_unchanged : (a : Option Bool) → sig_changed a a ≡ false
sig_unchanged none = refl
sig_unchanged (some true) = refl
sig_unchanged (some false) = refl

self_unchanged : (a : Labeler) → subscription_config_changed a a ≡ false
unfolding subscription_config_changed
self_unchanged a =
    ground (arith, (eq_iff a.endpoint a.endpoint).1 refl, sig_unchanged a.require_sig)

-- The DID of the row has a subscription that needs no restart.
record Settled (s : Slurper) (l : Labeler) : Type 0 where
  pub snapshot : Labeler
  pub found : find l.did s.active ≡ some snapshot
  pub unchanged : subscription_config_changed snapshot l ≡ false

restart_changed-Settled :
    (s : Slurper) (ls : List Labeler) → All (Settled s) ls → restart_changed ls s ≡ s
unfolding restart_changed
restart_changed-Settled s [] a = refl
restart_changed-Settled s (l ∷ ls) a =
    ap (λ o. restart_changed ls (restart_one l o s)) (a.0.found)
    ∙ ap (λ b. restart_changed ls (restart b)) (a.0.unchanged)
    ∙ restart_changed-Settled s ls a.1
  where
    restart : Bool → Slurper
    restart b = if b then stop a.0.snapshot s else s

start_missing-Settled :
    (s : Slurper) (ls : List Labeler) → All (Settled s) ls → start_missing ls s ≡ s
unfolding start_missing
start_missing-Settled s [] a = refl
start_missing-Settled s (l ∷ ls) a =
    ap (λ o. start_missing ls (start_one l o s)) (a.0.found) ∙ start_missing-Settled s ls a.1

stop_disabled-idle :
    (en : List Labeler) (s : Slurper)
    → All (λ l. is_enabled en l.did ≡ true) s.active
    → stop_disabled en s ≡ s
unfolding stop_disabled
stop_disabled-idle en s a =
    ap
      (λ ls. record s {
        active = ls;
        ended = s.ended ++ select (λ l. not (is_enabled en l.did)) s.active;
      })
      (select-of_true (λ l. is_enabled en l.did) s.active a)
    ∙ ap (λ ls. record s { ended = s.ended ++ ls })
        (select-of_false (λ l. not (is_enabled en l.did)) s.active
          (All-imp _ _ s.active (λ l k. rw k) a))
    ∙ ap (λ ls. record s { ended = ls }) (append-nil s.ended)

find-keyed : (ls : List Labeler) → IsKeyed ls → All (λ l. find l.did ls ≡ some l) ls
unfolding find
find-keyed [] k = tt
find-keyed (l ∷ ls) k = (
  ground (arith, (eq_iff l.did l.did).1 refl),
  All-imp _ _ ls (λ x q. apart x q) (find-keyed ls k.1),
)
  where
    apart : (x : Labeler) → find x.did ls ≡ some x → find x.did (l ∷ ls) ≡ some x
    apart x q = ground (arith, k.0, eq_iff l.did x.did)

wanted-Settled :
    (l : Labeler) (s : Slurper) (o : Option Labeler)
    → find l.did s.active ≡ wanted (some l) o
    → Settled s l
wanted-Settled l s none q = record { snapshot = l; found = q; unchanged = self_unchanged l }
wanted-Settled l s (some sc) q = elim (Bool-cases (subscription_config_changed sc l)) [
  | inl c ↦ record {
    snapshot = l;
    found = q ∙ ap (λ b. if b then some l else some sc) c;
    unchanged = self_unchanged l;
  }
  | inr c ↦ record {
    snapshot = sc;
    found = q ∙ ap (λ b. if b then some l else some sc) c;
    unchanged = c;
  }
]

active_enabled :
    (en : List Labeler) (s : Slurper) → All (λ l. is_enabled en l.did ≡ true) (sync en s).active
unfolding sync stop_disabled
active_enabled en s = All-select (λ l. is_enabled en l.did) _

sync-Settled :
    (en : List Labeler) (t : Slurper)
    → All (Settled t) en
    → All (λ l. is_enabled en l.did ≡ true) t.active
    → sync en t ≡ t
unfolding sync
sync-Settled en t a b =
    ap (λ u. stop_disabled en (start_missing en u)) (restart_changed-Settled t en a)
    ∙ ap (stop_disabled en) (start_missing-Settled t en a)
    ∙ stop_disabled-idle en t b

-- Reconcile is idempotent: with the same enabled rows, of different DIDs, a second one right after the
-- first starts no subscription and ends none.
pub sync-sync : (en : List Labeler) (s : Slurper) → IsKeyed en → sync en (sync en s) ≡ sync en s
sync-sync en s k =
    sync-Settled en (sync en s)
      (All-imp _ _ en
        (λ l q.
          wanted-Settled l (sync en s) (find l.did s.active)
            (sync-active en s l.did k ∙ ap (λ o. wanted o (find l.did s.active)) q))
        (find-keyed en k))
      (active_enabled en s)
