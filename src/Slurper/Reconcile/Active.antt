-- ===== src/Slurper/Reconcile/Active.antt =====
-- Which subscriptions are active after Reconcile.
use labeler_relay.Prelude.{
  ◌≡◌, refl, sym, ap, ◌∙◌, subst, inl, inr, String, Bool, true, false, Option, none, some, List, [],
  ◌∷◌, arith, str_eq, eq_iff, if◌then◌else◌, Bool-cases, select,
}
use labeler_relay.Store.Registry.{Labeler, find}
use labeler_relay.Store.Registry.Laws.{find-append}
use labeler_relay.Store.Registry.Keys.{IsKeyed}
use labeler_relay.Slurper.Policy.{subscription_config_changed}
use labeler_relay.Slurper.Reconcile.{
  Slurper, remove, restart_one, restart_changed, start_one, start_missing, is_enabled,
  stop_disabled, sync,
}

find-did : (d : String) (ls : List Labeler) (r : Labeler) → find d ls ≡ some r → r.did ≡ d
unfolding find
find-did d [] r h = cc
find-did d (x ∷ xs) r h = ground (arith, find-did d xs r, eq_iff x.did d)

find-remove :
    (d j : String) (ls : List Labeler)
    → find j (remove d ls) ≡ (if str_eq d j then none else find j ls)
unfolding find remove
find-remove d j [] = ground arith
find-remove d j (x ∷ xs) =
    ground (arith, find-remove d j xs, eq_iff x.did d, eq_iff x.did j, eq_iff d j)

-- What the restart leaves of a subscription, by the enabled row of its DID.
abbrev survives : Option Labeler → Option Labeler → Option Labeler
survives none sc = sc
survives (some l) none = none
survives (some l) (some sc) = if subscription_config_changed sc l then none else some sc

-- A lookup at a DID that is the key compared with.
moved :
    (a b : String) (ls : List Labeler) (o : Option Labeler)
    → str_eq a b ≡ true
    → find a ls ≡ o
    → find b ls ≡ o
moved a b ls o h = subst (λ d. find d ls ≡ o) ((eq_iff a b).0 h)

restart_one-at :
    (j : String) (l : Labeler) (s : Slurper) (o : Option Labeler)
    → find l.did s.active ≡ o
    → find j (restart_one l o s).active
      ≡ (if str_eq l.did j then survives (some l) (find j s.active) else find j s.active)
restart_one-at j l s none q = elim (Bool-cases (str_eq l.did j)) [
  | inl b ↦ rw (b, moved l.did j s.active none b q) refl
  | inr b ↦ rw b refl
]
restart_one-at j l s (some sc) q = elim (Bool-cases (subscription_config_changed sc l)) [
  | inl c ↦ rw c (
      subst
        (λ d.
          find j (remove d s.active)
          ≡ (if str_eq l.did j then survives (some l) (find j s.active) else find j s.active))
        (sym (find-did l.did s.active sc q))
        (find-remove l.did j s.active ∙ elim (Bool-cases (str_eq l.did j)) [
          | inl b ↦ rw (b, moved l.did j s.active (some sc) b q, c) refl
          | inr b ↦ rw b refl
        ]))
  | inr c ↦ rw c (elim (Bool-cases (str_eq l.did j)) [
    | inl b ↦ rw (b, moved l.did j s.active (some sc) b q, c) refl
    | inr b ↦ rw b refl
  ])
]

find-restart_one :
    (j : String) (l : Labeler) (s : Slurper)
    → find j (restart_one l (find l.did s.active) s).active
      ≡ (if str_eq l.did j then survives (some l) (find j s.active) else find j s.active)
find-restart_one j l s = restart_one-at j l s (find l.did s.active) refl

find-restart_changed :
    (j : String) (ls : List Labeler) (s : Slurper)
    → IsKeyed ls
    → find j (restart_changed ls s).active ≡ survives (find j ls) (find j s.active)
unfolding restart_changed find
find-restart_changed j [] s k = refl
find-restart_changed j (l ∷ ls) s k =
    find-restart_changed j ls (restart_one l (find l.did s.active) s) k.1
    ∙ ap (survives (find j ls)) (find-restart_one j l s)
    ∙ elim (Bool-cases (str_eq l.did j)) [
      | inl b ↦ rw (b, moved l.did j ls none b k.0) refl
      | inr b ↦ rw b refl
    ]

abbrev begun : Option Labeler → Option Labeler → Option Labeler
begun o (some sc) = some sc
begun o none = o

start_one-at :
    (j : String) (l : Labeler) (s : Slurper) (o : Option Labeler)
    → find l.did s.active ≡ o
    → find j (start_one l o s).active
      ≡ (if str_eq l.did j then begun (some l) (find j s.active) else find j s.active)
start_one-at j l s none q = find-append j l s.active q ∙ elim (Bool-cases (str_eq l.did j)) [
  | inl b ↦ rw (b, moved l.did j s.active none b q) refl
  | inr b ↦ rw b refl
]
start_one-at j l s (some sc) q = elim (Bool-cases (str_eq l.did j)) [
  | inl b ↦ rw (b, moved l.did j s.active (some sc) b q) refl
  | inr b ↦ rw b refl
]

begun-none : (o : Option Labeler) → begun none o ≡ o
begun-none none = refl
begun-none (some l) = refl

begun-begun :
    (b : Bool) (l : Labeler) (o r : Option Labeler)
    → begun o (if b then begun (some l) r else r) ≡ begun (if b then some l else o) r
begun-begun true l o none = refl
begun-begun true l o (some r) = refl
begun-begun false l o r = refl

find-start_one :
    (j : String) (l : Labeler) (s : Slurper)
    → find j (start_one l (find l.did s.active) s).active
      ≡ (if str_eq l.did j then begun (some l) (find j s.active) else find j s.active)
find-start_one j l s = start_one-at j l s (find l.did s.active) refl

find-start_missing :
    (j : String) (ls : List Labeler) (s : Slurper)
    → find j (start_missing ls s).active ≡ begun (find j ls) (find j s.active)
unfolding start_missing find
find-start_missing j [] s = sym (begun-none (find j s.active))
find-start_missing j (l ∷ ls) s =
    find-start_missing j ls (start_one l (find l.did s.active) s)
    ∙ ap (begun (find j ls)) (find-start_one j l s)
    ∙ begun-begun (str_eq l.did j) l (find j ls) (find j s.active)

find-enabled :
    (j : String) (en ls : List Labeler)
    → find j (select (λ l. is_enabled en l.did) ls) ≡ (if is_enabled en j then find j ls else none)
unfolding find
find-enabled j en [] = ground arith
find-enabled j en (x ∷ xs) = ground (arith, find-enabled j en xs, eq_iff x.did j)

is_enabled-some :
    (j : String) (en : List Labeler) (l : Labeler) → find j en ≡ some l → is_enabled en j ≡ true
unfolding find is_enabled
is_enabled-some j [] l h = cc
is_enabled-some j (x ∷ xs) l h = ground (arith, is_enabled-some j xs l)

is_enabled-none : (j : String) (en : List Labeler) → find j en ≡ none → is_enabled en j ≡ false
unfolding find is_enabled
is_enabled-none j [] h = refl
is_enabled-none j (x ∷ xs) h = ground (arith, is_enabled-none j xs)

-- What Reconcile wants under a DID: the enabled row, unless the subscription that runs already has
-- its endpoint and signature policy.
abbrev pub wanted : Option Labeler → Option Labeler → Option Labeler
wanted none sc = none
wanted (some l) none = some l
wanted (some l) (some sc) = if subscription_config_changed sc l then some l else some sc

enabled-wanted :
    (j : String) (en : List Labeler) (o sc : Option Labeler)
    → find j en ≡ o
    → (if is_enabled en j then begun o (survives o sc) else none) ≡ wanted o sc
enabled-wanted j en none sc q = rw (is_enabled-none j en q) refl
enabled-wanted j en (some l) none q = rw (is_enabled-some j en l q) refl
enabled-wanted j en (some l) (some sc) q =
    rw (is_enabled-some j en l q) (elim (Bool-cases (subscription_config_changed sc l)) [
      | inl c ↦ rw c refl
      | inr c ↦ rw c refl
    ])

pub sync-active :
    (en : List Labeler) (s : Slurper) (j : String)
    → IsKeyed en
    → find j (sync en s).active ≡ wanted (find j en) (find j s.active)
unfolding sync stop_disabled
sync-active en s j k =
    find-enabled j en (start_missing en (restart_changed en s)).active
    ∙ ap (λ o. if is_enabled en j then o else none)
        (find-start_missing j en (restart_changed en s)
          ∙ ap (begun (find j en)) (find-restart_changed j en s k))
    ∙ enabled-wanted j en (find j en) (find j s.active) refl
