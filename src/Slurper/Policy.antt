-- ===== src/Slurper/Policy.antt =====
-- internal/slurper/policy.go. A label is a type of a library, of which the code reads `Sig`.
use labeler_relay.Prelude.{
  ◌≡◌, Bool, true, false, not, ◌||◌, Option, none, some, [], ◌∷◌, if◌then◌else◌, str_eq, eq_iff,
  arith, refl,
}
use labeler_relay.Store.Events.{Bytes}
use labeler_relay.Store.Registry.{Labeler}

abbrev pub sig_required : Option Bool → Bool → Bool
sig_required none global_default = global_default
sig_required (some override) global_default = override

unfoldable pub keep_label : {Label : Type 0} → (Label → Bytes) → Label → Bool → Bool
keep_label sig label required = elim (sig label) [ [] ↦ not required | x ∷ xs ↦ true ]

-- The comparisons of two `*bool`.
abbrev pub sig_changed : Option Bool → Option Bool → Bool
sig_changed none none = false
sig_changed none (some b) = true
sig_changed (some a) none = true
sig_changed (some a) (some b) = if a then not b else b

unfoldable pub subscription_config_changed : Labeler → Labeler → Bool
subscription_config_changed snapshot current =
    not (str_eq snapshot.endpoint current.endpoint)
    || sig_changed snapshot.require_sig current.require_sig

sig_changed_iff : (a b : Option Bool) → sig_changed a b ≡ false → a ≡ b
sig_changed_iff none none h = refl
sig_changed_iff none (some b) h = ground arith
sig_changed_iff (some a) none h = ground arith
sig_changed_iff (some true) (some true) h = refl
sig_changed_iff (some true) (some false) h = ground arith
sig_changed_iff (some false) (some true) h = ground arith
sig_changed_iff (some false) (some false) h = refl

-- When SubscriptionConfigChanged answers no, the endpoint and the signature policy of the two rows are
-- the same.
pub unchanged-same :
    (a b : Labeler)
    → subscription_config_changed a b ≡ false
    → (a.endpoint ≡ b.endpoint) × (a.require_sig ≡ b.require_sig)
unfolding subscription_config_changed
unchanged-same a b h = (
  ground (arith, eq_iff a.endpoint b.endpoint),
  sig_changed_iff a.require_sig b.require_sig (ground arith),
)
