-- ===== src/Metrics/Registered.antt =====
-- The outcome of Register.
use labeler_relay.Prelude.{
  ◌≡◌, refl, ap, ◌∙◌, String, true, false, List, [], ◌∷◌, any, ok, err, str_eq,
}
use labeler_relay.Metrics.{Collector, name_of, collectors, Prometheus, register_each, register}

-- The names after the collectors, the last one first.
abbrev pub named : List Collector → List String → List String
named [] ns = ns
named (c ∷ cs) ns = named cs (name_of c ∷ ns)

-- No collector has the name of a later one or of one that is there.
abbrev pub AllNew : List Collector → List String → Type 0
AllNew [] ns = Unit
AllNew (c ∷ cs) ns = (any (str_eq (name_of c)) ns ≡ false) × AllNew cs (name_of c ∷ ns)

module _ {R : Type 0} (prom : Prometheus R) where
  register_each-AllNew :
      (cs : List Collector) (r : R) (ns : List String)
      → prom.names r ≡ ns
      → AllNew cs ns
      → ((register_each prom cs r).0 ≡ ok tt)
        × (prom.names (register_each prom cs r).1 ≡ named cs ns)
  unfolding register_each
  register_each-AllNew [] r ns q h = (refl, q)
  register_each-AllNew (c ∷ cs) r ns q h =
      let (r', step, names) = prom.added (name_of c) r (ap (any (str_eq (name_of c))) q ∙ h.0) in
      rw (register_each, step)
        (register_each-AllNew cs r' (name_of c ∷ ns) (names ∙ ap (◌∷◌ (name_of c)) q) h.1)

  -- Register on a registry without collectors succeeds and registers the seven collectors, and on a
  -- registry that has a collector of the first name, as after a successful call, it fails and registers
  -- nothing.
  pub register-outcome :
      (empty full : R) (n : List String)
      → prom.names empty ≡ []
      → prom.names full ≡ n
      → any (str_eq "labeler_relay_dropped_unsigned_total") n ≡ true
      → ((register prom empty).0 ≡ ok tt)
        × (prom.names (register prom empty).1 ≡ named collectors [])
        × ((e : String) × (register prom full ≡ (err e, full)))
  unfolding register register_each
  register-outcome empty full n q k there =
      let (done, names) =
        register_each-AllNew collectors empty [] q
          (refl, (refl, (refl, (refl, (refl, (refl, (refl, tt))))))) in
      let (e, failed) =
        prom.refused "labeler_relay_dropped_unsigned_total" full
          (ap (any (str_eq "labeler_relay_dropped_unsigned_total")) k ∙ there) in
      (done, names, (e, rw (register_each, failed) refl))
