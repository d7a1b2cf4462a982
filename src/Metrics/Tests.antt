-- ===== src/Metrics/Tests.antt =====
-- Register on a registry that is the list of its names.
use labeler_relay.Prelude.{
  ◌≡◌, refl, String, true, false, List, [], ◌∷◌, any, if◌then◌else◌, Result, ok, err, str_eq, arith,
}
use labeler_relay.Metrics.{Prometheus, register, register_each}

abbrev add_name : String → List String → Result (List String)
add_name n ns =
    if any (str_eq n) ns
    then err "duplicate metrics collector registration attempted"
    else ok (n ∷ ns)

adds_new :
    (n : String) (ns : List String)
    → any (str_eq n) ns ≡ false
    → (r : List String) × (add_name n ns ≡ ok r) × (r ≡ n ∷ ns)
adds_new n ns h = (n ∷ ns, ground (arith, h), refl)

refuses_known :
    (n : String) (ns : List String)
    → any (str_eq n) ns ≡ true
    → (e : String) × (add_name n ns ≡ err e)
refuses_known n ns h = ("duplicate metrics collector registration attempted", ground (arith, h))

abbrev name_list : Prometheus (List String)
name_list = record { names = λ ns. ns; add = add_name; added = adds_new; refused = refuses_known }

register_run : (register name_list []).0 ≡ ok tt
unfolding register register_each
register_run = refl

register_twice :
    (register name_list (register name_list []).1).0
    ≡ err "duplicate metrics collector registration attempted"
unfolding register register_each
register_twice = refl
