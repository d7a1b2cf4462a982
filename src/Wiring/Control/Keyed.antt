-- ===== src/Wiring/Control/Keyed.antt =====
-- No request to the admin API gives a labeler a second row.
use labeler_relay.Prelude.{
  ◌≡◌, refl, sym, subst, inl, inr, String, Bool, true, false, Option, none, some, ℤ, Result, ok,
  err, Fault, str_eq, Bool-cases,
}
use labeler_relay.Store.Registry.{Labeler, Registry, upsert, set_enabled, set_require_sig}
use labeler_relay.Store.Registry.Keys.{IsKeyed, upsert-IsKeyed, update_one-IsKeyed}
use labeler_relay.Admin.{
  Api, Patch, invalid_body, missing_field, wrong_type, sets, manual_labeler, after_upsert,
  add_resolved, after_set_enabled, after_set_sig, handle_post_labeler, handle_patch_labeler,
  handle_delete_labeler, handle_enable_labeler, handle_disable_labeler, handle_get_labelers,
}
use labeler_relay.Admin.Outcomes.{require_bearer-outcome}
use labeler_relay.Admin.Routes.{
  Env, Request, Endpoint, post_labeler, delete_labeler, get_labelers, enable_labeler,
  disable_labeler, patch_labeler, routes, find_route, run_endpoint, dispatch, serve,
}

after_upsert-IsKeyed :
    (f g : Fault) (new : Labeler) (did : String) (a : Api) (u : Result Registry)
    → upsert f new a.registry ≡ u
    → IsKeyed a.registry
    → IsKeyed (after_upsert did g u a).1.registry
after_upsert-IsKeyed f g new did a (err e) q h = h
after_upsert-IsKeyed f g new did a (ok db) q h = upsert-IsKeyed f new a.registry db q h

add_resolved-IsKeyed :
    (f g : Fault) (now : ℤ) (did : String) (r : Result String) (a : Api)
    → IsKeyed a.registry
    → IsKeyed (add_resolved f g now did r a).1.registry
add_resolved-IsKeyed f g now did (err e) a h = h
add_resolved-IsKeyed f g now did (ok endpoint) a h =
    after_upsert-IsKeyed f g (manual_labeler did endpoint now) did a _ refl h

handle_post_labeler-IsKeyed :
    (resolve : String → Result String) (f g : Fault) (now : ℤ) (body : Option String) (a : Api)
    → IsKeyed a.registry
    → IsKeyed (handle_post_labeler resolve f g now body a).1.registry
unfolding handle_post_labeler
handle_post_labeler-IsKeyed resolve f g now none a h = h
handle_post_labeler-IsKeyed resolve f g now (some did) a h = elim (Bool-cases (str_eq did "")) [
  | inl q ↦ rw q h
  | inr q ↦ rw q (add_resolved-IsKeyed f g now did (resolve did) a h)
]

after_set_enabled-IsKeyed :
    (r : Result (Unit {0}) × Registry) (a : Api)
    → IsKeyed r.1
    → IsKeyed (after_set_enabled r a).1.registry
after_set_enabled-IsKeyed (err e, db) a h = h
after_set_enabled-IsKeyed (ok tt, db) a h = h

set_enabled-IsKeyed :
    (exec affected : Fault) (did : String) (b : Bool) (a : Api)
    → IsKeyed a.registry
    → IsKeyed (after_set_enabled (set_enabled exec affected did b a.registry) a).1.registry
unfolding set_enabled
set_enabled-IsKeyed exec affected did b a h = after_set_enabled-IsKeyed _ a (
    update_one-IsKeyed exec affected "failed to set enabled" did (λ l. record l { enabled = b })
      a.registry (λ l. refl) h)

after_set_sig-IsKeyed :
    (did : String) (g : Fault) (r : Result (Unit {0}) × Registry) (a : Api)
    → IsKeyed r.1
    → IsKeyed (after_set_sig did g r a).1.registry
after_set_sig-IsKeyed did g (err e, db) a h = h
after_set_sig-IsKeyed did g (ok tt, db) a h = h

handle_patch_labeler-IsKeyed :
    (exec affected g : Fault) (did : String) (p : Patch) (a : Api)
    → IsKeyed a.registry
    → IsKeyed (handle_patch_labeler exec affected g did p a).1.registry
unfolding handle_patch_labeler set_require_sig
handle_patch_labeler-IsKeyed exec affected g did invalid_body a h = h
handle_patch_labeler-IsKeyed exec affected g did missing_field a h = h
handle_patch_labeler-IsKeyed exec affected g did wrong_type a h = h
handle_patch_labeler-IsKeyed exec affected g did (sets sig) a h = after_set_sig-IsKeyed did g _ a (
    update_one-IsKeyed exec affected "failed to set require_sig" did
      (λ l. record l { require_sig = sig }) a.registry (λ l. refl) h)

module _ (token : String) (env : Env) (req : Request) (a : Api) (keyed : IsKeyed a.registry) where
  run_endpoint-IsKeyed :
      (endpoint : Endpoint) (did : String)
      → IsKeyed (run_endpoint env req endpoint did a).1.registry
  unfolding handle_delete_labeler handle_enable_labeler handle_disable_labeler handle_get_labelers
  run_endpoint-IsKeyed post_labeler did =
      handle_post_labeler-IsKeyed env.resolve env.upsert_fault env.get_fault env.now req.add_body a
        keyed
  run_endpoint-IsKeyed delete_labeler did =
      set_enabled-IsKeyed env.exec_fault env.affected_fault did false a keyed
  run_endpoint-IsKeyed get_labelers did = keyed
  run_endpoint-IsKeyed enable_labeler did =
      set_enabled-IsKeyed env.exec_fault env.affected_fault did true a keyed
  run_endpoint-IsKeyed disable_labeler did =
      set_enabled-IsKeyed env.exec_fault env.affected_fault did false a keyed
  run_endpoint-IsKeyed patch_labeler did =
      handle_patch_labeler-IsKeyed env.exec_fault env.affected_fault env.get_fault did
        req.patch_body a keyed

  dispatch-IsKeyed :
      (route : Option (Endpoint × String)) → IsKeyed (dispatch token env req route a).1.registry
  dispatch-IsKeyed none = keyed
  dispatch-IsKeyed (some (endpoint, did)) =
      elim (require_bearer-outcome token req.authorization (run_endpoint env req endpoint did) a) [
        | inl (bearer, passed) ↦
            subst (λ out. IsKeyed out.1.registry) (sym passed) (run_endpoint-IsKeyed endpoint did)
        | inr (refused, same) ↦ subst (λ b. IsKeyed b.registry) (sym same) keyed
      ]

  -- No request gives a labeler a second row.
  pub serve-IsKeyed : IsKeyed (serve token env req a).1.registry
  unfolding serve
  serve-IsKeyed = dispatch-IsKeyed (find_route routes req)
