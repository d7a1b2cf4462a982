-- ===== src/Admin/Routes/Performs.antt =====
-- What the admin API does when nothing fails.
use labeler_relay.Prelude.{
  ◌≡◌, ◌≢◌, refl, sym, subst, ap, ◌∙◌, String, true, false, none, some, List, [], ◌∷◌, ℤ, Result,
  str_eq, eq_iff, arith,
}
use labeler_relay.Store.Registry.{find}
use labeler_relay.Admin.{
  Response, Api, split_space, require_bearer, authorize, handle_post_labeler, handle_patch_labeler,
  handle_delete_labeler, handle_enable_labeler, handle_disable_labeler,
}
use labeler_relay.Admin.Routes.{
  Env, Request, Endpoint, post_labeler, delete_labeler, enable_labeler, disable_labeler,
  patch_labeler, routes, match_path, find_route, run_endpoint, dispatch, serve,
}
use labeler_relay.Admin.Routes.Effects.{
  RowUpdate, Allowed, adds, sets_policy, removes, disables, enables,
}
use labeler_relay.Admin.Routes.Handled.{
  Performed, set_enabled-Performed, set_require_sig-Performed, handle_post_labeler-Performed,
}

-- A request with the method and the path.
abbrev asked : Request → String → List String → Request
asked req method segments = record req { method = method; segments = segments }

as_asked :
    (req : Request) (method : String) (segments : List String)
    → req.method ≡ method
    → req.segments ≡ segments
    → req ≡ asked req method segments
as_asked req method segments m p =
    ap (λ x. record req { method = x }) m ∙ ap (λ x. record req { method = method; segments = x }) p

route-post :
    (req : Request)
    → find_route routes (asked req "POST" ("admin" ∷ "labelers" ∷ [])) ≡ some (post_labeler, "")
unfolding find_route match_path
route-post req = refl

module _ (req : Request) (did : String) (segment : str_eq did "/" ≡ false) where
  route-patch :
      find_route routes (asked req "PATCH" ("admin" ∷ "labelers" ∷ did ∷ []))
      ≡ some (patch_labeler, did)
  unfolding find_route match_path
  route-patch = ground (arith, segment)

  route-delete :
      find_route routes (asked req "DELETE" ("admin" ∷ "labelers" ∷ did ∷ []))
      ≡ some (delete_labeler, did)
  unfolding find_route match_path
  route-delete = ground (arith, segment)

  route-enable :
      find_route routes (asked req "POST" ("admin" ∷ "labelers" ∷ did ∷ "enable" ∷ []))
      ≡ some (enable_labeler, did)
  unfolding find_route match_path
  route-enable = ground (arith, segment)

  route-disable :
      find_route routes (asked req "POST" ("admin" ∷ "labelers" ∷ did ∷ "disable" ∷ []))
      ≡ some (disable_labeler, did)
  unfolding find_route match_path
  route-disable = ground (arith, segment)

-- The token opens the handler.
require_bearer-passes :
    {S : Type 0} (token auth : String) (next : S → Response × S) (s : S)
    → split_space auth ≡ some ("Bearer", token)
    → require_bearer token auth next s ≡ next s
unfolding require_bearer
require_bearer-passes token auth next s h =
    ap (λ parts. authorize token parts next s) h ∙ ground (arith, eq_iff token token)

-- Nothing fails but the resolver.
abbrev pub quiet_env : (String → Result String) → ℤ → Env
quiet_env resolve now = record {
  resolve = resolve;
  now = now;
  upsert_fault = none;
  get_fault = none;
  exec_fault = none;
  affected_fault = none;
  list_fault = none;
}

module _ (token : String) (resolve : String → Result String) (now : ℤ) (req : Request) (a : Api)
    (bearer : split_space req.authorization ≡ some ("Bearer", token)) where
  abbrev env : Env
  env = quiet_env resolve now

  serve-runs :
      (endpoint : Endpoint) (did : String)
      → find_route routes req ≡ some (endpoint, did)
      → serve token env req a ≡ run_endpoint env req endpoint did a
  unfolding serve
  serve-runs endpoint did q =
      ap (λ route. dispatch token env req route a) q
      ∙ require_bearer-passes token req.authorization (run_endpoint env req endpoint did) a bearer

  -- The route that a method and a path take.
  taken :
      (method : String) (segments : List String) (route : Endpoint × String)
      → req.method ≡ method
      → req.segments ≡ segments
      → find_route routes (asked req method segments) ≡ some route
      → find_route routes req ≡ some route
  taken method segments route m p q = ap (find_route routes) (as_asked req method segments m p) ∙ q

  -- A request with the token that may change the row of a DID, which is neither empty nor a slash, and, but
  -- for a POST, is in the registry: when no call of the database fails, the change is made, no other row
  -- is changed, one reconcile is asked for, and the status is below 300.
  pub serve-Performed :
      (did : String) (update : RowUpdate)
      → Allowed env req did update
      → str_eq did "" ≡ false
      → str_eq did "/" ≡ false
      → update (find did a.registry) ≢ none
      → Performed did update a (serve token env req a)
  unfolding handle_delete_labeler handle_enable_labeler handle_disable_labeler handle_patch_labeler
  serve-Performed did update (adds d endpoint m p body resolved) named segment there =
      let run =
        serve-runs post_labeler ""
          (taken "POST" ("admin" ∷ "labelers" ∷ []) _ m p (route-post req)) in
      subst (λ out. Performed did update a out)
        (ap (λ b. handle_post_labeler resolve none none now b a) (sym body) ∙ sym run)
        (handle_post_labeler-Performed resolve now did endpoint a named resolved)
  serve-Performed did update (sets_policy d sig m p body) named segment there =
      let run =
        serve-runs patch_labeler did
          (taken "PATCH" ("admin" ∷ "labelers" ∷ did ∷ []) _ m p (route-patch req did segment)) in
      subst (λ out. Performed did update a out)
        (ap (λ b. handle_patch_labeler none none none did b a) (sym body) ∙ sym run)
        (set_require_sig-Performed did sig a (λ q. there (ap update q)))
  serve-Performed did update (removes d m p) named segment there =
      let run =
        serve-runs delete_labeler did
          (taken "DELETE" ("admin" ∷ "labelers" ∷ did ∷ []) _ m p (route-delete req did segment)) in
      subst (λ out. Performed did update a out) (sym run)
        (set_enabled-Performed did false a (λ q. there (ap update q)))
  serve-Performed did update (disables d m p) named segment there =
      let run = serve-runs disable_labeler did (
        taken "POST" ("admin" ∷ "labelers" ∷ did ∷ "disable" ∷ []) _ m p
          (route-disable req did segment)) in
      subst (λ out. Performed did update a out) (sym run)
        (set_enabled-Performed did false a (λ q. there (ap update q)))
  serve-Performed did update (enables d m p) named segment there =
      let run = serve-runs enable_labeler did (
        taken "POST" ("admin" ∷ "labelers" ∷ did ∷ "enable" ∷ []) _ m p
          (route-enable req did segment)) in
      subst (λ out. Performed did update a out) (sym run)
        (set_enabled-Performed did true a (λ q. there (ap update q)))
