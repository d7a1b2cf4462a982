-- ===== src/Admin/Routes/Permitted.antt =====
-- What the admin API as a whole lets a request change.
use labeler_relay.Prelude.{
  ◌≡◌, refl, sym, subst, ap, ◌∙◌, ◌⊎◌, inl, inr, String, Bool, true, false, Option, none, some, [],
  ◌∷◌, Option-cases,
}
use labeler_relay.Store.Registry.{set_enabled}
use labeler_relay.Store.Registry.Laws.{changed}
use labeler_relay.Admin.{
  Response, Api, Patch, invalid_body, missing_field, wrong_type, sets, split_space,
  after_set_enabled, handle_post_labeler, handle_patch_labeler, handle_delete_labeler,
  handle_enable_labeler, handle_disable_labeler, handle_get_labelers,
}
use labeler_relay.Admin.Outcomes.{require_bearer-outcome, handle_post_labeler-outcome}
use labeler_relay.Admin.Routes.{
  Env, Request, Endpoint, routes, find_route, run_endpoint, dispatch, serve,
}
use labeler_relay.Admin.Routes.Matching.{method_of, Found, find_route-Found}
use labeler_relay.Admin.Routes.Effects.{
  RowUpdate, Allowed, adds, sets_policy, removes, disables, enables, Effect, Does,
  set_enabled-Effect, set_require_sig-Effect,
}

module _ (token : String) (env : Env) (req : Request) (a : Api) where
  post-Does :
      (body : Option String)
      → req.add_body ≡ body
      → req.method ≡ "POST"
      → req.segments ≡ "admin" ∷ "labelers" ∷ []
      → Does
          (Allowed env req)
          a
          (handle_post_labeler env.resolve env.upsert_fault env.get_fault env.now body a)
  unfolding handle_post_labeler
  post-Does none b m p = inl refl
  post-Does (some did) b m p =
      elim (handle_post_labeler-outcome env.resolve env.upsert_fault env.get_fault env.now did a) [
        | inl same ↦ inl same
        | inr (endpoint, resolved, added) ↦ inr (
          did,
          _,
          adds did endpoint m p b resolved,
          record { rows = added.rows; poked = inl added.poked },
        )
      ]

  patch-Does :
      (did : String) (body : Patch)
      → req.patch_body ≡ body
      → req.method ≡ "PATCH"
      → req.segments ≡ "admin" ∷ "labelers" ∷ did ∷ []
      → Does
          (Allowed env req)
          a
          (handle_patch_labeler env.exec_fault env.affected_fault env.get_fault did body a)
  unfolding handle_patch_labeler
  patch-Does did invalid_body b m p = inl refl
  patch-Does did missing_field b m p = inl refl
  patch-Does did wrong_type b m p = inl refl
  patch-Does did (sets sig) b m p =
      elim (set_require_sig-Effect env.exec_fault env.affected_fault env.get_fault did sig a) [
        | inl same ↦ inl same
        | inr effect ↦ inr (did, _, sets_policy did sig m p b, effect)
      ]

  set_enabled-Does :
      (did : String) (b : Bool)
      → Allowed env req did (changed (λ l. record l { enabled = b }))
      → Does
          (Allowed env req)
          a
          (after_set_enabled (set_enabled env.exec_fault env.affected_fault did b a.registry) a)
  set_enabled-Does did b allowed =
      elim (set_enabled-Effect env.exec_fault env.affected_fault did b a) [
        | inl same ↦ inl same
        | inr effect ↦ inr (did, _, allowed, effect)
      ]

  run_endpoint-Does :
      (endpoint : Endpoint) (did : String)
      → Found req routes endpoint did
      → Does (Allowed env req) a (run_endpoint env req endpoint did a)
  unfolding handle_delete_labeler handle_enable_labeler handle_disable_labeler handle_get_labelers
  run_endpoint-Does endpoint did (inl (kind, m, (r1, q1, (r2, q2, (q3, q4))))) =
      subst (λ k. Does (Allowed env req) a (run_endpoint env req k did a)) kind
        (post-Does req.add_body refl (method_of "POST" req.method refl m) cc)
  run_endpoint-Does endpoint did (inr (inl (kind, m, (r1, q1, (r2, q2, (s, r3, q3, (q4, q5))))))) =
      subst (λ k. Does (Allowed env req) a (run_endpoint env req k did a)) kind
        (set_enabled-Does did false (removes did (method_of "DELETE" req.method refl m) cc))
  run_endpoint-Does endpoint did (inr (inr (inl (kind, m, rest)))) =
      subst (λ k. Does (Allowed env req) a (run_endpoint env req k did a)) kind (inl refl)
  run_endpoint-Does endpoint did
        (inr (inr (inr (inl (kind, m, (r1, q1, (r2, q2, (s, r3, q3, (r4, q4, (q5, q6)))))))))) =
      subst (λ k. Does (Allowed env req) a (run_endpoint env req k did a)) kind
        (set_enabled-Does did true (enables did (method_of "POST" req.method refl m) cc))
  run_endpoint-Does endpoint did
        (inr
          (inr (inr (inr (inl (kind, m, (r1, q1, (r2, q2, (s, r3, q3, (r4, q4, (q5, q6))))))))))) =
      subst (λ k. Does (Allowed env req) a (run_endpoint env req k did a)) kind
        (set_enabled-Does did false (disables did (method_of "POST" req.method refl m) cc))
  run_endpoint-Does endpoint did
        (inr (inr (inr (inr (inr (inl (kind, m, (r1, q1, (r2, q2, (s, r3, q3, (q4, q5))))))))))) =
      subst (λ k. Does (Allowed env req) a (run_endpoint env req k did a)) kind
        (patch-Does did req.patch_body refl (method_of "PATCH" req.method refl m) cc)
  run_endpoint-Does endpoint did (inr (inr (inr (inr (inr (inr impossible)))))) = absurd impossible

  -- A change of the registry: by a request with the token, that may make it.
  abbrev pub Changes : Response × Api → Type 0
  Changes out =
      (split_space req.authorization ≡ some ("Bearer", token))
      × ((did : String) × (update : RowUpdate) × Allowed env req did update
          × Effect did update a out)

  dispatch-outcome :
      (endpoint : Endpoint) (did : String)
      → Does (Allowed env req) a (run_endpoint env req endpoint did a)
      → ((dispatch token env req (some (endpoint, did)) a).1 ≡ a)
        ⊎ Changes (dispatch token env req (some (endpoint, did)) a)
  dispatch-outcome endpoint did h =
      elim (require_bearer-outcome token req.authorization (run_endpoint env req endpoint did) a) [
        | inr (refused, same) ↦ inl same
        | inl (bearer, passed) ↦ elim h [
          | inl same ↦ inl (ap (λ out. out.1) passed ∙ same)
          | inr (j, update, allowed, effect) ↦ inr (
            bearer,
            (j, update, allowed, subst (λ out. Effect j update a out) (sym passed) effect),
          )
        ]
      ]

  -- A request to the admin API, whatever it is and whatever fails: nothing has changed and no reconcile
  -- was asked for, or its Authorization header is the word Bearer, a space and the token, and it is one of
  -- these: a POST of a DID that resolves, or a PATCH, DELETE or POST of enable or disable on the path of
  -- a DID. Then the row of that DID alone is changed, to what Upsert leaves of a manual labeler at the
  -- resolved endpoint, or, if there is one, in its signature policy or `enabled` flag, and one reconcile
  -- was asked for, or none and the status is 404.
  pub serve-outcome : ((serve token env req a).1 ≡ a) ⊎ Changes (serve token env req a)
  unfolding serve
  serve-outcome = elim (Option-cases (find_route routes req)) [
    | inl q ↦ rw q (inl refl)
    | inr ((endpoint, did), q) ↦ rw q (
        dispatch-outcome endpoint did
          (run_endpoint-Does endpoint did (find_route-Found req routes endpoint did q)))
  ]
