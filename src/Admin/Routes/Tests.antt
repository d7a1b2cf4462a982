-- ===== src/Admin/Routes/Tests.antt =====
-- Requests by method and path, with a token.
use labeler_relay.Prelude.{◌≡◌, refl, ◌⊎◌, some, none, [], ◌∷◌, pos, ok}
use labeler_relay.Store.Registry.{find, modify, set_enabled}
use labeler_relay.Store.Samples.{two_labelers}
use labeler_relay.Admin.{Api, invalid_body, require_bearer, split_space, handle_enable_labeler}
use labeler_relay.Admin.Routes.{
  Env, Request, find_route, match_path, routes, has_path, serve, enable_labeler,
}
use labeler_relay.Prelude.{◌≢◌, Option, true}
use labeler_relay.Store.Registry.{Labeler}
use labeler_relay.Store.Registry.Laws.{changed}
use labeler_relay.Admin.Routes.Effects.{enables}
use labeler_relay.Admin.Routes.Handled.{Performed}
use labeler_relay.Admin.Routes.Performs.{quiet_env, serve-Performed}
use labeler_relay.Admin.Routes.Permitted.{Changes, serve-outcome}

abbrev registered : Api
registered = record { registry = two_labelers; pokes = 0 }

abbrev env : Env
env = record {
  resolve = λ did. ok "https://c.example";
  now = pos 9;
  upsert_fault = none;
  get_fault = none;
  exec_fault = none;
  affected_fault = none;
  list_fault = none;
}

abbrev enable_request : Request
enable_request = record {
  method = "POST";
  segments = "admin" ∷ "labelers" ∷ "did:plc:a" ∷ "enable" ∷ [];
  authorization = "Bearer s3";
  add_body = none;
  patch_body = invalid_body;
}

enable_run : find_route routes enable_request ≡ some (enable_labeler, "did:plc:a")
unfolding find_route match_path
enable_run = refl

served_run : (serve "s3" env enable_request registered).0.status ≡ 204
unfolding serve find_route match_path has_path require_bearer split_space handle_enable_labeler
    set_enabled find modify
served_run = refl

wrong_method_run :
    (serve "s3" env (record enable_request { method = "PUT" }) registered).0.status ≡ 405
unfolding serve find_route match_path has_path
wrong_method_run = refl

serve-outcome_example :
    ((serve "s3" env enable_request registered).1 ≡ registered)
    ⊎ Changes "s3" env enable_request registered (serve "s3" env enable_request registered)
serve-outcome_example = serve-outcome "s3" env enable_request registered

bearer_run : split_space "Bearer s3" ≡ some ("Bearer", "s3")
unfolding split_space
bearer_run = refl

abbrev enabling : Option Labeler → Option Labeler
enabling = changed (λ l. record l { enabled = true })

there_run : enabling (find "did:plc:a" two_labelers) ≢ none
unfolding find
there_run h = cc

serve-Performed_example :
    Performed "did:plc:a" enabling registered
      (serve "s3" (quiet_env (λ did. ok "https://c.example") (pos 9)) enable_request registered)
serve-Performed_example =
    serve-Performed "s3" (λ did. ok "https://c.example") (pos 9) enable_request registered
      bearer_run "did:plc:a" enabling (enables "did:plc:a" refl refl) refl refl there_run
