-- ===== src/Admin.antt =====
-- internal/admin/admin.go and auth.go: the handlers of the admin API. JSON is a library's: a handler
-- gets the decoded body, or `none` for one that does not decode, and gives the value that it
-- encodes. The resolver and the outcomes of the database's calls are arguments.
pub mod Outcomes
pub mod Routes
mod Tests
use Prim.Native.String
use Prim.Native.String.{slice, len}
use text.Mathlib.Text.{find?}
use labeler_relay.Prelude.{
  ℕ, zero, suc, ◌+◌, String, Bool, true, false, not, ◌&&◌, Option, none, some, List, [], ◌∷◌,
  if◌then◌else◌, ℤ, Result, ok, err, Fault, str_eq,
}
use labeler_relay.Store.Registry.{Labeler, Registry, upsert, set_enabled, set_require_sig, get}
use labeler_relay.Store.Listing.{list}

pub data Body : Type 0 where
  no_body : Body
  error_text : String → Body
  one_labeler : Labeler → Body
  labelers : List Labeler → Body

pub record Response : Type 0 where
  pub status : ℕ
  pub body : Body

-- The registry, and how often the slurper was poked.
pub record Api : Type 0 where
  pub registry : Registry
  pub pokes : ℕ

abbrev pub respond : ℕ → Body → Response
respond status body = record { status = status; body = body }

abbrev pub fails_with : ℕ → String → Response
fails_with status text = respond status (error_text text)

-- strings.SplitN(auth, " ", 2), where it has two parts.
unfoldable pub split_space : String → Option (String × String)
split_space auth = elim (find? auth " ") [
  | none ↦ none
  | some i ↦ some (slice auth 0 i, slice auth (i + 1) (len auth))
]

abbrev pub authorize :
    {S : Type 0} → String → Option (String × String) → (S → Response × S) → S → Response × S
authorize token none next s = (fails_with 401 "missing or malformed Authorization header", s)
authorize token (some (scheme, provided)) next s =
    if str_eq scheme "Bearer"
    then if str_eq provided token then next s else (fails_with 401 "invalid token", s)
    else (fails_with 401 "missing or malformed Authorization header", s)

-- RequireBearer, given the Authorization header.
unfoldable pub require_bearer :
    {S : Type 0} → String → String → (S → Response × S) → S → Response × S
unfolding split_space
require_bearer token auth next s = authorize token (split_space auth) next s

-- The row of a POST; `updated_at` is the clock.
abbrev pub manual_labeler : String → String → ℤ → Labeler
manual_labeler did endpoint now = record {
  did = did;
  endpoint = endpoint;
  origin = "manual";
  enabled = true;
  require_sig = none;
  last_upstream_seq = none;
  last_error = "";
  updated_at = now;
}

-- The echo of the persisted row.
abbrev pub echo : ℕ → Result (Option Labeler) → Response
echo status (err e) = fails_with 500 "failed to read back labeler"
echo status (ok none) = fails_with 500 "failed to read back labeler"
echo status (ok (some l)) = respond status (one_labeler l)

abbrev pub after_upsert : String → Fault → Result Registry → Api → Response × Api
after_upsert did get_fault (err e) a = (fails_with 500 "failed to add labeler", a)
after_upsert did get_fault (ok db) a =
    (echo 201 (get get_fault did db), record { registry = db; pokes = suc a.pokes })

abbrev pub add_resolved : Fault → Fault → ℤ → String → Result String → Api → Response × Api
add_resolved upsert_fault get_fault now did (err e) a =
    (fails_with 400 (String.◌++◌ "failed to resolve endpoint: " e), a)
add_resolved upsert_fault get_fault now did (ok endpoint) a =
    after_upsert did get_fault (upsert upsert_fault (manual_labeler did endpoint now) a.registry) a

unfoldable pub handle_post_labeler :
    (String → Result String) → Fault → Fault → ℤ → Option String → Api → Response × Api
handle_post_labeler resolve upsert_fault get_fault now none a =
    (fails_with 400 "invalid request body", a)
handle_post_labeler resolve upsert_fault get_fault now (some did) a =
    if str_eq did ""
    then (fails_with 400 "did required", a)
    else add_resolved upsert_fault get_fault now did (resolve did) a

-- A PATCH body: not an object, without `require_sig`, with one that is no Boolean or null, or with
-- one that is.
pub data Patch : Type 0 where
  invalid_body missing_field wrong_type : Patch
  sets : Option Bool → Patch

abbrev pub after_set_sig : String → Fault → Result (Unit {0}) × Registry → Api → Response × Api
after_set_sig did get_fault (err e, db) a =
    (fails_with 404 "labeler not found", record a { registry = db })
after_set_sig did get_fault (ok u, db) a =
    (echo 200 (get get_fault did db), record { registry = db; pokes = suc a.pokes })

unfoldable pub handle_patch_labeler : Fault → Fault → Fault → String → Patch → Api → Response × Api
handle_patch_labeler exec affected get_fault did invalid_body a =
    (fails_with 400 "invalid request body", a)
handle_patch_labeler exec affected get_fault did missing_field a =
    (fails_with 400 "require_sig required (true, false, or null)", a)
handle_patch_labeler exec affected get_fault did wrong_type a =
    (fails_with 400 "require_sig must be true, false, or null", a)
handle_patch_labeler exec affected get_fault did (sets sig) a =
    after_set_sig did get_fault (set_require_sig exec affected did sig a.registry) a

abbrev pub after_set_enabled : Result (Unit {0}) × Registry → Api → Response × Api
after_set_enabled (err e, db) a = (fails_with 404 "labeler not found", record a { registry = db })
after_set_enabled (ok u, db) a =
    (respond 204 no_body, record { registry = db; pokes = suc a.pokes })

unfoldable pub handle_delete_labeler : Fault → Fault → String → Api → Response × Api
handle_delete_labeler exec affected did a =
    after_set_enabled (set_enabled exec affected did false a.registry) a

unfoldable pub handle_enable_labeler : Fault → Fault → String → Api → Response × Api
handle_enable_labeler exec affected did a =
    after_set_enabled (set_enabled exec affected did true a.registry) a

unfoldable pub handle_disable_labeler : Fault → Fault → String → Api → Response × Api
handle_disable_labeler exec affected did a =
    after_set_enabled (set_enabled exec affected did false a.registry) a

abbrev pub listed : Result (List Labeler) → Response
listed (err e) = fails_with 500 "failed to list labelers"
listed (ok ls) = respond 200 (labelers ls)

unfoldable pub handle_get_labelers : Fault → Api → Response × Api
handle_get_labelers f a = (listed (list f a.registry), a)
