-- ===== src/Admin/Routes.antt =====
-- Routes of internal/admin/admin.go: which handler a request to the admin API reaches, behind
-- RequireBearer. The matching is that of net/http's ServeMux over the patterns used here: a method and
-- the segments of the path, a wildcard for one segment; no two of these patterns match one request.
pub mod Matching
pub mod Effects
pub mod Permitted
pub mod Handled
pub mod Performs
mod Tests
use labeler_relay.Prelude.{
  ℕ, String, Bool, true, false, ◌&&◌, ◌||◌, Option, none, some, List, [], ◌∷◌, if◌then◌else◌, ℤ,
  Result, Fault, str_eq,
}
use labeler_relay.Admin.{
  Response, Api, Patch, fails_with, respond, no_body, require_bearer, handle_post_labeler,
  handle_patch_labeler, handle_delete_labeler, handle_enable_labeler, handle_disable_labeler,
  handle_get_labelers,
}

-- What a handler meets besides the request: the resolver, the clock, and the outcomes of the calls of the
-- database.
pub record Env : Type 0 where
  pub resolve : String → Result String
  pub now : ℤ
  pub upsert_fault : Fault
  pub get_fault : Fault
  pub exec_fault : Fault
  pub affected_fault : Fault
  pub list_fault : Fault

-- A request: `segments` are those of the decoded path, "/" standing for an empty last one; `add_body` and
-- `patch_body` are its body as the two handlers that read one decode it.
pub record Request : Type 0 where
  pub method : String
  pub segments : List String
  pub authorization : String
  pub add_body : Option String
  pub patch_body : Patch

pub data Segment : Type 0 where
  literal : String → Segment
  wildcard : Segment

pub data Endpoint : Type 0 where
  post_labeler delete_labeler get_labelers enable_labeler disable_labeler patch_labeler : Endpoint

pub record Route : Type 0 where
  pub verb : String
  pub pattern_path : List Segment
  pub endpoint : Endpoint

abbrev pub labelers_path : List Segment → List Segment
labelers_path rest = literal "admin" ∷ literal "labelers" ∷ rest

-- The patterns, in the order in which they are mounted.
abbrev pub routes : List Route
routes =
    record { verb = "POST"; pattern_path = labelers_path []; endpoint = post_labeler }
    ∷ record {
      verb = "DELETE";
      pattern_path = labelers_path (wildcard ∷ []);
      endpoint = delete_labeler;
    }
    ∷ record { verb = "GET"; pattern_path = labelers_path []; endpoint = get_labelers }
    ∷ record {
      verb = "POST";
      pattern_path = labelers_path (wildcard ∷ literal "enable" ∷ []);
      endpoint = enable_labeler;
    }
    ∷ record {
      verb = "POST";
      pattern_path = labelers_path (wildcard ∷ literal "disable" ∷ []);
      endpoint = disable_labeler;
    }
    ∷ record {
      verb = "PATCH";
      pattern_path = labelers_path (wildcard ∷ []);
      endpoint = patch_labeler;
    }
    ∷ []

-- The value of the wildcard, `value` so far, if the path matches.
unfoldable pub match_path : List Segment → List String → String → Option String
match_path [] [] value = some value
match_path [] (s ∷ ss) value = none
match_path (p ∷ ps) [] value = none
match_path (literal x ∷ ps) (s ∷ ss) value =
    let rest = match_path ps ss value in if str_eq x s then rest else none
match_path (wildcard ∷ ps) (s ∷ ss) value =
    let rest = match_path ps ss s in if str_eq s "/" then none else rest

-- A GET pattern also matches HEAD.
abbrev pub match_method : String → String → Bool
match_method verb method = str_eq verb method || (str_eq verb "GET" && str_eq method "HEAD")

unfoldable pub find_route : List Route → Request → Option (Endpoint × String)
find_route [] req = none
find_route (r ∷ rs) req =
    let rest = find_route rs req in
    if match_method r.verb req.method
    then elim (match_path r.pattern_path req.segments "") [
      | none ↦ rest
      | some value ↦ some (r.endpoint, value)
    ]
    else rest

abbrev pub run_endpoint : Env → Request → Endpoint → String → Api → Response × Api
run_endpoint env req post_labeler did =
    handle_post_labeler env.resolve env.upsert_fault env.get_fault env.now req.add_body
run_endpoint env req delete_labeler did =
    handle_delete_labeler env.exec_fault env.affected_fault did
run_endpoint env req get_labelers did = handle_get_labelers env.list_fault
run_endpoint env req enable_labeler did =
    handle_enable_labeler env.exec_fault env.affected_fault did
run_endpoint env req disable_labeler did =
    handle_disable_labeler env.exec_fault env.affected_fault did
run_endpoint env req patch_labeler did =
    handle_patch_labeler env.exec_fault env.affected_fault env.get_fault did req.patch_body

unfoldable pub has_path : List Route → List String → Bool
has_path [] path = false
has_path (r ∷ rs) path =
    let rest = has_path rs path in
    elim (match_path r.pattern_path path "") [ none ↦ rest | some value ↦ true ]

-- Where no route matches.
abbrev pub not_routed : Request → Response
not_routed req =
    if has_path routes req.segments
    then fails_with 405 "Method Not Allowed"
    else fails_with 404 "404 page not found"

abbrev pub dispatch : String → Env → Request → Option (Endpoint × String) → Api → Response × Api
dispatch token env req none a = (not_routed req, a)
dispatch token env req (some (endpoint, did)) a =
    require_bearer token req.authorization (run_endpoint env req endpoint did) a

unfoldable pub serve : String → Env → Request → Api → Response × Api
serve token env req a = dispatch token env req (find_route routes req) a
