-- ===== src/Firehose/Resolve.antt =====
-- internal/firehose/resolve.go: the endpoint of a labeler from its DID document. The document comes from
-- indigo's resolver; of a service the type, the id and the endpoint are read.
use Prim.Native.String
use Prim.Native.Char.{code}
use text.Mathlib.Text.{find?}
use labeler_relay.Prelude.{
  ℕ, String, Bool, true, false, ◌||◌, not, Option, none, some, List, [], ◌∷◌, ◌==◌, if◌then◌else◌,
  str_eq, Result, ok, err, ◌>>=◌, with_context,
}
pub mod Suffix
mod Tests

pub record DocService : Type 0 where
  pub id : String
  pub type : String
  pub service_endpoint : String

abbrev pub subscribe_labels_path : String
subscribe_labels_path = "/xrpc/com.atproto.label.subscribeLabels"

abbrev pub err_no_labeler_endpoint : String
err_no_labeler_endpoint = "no atproto_labeler service endpoint in DID document"

-- strings.HasSuffix
unfoldable pub has_suffix : String → String → Bool
has_suffix String.[] suffix = str_eq "" suffix
has_suffix (String.◌∷◌ c s) suffix = str_eq (String.◌∷◌ c s) suffix || has_suffix s suffix

abbrev pub slash : ℕ
slash = 47

-- strings.TrimRight(s, "/")
unfoldable pub trim_right_slashes : String → String
trim_right_slashes String.[] = ""
trim_right_slashes (String.◌∷◌ c s) =
    let rest = trim_right_slashes s in
    if str_eq rest "" then (if code c == slash then "" else String.◌∷◌ c "") else String.◌∷◌ c rest

-- A loop that takes the endpoint of the first service that fits, and is empty if there is none.
unfoldable pub first_endpoint : (DocService → Bool) → List DocService → String
first_endpoint fits [] = ""
first_endpoint fits (svc ∷ svcs) =
    let rest = first_endpoint fits svcs in if fits svc then svc.service_endpoint else rest

abbrev pub by_type : DocService → Bool
by_type svc = str_eq svc.type "AtprotoLabeler" || str_eq svc.type "atproto_labeler"

-- strings.Contains
abbrev pub contains : String → String → Bool
contains s part = elim (find? s part) [ none ↦ false | some i ↦ true ]

abbrev pub by_id : DocService → Bool
by_id svc = contains svc.id "#atproto_labeler"

unfoldable pub labeler_base : List DocService → String
unfolding first_endpoint
labeler_base svcs =
    let base = first_endpoint by_type svcs in
    if str_eq base "" then first_endpoint by_id svcs else base

unfoldable pub subscription_url : String → String
unfolding has_suffix trim_right_slashes
subscription_url base =
    if has_suffix base subscribe_labels_path
    then base
    else String.◌++◌ (trim_right_slashes base) subscribe_labels_path

-- LabelerEndpoint, from what the resolver returned.
unfoldable pub labeler_endpoint : Result (List DocService) → Result String
unfolding labeler_base subscription_url
labeler_endpoint resolved = do
  svcs ← with_context "failed to resolve DID" resolved
  if str_eq (labeler_base svcs) ""
      then err err_no_labeler_endpoint
      else ok (subscription_url (labeler_base svcs))
