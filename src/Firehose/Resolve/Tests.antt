-- ===== src/Firehose/Resolve/Tests.antt =====
-- DID documents.
use labeler_relay.Prelude.{◌≡◌, ◌≢◌, refl, ◌⊎◌, String, List, [], ◌∷◌, ok, err}
use labeler_relay.Firehose.Resolve.{
  DocService, err_no_labeler_endpoint, has_suffix, trim_right_slashes, first_endpoint, labeler_base,
  subscription_url, labeler_endpoint,
}
use labeler_relay.Firehose.Resolve.Suffix.{Advertised, IsUrlOf, labeler_endpoint-outcome}

abbrev services : List DocService
services =
    record {
      id = "#atproto_pds";
      type = "AtprotoPersonalDataServer";
      service_endpoint = "https://pds.example";
    }
    ∷ record {
      id = "#atproto_labeler";
      type = "AtprotoLabeler";
      service_endpoint = "https://mod.example//";
    }
    ∷ []

endpoint_run :
    labeler_endpoint (ok services) ≡ ok "https://mod.example/xrpc/com.atproto.label.subscribeLabels"
unfolding labeler_endpoint labeler_base first_endpoint subscription_url has_suffix
    trim_right_slashes
endpoint_run = refl

labeler_endpoint-outcome_example :
    (Advertised services "" × (labeler_endpoint (ok services) ≡ err err_no_labeler_endpoint))
    ⊎ ((base url : String) × (base ≢ "")
        × Advertised services base
        × (labeler_endpoint (ok services) ≡ ok url)
        × IsUrlOf base url)
labeler_endpoint-outcome_example = labeler_endpoint-outcome services
