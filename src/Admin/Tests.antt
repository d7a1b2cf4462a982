-- ===== src/Admin/Tests.antt =====
-- Requests to the admin API, and the theorems about it at concrete ones.
use labeler_relay.Prelude.{◌≡◌, refl, String, none, some, pos, Result, ok}
use labeler_relay.Store.Registry.{find, upsert, get}
use labeler_relay.Store.Samples.{two_labelers}
use labeler_relay.Admin.{Api, split_space, handle_post_labeler}

abbrev api : Api
api = record { registry = two_labelers; pokes = 0 }

split_run : split_space "Bearer a b" ≡ some ("Bearer", "a b")
unfolding split_space
split_run = refl

abbrev resolves : String → Result String
resolves did = ok "https://c.example"

post_run : (handle_post_labeler resolves none none (pos 9) (some "did:plc:b") api).0.status ≡ 201
unfolding handle_post_labeler upsert find get
post_run = refl
