-- ===== src/Wiring/Routing.antt =====
-- The paths of the process (cmd/labeler-relay/main.go): the segments of a path as in Admin.Routes, to the
-- handler that is mounted on it. A pattern that ends in a slash matches every path below it, and ServeMux
-- redirects the path without the slash to it.
use labeler_relay.Prelude.{
  ◌≡◌, refl, ap, ◌∙◌, String, ◌&&◌, some, List, [], ◌∷◌, if◌then◌else◌, str_eq, inl, inr,
}
use labeler_relay.Admin.Routes.{
  Request, Endpoint, routes, find_route, labelers_path, Segment, literal, wildcard,
}
use labeler_relay.Admin.Routes.Matching.{Matches, Found, find_route-Found}

pub data Target : Type 0 where
  subscribe_labelers health metrics admin redirect_to_admin not_found : Target

abbrev one_segment : String → Target
one_segment s =
    if str_eq s "_health" then health else if str_eq s "metrics" then metrics else not_found

unfoldable pub route_of : List String → Target
route_of [] = not_found
route_of (s ∷ []) = if str_eq s "admin" then redirect_to_admin else one_segment s
route_of (s ∷ t ∷ []) =
    if str_eq s "admin"
    then admin
    else if str_eq s "xrpc" && str_eq t "community.labeler.sync.subscribeLabelers"
    then subscribe_labelers
    else not_found
route_of (s ∷ t ∷ u ∷ us) = if str_eq s "admin" then admin else not_found

below_labelers : (ss : List String) → route_of ("admin" ∷ "labelers" ∷ ss) ≡ admin
unfolding route_of
below_labelers [] = refl
below_labelers (s ∷ ss) = refl

-- Every request that a route of the admin API takes reaches it in the process.
pub find_route-route_of :
    (req : Request) (endpoint : Endpoint) (did : String)
    → find_route routes req ≡ some (endpoint, did)
    → route_of req.segments ≡ admin
find_route-route_of req endpoint did h = by_route (find_route-Found req routes endpoint did h)
  where
    at_admin :
        (ps : List Segment)
        → Matches (labelers_path ps) req.segments "" did
        → route_of req.segments ≡ admin
    at_admin ps (r1, q1, (r2, q2, rest)) =
        ap route_of (q1 ∙ ap (◌∷◌ "admin") q2) ∙ below_labelers r2

    by_route : Found req routes endpoint did → route_of req.segments ≡ admin
    by_route (inl (k, m, p)) = at_admin [] p
    by_route (inr (inl (k, m, p))) = at_admin (wildcard ∷ []) p
    by_route (inr (inr (inl (k, m, p)))) = at_admin [] p
    by_route (inr (inr (inr (inl (k, m, p))))) = at_admin (wildcard ∷ literal "enable" ∷ []) p
    by_route (inr (inr (inr (inr (inl (k, m, p)))))) =
        at_admin (wildcard ∷ literal "disable" ∷ []) p
    by_route (inr (inr (inr (inr (inr (inl (k, m, p))))))) = at_admin (wildcard ∷ []) p
    by_route (inr (inr (inr (inr (inr (inr impossible)))))) = absurd impossible
