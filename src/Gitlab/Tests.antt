-- ===== src/Gitlab/Tests.antt =====
-- Runs of the GitLab gate on a small table, and its theorems at concrete requests.
use cynative.Base.{
  String, Str, codes, ◌≡◌, refl, ◌↔◌, true, false, List, [], ◌∷◌, some, Result, ok, err,
}
use cynative.Authreq.View.{View}
use cynative.Gitlab.Table.{
  Templ, Table, templates, decode_segs, strip_last, is_anchored, lookup_route,
}
use cynative.Gitlab.Classifier.{is_graphql_endpoint, unrecognized_method}
use cynative.Gitlab.Gate.{
  GateError, baseline_exposure, authorize_table, exposure_exceeded, unclassifiable,
}
use cynative.Gitlab.Best.{IsChosen, lookup_route_iff}
use cynative.Gitlab.Authorized.{IsApproved, authorize_table_iff}

abbrev templ : List Str → String → Templ
templ segs category = record { segments = segs; route = record { category = codes category } }

abbrev project : Templ
project = templ (codes "api" ∷ codes "v4" ∷ codes "projects" ∷ codes "{id}" ∷ []) "projects"

abbrev owned : Templ
owned = templ (codes "api" ∷ codes "v4" ∷ codes "projects" ∷ codes "owned" ∷ []) "owned-projects"

abbrev variables : Templ
variables =
    templ (codes "api" ∷ codes "v4" ∷ codes "projects" ∷ codes "{id}" ∷ codes "variables" ∷ [])
      "ci-variables"

abbrev small : Table
small = record {
  by_method = (codes "GET", project ∷ owned ∷ variables ∷ []) ∷ (codes "PUT", project ∷ []) ∷ [];
}

abbrev sent : String → String → View
sent method path = record {
  method = codes method;
  hostname = codes "gitlab.com";
  port = [];
  path = codes path;
  escaped_path = codes path;
  raw_query = [];
  body = [];
}

abbrev ask : String → String → Result GateError (Unit {0})
ask method path = authorize_table baseline_exposure (some small) (sent method path)

runs :
    (ask "head" "/api/v4/projects/a%2Fb" ≡ ok tt)
    × (ask "PUT" "/api/v4/projects/7" ≡ err exposure_exceeded)
    × (ask "GET" "/api/v4/projects/7/variables.json" ≡ err exposure_exceeded)
    × (ask "TRACE" "/api/v4/projects/7" ≡ err (unclassifiable unrecognized_method))
unfolding authorize_table
runs = (refl, refl, refl, refl)

most_literal :
    lookup_route small (codes "get") (codes "/%61pi/v4/projects/owned.json") ≡ some owned.route
unfolding lookup_route
most_literal = refl

graphql :
    (is_graphql_endpoint (codes "/gitlab/api/%67raphql.json/") ≡ true)
    × (is_graphql_endpoint (codes "/files/x%2Fapi%2Fgraphql") ≡ false)
unfolding is_graphql_endpoint
graphql = (refl, refl)

abbrev segs : List Str
segs = codes "api" ∷ codes "v4" ∷ codes "projects" ∷ codes "7" ∷ []

abbrev owned_path : Str
owned_path = codes "/api/v4/projects/owned.json"

lookup_route_iff_example : (lookup_route small (codes "GET") owned_path ≡ some owned.route) ↔ (
    (is_anchored (decode_segs owned_path) ≡ true)
    × IsChosen (templates small (codes "GET")) (strip_last (decode_segs owned_path)) owned.route)
lookup_route_iff_example = lookup_route_iff small (codes "GET") owned_path owned.route

abbrev get_project : View
get_project = sent "GET" "/api/v4/projects/7"

authorize_table_iff_example :
    (authorize_table baseline_exposure (some small) get_project ≡ ok tt)
    ↔ ((t : Table) × (some small ≡ some t) × IsApproved baseline_exposure t get_project)
authorize_table_iff_example = authorize_table_iff baseline_exposure (some small) get_project
