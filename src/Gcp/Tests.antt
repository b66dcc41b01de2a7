-- ===== src/Gcp/Tests.antt =====
-- Runs of the Google Cloud classifier on a small index, and its theorems at concrete requests.
use cynative.Base.{String, Str, codes, ◌≡◌, refl, ◌↔◌, true, List, [], ◌∷◌, Memᴰ, to_upper, ok, err}
use cynative.Authreq.View.{View}
use cynative.Authreq.Path.{path_readings}
use cynative.Gcp.Template.{MethodDescriptor, trim_empty_edges}
use cynative.Gcp.Classifier.{unmatched, ambiguous, classify_readings, classify}
use cynative.Gcp.Survivors.{Named, classify_readings_iff}
use cynative.Gcp.Sound.{Takes, classify-Takes}
use cynative.Gcp.Roles.{allowed_all}

abbrev descriptor : String → String → String → MethodDescriptor
descriptor id http_method flat_path = record {
  id = codes id;
  http_method = codes http_method;
  service_path = codes "compute/v1/";
  flat_path = codes flat_path;
  path = [];
}

abbrev small : List MethodDescriptor
small =
    descriptor "policies.get" "GET" "projects/{project}/policies/{policy}"
    ∷ descriptor "policies.listAvailable" "GET" "projects/{project}/policies/listAvailable"
    ∷ descriptor "policies.setIam" "POST" "projects/{project}/policies/{policy}:setIam"
    ∷ []

abbrev sent : String → String → View
sent method path = record {
  method = codes method;
  hostname = codes "compute.googleapis.com";
  port = [];
  path = codes path;
  escaped_path = codes path;
  raw_query = [];
  body = [];
}

runs :
    (classify small (sent "get" "/compute/v1/projects/p/policies/x/") ≡ ok (codes "policies.get"))
    × (classify small (sent "GET" "/compute/v1/projects/p/policies/listAvailable")
        ≡ ok (codes "policies.listAvailable"))
    × (classify small (sent "GET" "/compute/v1/projects/p/policies/listavailable") ≡ err ambiguous)
    × (classify small (sent "POST" "/compute/v1/projects/p/policies/x:setIam")
        ≡ ok (codes "policies.setIam"))
    × (classify small (sent "GET" "/compute/v1/projects/p/policies/x:setIam") ≡ err unmatched)
unfolding classify
runs = (refl, refl, refl, refl, refl)

granted : allowed_all (codes "a.get" ∷ codes "a.list" ∷ []) (codes "a.list" ∷ []) ≡ true
unfolding allowed_all
granted = refl

abbrev get_policy : View
get_policy = sent "GET" "/compute/v1/projects/p/policies/x"

classified : classify small get_policy ≡ ok (codes "policies.get")
unfolding classify
classified = refl

classify_readings_iff_example :
    (classify_readings small get_policy (path_readings get_policy) ≡ ok (codes "policies.get")) ↔ (
      Named small (to_upper (codes "GET")) (path_readings get_policy) (codes "policies.get")
      × ((q : Str)
          → Named small (to_upper (codes "GET")) (path_readings get_policy) q
          → q ≡ codes "policies.get"))
classify_readings_iff_example =
    classify_readings_iff small get_policy (path_readings get_policy) (codes "policies.get")

classify-Takes_example :
    (segs : List Str) × Memᴰ segs (path_readings get_policy)
    × Takes small (codes "GET") (trim_empty_edges segs) (codes "policies.get")
classify-Takes_example = classify-Takes small get_policy (codes "policies.get") classified
