-- ===== src/K8s/Tests.antt =====
-- Runs of the Kubernetes gate at concrete requests, and its theorems at inputs that meet their
-- hypotheses.
use cynative.Base.{
  String, Str, codes, ◌≡◌, refl, ap, ◌≢◌, ◌↔◌, inl, inr, true, List, [], ◌∷◌, none, some, arith,
  to_lower, Result, ok, err,
}
use cynative.K8s.Classify.{split_path, is_namespace_subresource, method_verb, watch_verb, classify}
use cynative.K8s.Policy.{PolicyRule, Forbidden, authorize, resource_request, non_resource_url}
use cynative.K8s.Rbac.{IsAuthorized, authorize_iff}
use cynative.K8s.Methods.{IsLegacyWatch, write_method_denied}
use cynative.K8s.Paths.{object_path, classify-object_path}

abbrev view_rule : PolicyRule
view_rule = record {
  api_groups = codes "" ∷ codes "apps" ∷ [];
  resources = codes "pods" ∷ codes "pods/log" ∷ codes "deployments" ∷ [];
  resource_names = [];
  verbs = codes "get" ∷ codes "list" ∷ codes "watch" ∷ [];
}

abbrev view : List PolicyRule
view = view_rule ∷ []

abbrev ask : String → String → Result Forbidden (Unit {0})
ask method path = authorize (classify (codes method) (codes path) none) (some view)

reads_allowed :
    (ask "GET" "/api/v1/namespaces/default/pods/web-0/log" ≡ ok tt)
    × (ask "get" "/apis/apps/v1/deployments" ≡ ok tt)
    × (ask "HEAD" "/healthz/etcd" ≡ ok tt)
unfolding authorize classify
reads_allowed = (refl, refl, refl)

denials :
    (ask "GET" "/api/v1/namespaces/default/secrets"
      ≡ err (resource_request (codes "list") (codes "secrets") (codes "")))
    × (ask "DELETE" "/api/v1/namespaces/default/pods"
        ≡ err (resource_request (codes "deletecollection") (codes "pods") (codes "")))
    × (ask "POST" "/version" ≡ err (non_resource_url (codes "post") (codes "/version")))
    × (ask "POST" "/api/v1/watch/pods" ≡ ok tt)
unfolding authorize classify
denials = (refl, refl, refl, refl)

authorize_iff_example :
    (authorize (classify (codes "GET") (codes "/apis/apps/v1/deployments") none) (some view)
      ≡ ok tt)
    ↔ IsAuthorized (classify (codes "GET") (codes "/apis/apps/v1/deployments") none) (some view)
authorize_iff_example =
    authorize_iff (classify (codes "GET") (codes "/apis/apps/v1/deployments") none) (some view)

abbrev web_path : Str
web_path = codes "/api/v1/namespaces/default/pods/web"

abbrev first : List Str → Str
first [] = []
first (a ∷ _) = a

abbrev third : List Str → Str
third (_ ∷ _ ∷ c ∷ _) = c
third _ = []

namespaces_ne_watch : codes "namespaces" ≢ codes "watch"
namespaces_ne_watch e = cc e

api_ne_apis : codes "api" ≢ codes "apis"
api_ne_apis e = cc e

web_path_plain : ¬ IsLegacyWatch (split_path web_path)
unfolding split_path
web_path_plain w = elim w [
  | inl (v, rest, e) ↦ namespaces_ne_watch (ap third e)
  | inr (g, v, rest, e) ↦ api_ne_apis (ap first e)
]

write_method_denied_example :
    authorize (classify (codes "Delete") web_path none) (some view) ≢ ok tt
unfolding to_lower
write_method_denied_example =
    write_method_denied (codes "Delete") web_path none view (ground arith) (ground arith)
      web_path_plain

classify-object_path_example :
    classify
      (codes "GET")
      (object_path
        (codes "apps")
        (codes "v1")
        (codes "prod")
        (codes "deployments")
        (codes "web")
        (codes "scale" ∷ []))
      none
    ≡ record {
      is_resource_request = true;
      verb = watch_verb none (method_verb (to_lower (codes "GET")));
      api_group = codes "apps";
      api_version = codes "v1";
      namespace = codes "prod";
      resource = codes "deployments";
      subresource = codes "scale";
      name = codes "web";
      path =
          object_path
            (codes "apps")
            (codes "v1")
            (codes "prod")
            (codes "deployments")
            (codes "web")
            (codes "scale" ∷ []);
    }
unfolding is_namespace_subresource
classify-object_path_example =
    classify-object_path (codes "GET") (codes "apps") (codes "v1") (codes "prod")
      (codes "deployments") (codes "web") none (codes "scale" ∷ []) (ground arith) refl
