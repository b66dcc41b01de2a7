-- ===== src/K8s/Request.antt =====
-- internal/auth/k8s/classify.go: the types, and the words that the classifier tests for.
use cynative.Base.{Str, codes, Bool, List}

-- `RequestInfo`
pub record RequestInfo : Type 0 where
  pub is_resource_request : Bool
  pub verb : Str
  pub api_group : Str
  pub api_version : Str
  pub namespace : Str
  pub resource : Str
  pub subresource : Str
  pub name : Str
  pub path : Str

-- `url.Values`: the values of each key, in the order of the query
abbrev pub Values : Type 0
Values = List (Str × List Str)

abbrev pub empty : Str
empty = codes ""

abbrev pub verb_watch : Str
verb_watch = codes "watch"

abbrev pub verb_proxy : Str
verb_proxy = codes "proxy"

abbrev pub verb_get : Str
verb_get = codes "get"

abbrev pub verb_delete : Str
verb_delete = codes "delete"

abbrev pub resource_namespaces : Str
resource_namespaces = codes "namespaces"
