-- ===== src/K8s/Classify.antt =====
-- internal/auth/k8s/classify.go: `Classify` and its helpers. A Go function that writes through
-- `*RequestInfo` returns the new record here.
use cynative.Base.{
  Str, codes, Bool, true, false, ◌&&◌, ◌||◌, not, if◌then◌else◌, List, [], ◌∷◌, Option, none, some,
  str_eq, contains, to_lower, trim, split,
}
use cynative.K8s.Request.{
  RequestInfo, Values, empty, verb_watch, verb_proxy, verb_get, verb_delete, resource_namespaces,
}

-- `splitPath`
abbrev pub split_trimmed : Str → List Str
split_trimmed [] = []
split_trimmed (c ∷ p) = split b'/' (c ∷ p)

unfoldable pub split_path : Str → List Str
unfolding trim split
split_path p = split_trimmed (trim b'/' p)

-- `isNamespaceSubresource`
unfoldable pub is_namespace_subresource : Str → Bool
unfolding str_eq
is_namespace_subresource segment =
    str_eq segment (codes "status") || str_eq segment (codes "finalize")

-- `consumeNamespace`
unfoldable pub consume_namespace : RequestInfo → List Str → RequestInfo × List Str
unfolding is_namespace_subresource
consume_namespace ri (root ∷ ns ∷ next ∷ parts) =
    if not (str_eq root resource_namespaces) || is_namespace_subresource next
    then (ri, root ∷ ns ∷ next ∷ parts)
    else (record ri { namespace = ns }, next ∷ parts)
consume_namespace ri parts = (ri, parts)

-- `consumeResource`
unfoldable pub consume_resource : RequestInfo → List Str → RequestInfo
unfolding str_eq
consume_resource ri [] = ri
consume_resource ri (res ∷ []) = record ri { resource = res }
consume_resource ri (res ∷ name ∷ []) = record ri { resource = res; name = name }
consume_resource ri (res ∷ name ∷ sub ∷ _) = record ri {
  resource = res;
  name = name;
  subresource = if str_eq ri.verb verb_proxy then ri.subresource else sub;
}

-- `query.Get(key)`: the first value of the key, or the empty string
first_value : List Str → Str
first_value [] = empty
first_value (v ∷ _) = v

query_get : Values → Str → Str
unfolding first_value
query_get [] key = empty
query_get ((k, vs) ∷ query) key = if str_eq k key then first_value vs else query_get query key

-- `strconv.ParseBool`; `none` is its error
parse_bool : Str → Option Bool
unfolding contains
parse_bool s =
    if contains
      (codes "1" ∷ codes "t" ∷ codes "T" ∷ codes "TRUE" ∷ codes "true" ∷ codes "True" ∷ []) s
    then some true
    else if contains
        (codes "0" ∷ codes "f" ∷ codes "F" ∷ codes "FALSE" ∷ codes "false" ∷ codes "False" ∷ []) s
    then some false
    else none

-- `isWatch`; a nil map is `none`
unfoldable pub is_watch : Option Values → Bool
unfolding query_get parse_bool
is_watch none = false
is_watch (some query) = elim (parse_bool (query_get query (codes "watch"))) [
  | none ↦ false
  | some b ↦ b
]

-- the first `switch` of `applyVerb`
unfoldable pub method_verb : Str → Str
unfolding str_eq
method_verb http_verb =
    if str_eq http_verb (codes "post")
    then codes "create"
    else if str_eq http_verb verb_get || str_eq http_verb (codes "head")
    then verb_get
    else if str_eq http_verb (codes "put")
    then codes "update"
    else if str_eq http_verb (codes "patch")
    then codes "patch"
    else if str_eq http_verb verb_delete
    then verb_delete
    else http_verb

-- the `switch` under `ri.Name == ""`
unfoldable pub nameless_verb : Str → Str
unfolding str_eq
nameless_verb verb =
    if str_eq verb verb_get
    then codes "list"
    else if str_eq verb verb_delete
    then codes "deletecollection"
    else verb

unfoldable pub watch_verb : Option Values → Str → Str
unfolding is_watch str_eq
watch_verb query verb = if str_eq verb (codes "list") && is_watch query then verb_watch else verb

-- `applyVerb`
unfoldable pub apply_verb : RequestInfo → Str → Option Values → RequestInfo
unfolding method_verb nameless_verb watch_verb
apply_verb ri http_verb query =
    if str_eq ri.verb empty
    then record ri {
      verb = watch_verb query (
          if str_eq ri.name empty
          then nameless_verb (method_verb http_verb)
          else method_verb http_verb);
    }
    else ri

-- the legacy prefix of `Classify`: a leading proxy or watch segment is the verb
unfoldable pub consume_prefix : RequestInfo → List Str → RequestInfo × List Str
unfolding str_eq
consume_prefix ri [] = (ri, [])
consume_prefix ri (root ∷ parts) =
    if str_eq root verb_proxy || str_eq root verb_watch
    then (record ri { verb = root }, parts)
    else (ri, root ∷ parts)

unfoldable pub non_resource : Str → Str → RequestInfo
non_resource http_verb path = record {
  is_resource_request = false;
  verb = http_verb;
  api_group = empty;
  api_version = empty;
  namespace = empty;
  resource = empty;
  subresource = empty;
  name = empty;
  path = path;
}

-- the last three calls of `Classify`
unfoldable pub fill : Str → Option Values → RequestInfo → List Str → RequestInfo
unfolding consume_namespace consume_resource apply_verb
fill http_verb query ri parts =
    let (scoped, rest) = consume_namespace ri parts in
    apply_verb (consume_resource scoped rest) http_verb query

-- the fresh `RequestInfo` of `Classify`, with its group and version
abbrev pub resource_info : Str → Str → Str → RequestInfo
resource_info path group version = record {
  is_resource_request = true;
  verb = empty;
  api_group = group;
  api_version = version;
  namespace = empty;
  resource = empty;
  subresource = empty;
  name = empty;
  path = path;
}

-- `Classify` after the group and the version are read
unfoldable pub classify_resource : Str → Option Values → Str → Str → Str → List Str → RequestInfo
unfolding consume_prefix fill
classify_resource http_verb query path group version parts =
    let (ri, rest) = consume_prefix (resource_info path group version) parts in
    fill http_verb query ri rest

-- `Classify` after the path is split
unfoldable pub classify_parts : Str → Str → Option Values → List Str → RequestInfo
unfolding str_eq non_resource
classify_parts http_verb path query (root ∷ a ∷ b ∷ []) =
    if str_eq root (codes "api")
    then classify_resource http_verb query path empty a (b ∷ [])
    else non_resource http_verb path
classify_parts http_verb path query (root ∷ a ∷ b ∷ c ∷ parts) =
    if str_eq root (codes "api")
    then classify_resource http_verb query path empty a (b ∷ c ∷ parts)
    else if str_eq root (codes "apis")
    then classify_resource http_verb query path a b (c ∷ parts)
    else non_resource http_verb path
classify_parts http_verb path query _ = non_resource http_verb path

-- `Classify`
unfoldable pub classify : Str → Str → Option Values → RequestInfo
unfolding to_lower split_path classify_parts classify_resource
classify method path query = classify_parts (to_lower method) path query (split_path path)
