-- ===== src/Azure/Classifier.antt =====
-- internal/auth/azure/classifier.go: `DeriveAction` and the verbs.
use cynative.Base.{
  Str, codes, ◌||◌, if◌then◌else◌, List, [], ◌∷◌, ◌++◌, Option, none, some, leb, length, contains,
  str_eq, to_lower, to_upper, trim_suffix, Result, ok, err, ◌>>=◌,
}
use cynative.Authreq.View.{View}
use cynative.Azure.Path.{
  Action, ActionError, unresolved, ambiguous, catalog_unavailable, verb_read, mk, split_path,
  non_canonical_path, resolve_namespace, provider_less_action, poll_action,
}
use cynative.Azure.Types.{resolve_resource_type}

-- `Catalog`: its two operations that the classifier calls; `none` is an error
pub record Catalog : Type 0 where
  pub resource_types : Str → Option (List Str)
  pub lookup_operation : Str → Str → Str → Option (List Str)

unfoldable pub or_unavailable {ℓ} : {A : Type ℓ} → Option A → Result ActionError A
or_unavailable none = err catalog_unavailable
or_unavailable (some a) = ok a

-- the keys of `postReadAllowList`, whose values are all `verbRead`
abbrev pub post_read_allow_list : List Str
post_read_allow_list =
    codes "microsoft.resourcegraph/resources/resources"
    ∷ codes "microsoft.resourcegraph/resourcechanges/resourcechanges"
    ∷ codes "microsoft.resourcegraph/resourcechangedetails/resourcechangedetails"
    ∷ codes "microsoft.resourcegraph/resourceshistory/resourceshistory"
    ∷ codes "microsoft.operationalinsights/workspaces/query"
    ∷ codes "microsoft.network/networkwatchers/topology"
    ∷ codes "microsoft.network/networkwatchers/nexthop"
    ∷ []

-- `distinct`: `seen` holds the lower-case forms of what is kept
unfoldable pub distinct_loop : List Str → List Str → List Str
unfolding contains to_lower
distinct_loop seen [] = []
distinct_loop seen (s ∷ verbs) =
    let skipped = distinct_loop seen verbs in
    let kept = distinct_loop (to_lower s ∷ seen) verbs in
    if contains seen (to_lower s) then skipped else s ∷ kept

unfoldable pub distinct : List Str → List Str
unfolding distinct_loop
distinct verbs = distinct_loop [] verbs

-- the key of `postAction`
unfoldable pub allow_key : Str → Str → Str → Str
unfolding to_lower
allow_key namespace type_path token = to_lower (namespace ++ b'/' ∷ type_path ++ b'/' ∷ token)

unfoldable pub action_of : Str → Str → Str → Action
unfolding trim_suffix
action_of namespace type_path token =
    let parent = trim_suffix type_path (b'/' ∷ token) in
    record {
      namespace = namespace;
      resource_type = parent;
      verb = token ++ codes "/action";
      full = namespace ++ b'/' ∷ parent ++ b'/' ∷ token ++ codes "/action";
    }

-- `postAction` once the catalog has answered
unfoldable pub post_verb : Str → Str → Str → List Str → Result ActionError Action
unfolding distinct contains allow_key action_of mk
post_verb namespace type_path token verbs =
    if leb (length (distinct verbs)) 1
    then if contains post_read_allow_list (allow_key namespace type_path token)
      then ok (mk namespace type_path verb_read)
      else ok (action_of namespace type_path token)
    else err ambiguous

-- `postAction`
unfoldable pub post_action : Catalog → Str → Str → Str → Result ActionError Action
unfolding or_unavailable post_verb
post_action cat namespace type_path token =
    or_unavailable (cat.lookup_operation namespace type_path token)
    >>= post_verb namespace type_path token

-- `verbAction`
unfoldable pub verb_action : Catalog → Str → Str → Str → Str → Result ActionError Action
unfolding str_eq post_action mk
verb_action cat method namespace type_path token =
    if str_eq method (codes "GET")
    then ok (mk namespace type_path verb_read)
    else if str_eq method (codes "PUT") || str_eq method (codes "PATCH")
    then ok (mk namespace type_path (codes "write"))
    else if str_eq method (codes "DELETE")
    then ok (mk namespace type_path (codes "delete"))
    else if str_eq method (codes "POST")
    then post_action cat namespace type_path token
    else err unresolved

-- the last two steps of `DeriveAction`
unfoldable pub typed_action : Catalog → Str → Str → List Str → Result ActionError Action
unfolding or_unavailable resolve_resource_type verb_action
typed_action cat method namespace rest = or_unavailable (cat.resource_types namespace) >>= λ types.
    resolve_resource_type method namespace types rest >>= λ found.
    verb_action cat method namespace found.0 found.1

unfoldable pub poll_or_typed :
    Catalog → Str → Str → List Str → Option Action → Result ActionError Action
unfolding typed_action
poll_or_typed cat method namespace rest (some a) = ok a
poll_or_typed cat method namespace rest none = typed_action cat method namespace rest

unfoldable pub namespace_action :
    Catalog → Str → List Str → Option (Str × List Str) → Result ActionError Action
unfolding provider_less_action poll_action poll_or_typed
namespace_action cat method segs none = provider_less_action method segs
namespace_action cat method segs (some (namespace, rest)) =
    poll_or_typed cat method namespace rest (poll_action method namespace rest)

-- `DeriveAction`
unfoldable pub derive_action : Catalog → View → Result ActionError Action
unfolding to_upper split_path non_canonical_path resolve_namespace namespace_action
derive_action cat v =
    let segs = split_path v.path in
    if non_canonical_path v.escaped_path segs
    then err unresolved
    else namespace_action cat (to_upper v.method) segs (resolve_namespace segs)
