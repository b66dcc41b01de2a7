-- ===== src/K8s/Policy.antt =====
-- internal/auth/k8s/policy.go and authorize.go: the matcher over ClusterRole rules, and
-- `Authorize`.
use cynative.Base.{
  Str, codes, Bool, true, false, ◌&&◌, ◌||◌, if◌then◌else◌, List, [], ◌∷◌, ◌++◌, Option, none, some,
  any, str_eq, contains, has_prefix, Result, ok, err,
}
use cynative.K8s.Request.{RequestInfo, empty}

-- `PolicyRule`
pub record PolicyRule : Type 0 where
  pub api_groups : List Str
  pub resources : List Str
  pub resource_names : List Str
  pub verbs : List Str

-- `*ViewPolicy`; nil is `none`
abbrev pub ViewPolicy : Type 0
ViewPolicy = Option (List PolicyRule)

-- `matchItem`
unfoldable pub match_item : List Str → Str → Bool
unfolding any str_eq
match_item set want = any (λ s. str_eq s (codes "*") || str_eq s want) set

-- `resourceNameMatches`
unfoldable pub resource_name_matches : List Str → Str → Bool
unfolding contains
resource_name_matches [] request_name = true
resource_name_matches (n ∷ names) request_name =
    if str_eq request_name empty then false else contains (n ∷ names) request_name

-- the `target` of `Allows` and `Authorize`
unfoldable pub target : RequestInfo → Str
unfolding str_eq
target ri =
    if str_eq ri.subresource empty then ri.resource else ri.resource ++ b'/' ∷ ri.subresource

-- the test of one rule in the loop of `Allows`
unfoldable pub rule_allows : RequestInfo → PolicyRule → Bool
unfolding match_item resource_name_matches target
rule_allows ri r =
    match_item r.verbs ri.verb
    && (match_item r.api_groups ri.api_group
        && (match_item r.resources (target ri) && resource_name_matches r.resource_names ri.name))

-- `Allows`
unfoldable pub allows : ViewPolicy → RequestInfo → Bool
unfolding rule_allows any
allows none ri = false
allows (some rules) ri = if ri.is_resource_request then any (rule_allows ri) rules else false

-- `safeNonResourcePaths` and `safeNonResourcePrefixes`
abbrev pub safe_non_resource_paths : List Str
safe_non_resource_paths =
    codes "/"
    ∷ codes "/version"
    ∷ codes "/healthz"
    ∷ codes "/livez"
    ∷ codes "/readyz"
    ∷ codes "/api"
    ∷ codes "/apis"
    ∷ []

abbrev pub safe_non_resource_prefixes : List Str
safe_non_resource_prefixes =
    codes "/openapi"
    ∷ codes "/api/"
    ∷ codes "/apis/"
    ∷ codes "/version/"
    ∷ codes "/healthz/"
    ∷ codes "/livez/"
    ∷ codes "/readyz/"
    ∷ []

-- `allowedNonResource`
unfoldable pub allowed_non_resource : Str → Str → Bool
unfolding str_eq contains has_prefix any
allowed_non_resource verb path =
    if str_eq verb (codes "get") || str_eq verb (codes "head")
    then contains safe_non_resource_paths path || any (has_prefix path) safe_non_resource_prefixes
    else false

-- the two messages under `ErrForbidden`
pub data Forbidden : Type 0 where
  non_resource_url : (verb path : Str) → Forbidden
  resource_request : (verb target group : Str) → Forbidden

-- `Authorize`
unfoldable pub authorize : RequestInfo → ViewPolicy → Result Forbidden (Unit {0})
unfolding allowed_non_resource allows target
authorize ri vp =
    if ri.is_resource_request
    then if allows vp ri then ok tt else err (resource_request ri.verb (target ri) ri.api_group)
    else if allowed_non_resource ri.verb ri.path
    then ok tt
    else err (non_resource_url ri.verb ri.path)
