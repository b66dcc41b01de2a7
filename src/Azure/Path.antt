-- ===== src/Azure/Path.antt =====
-- internal/auth/azure/classifier.go: the segments of a path, its namespace, the provider-less routes
-- and the polls of asynchronous operations. Text is compared as ASCII.
use cynative.Base.{
  ℕ, ◌+◌, Str, codes, Bool, true, false, ◌&&◌, ◌||◌, if◌then◌else◌, List, [], ◌∷◌, ◌++◌, Option,
  none, some, ◌==◌, length, any, contains, str_eq, split, trim, to_lower, equal_fold, has_infix,
  Result, ok, err,
}

-- `Action`
pub record Action : Type 0 where
  pub namespace : Str
  pub resource_type : Str
  pub verb : Str
  pub full : Str

-- the errors of `DeriveAction`; `structural_miss` carries the namespace of a `structuralMissError`
pub data ActionError : Type 0 where
  unresolved ambiguous catalog_unavailable : ActionError
  structural_miss : Str → ActionError

-- `verbRead`
abbrev pub verb_read : Str
verb_read = codes "read"

-- `segProviders`, `segSubscriptions` and `segResourceGroups`
abbrev pub seg_providers : Str
seg_providers = codes "providers"

abbrev pub seg_subscriptions : Str
seg_subscriptions = codes "subscriptions"

abbrev pub seg_resource_groups : Str
seg_resource_groups = codes "resourcegroups"

-- `mk`
unfoldable pub mk : Str → Str → Str → Action
mk namespace resource_type verb = record {
  namespace = namespace;
  resource_type = resource_type;
  verb = verb;
  full = namespace ++ b'/' ∷ resource_type ++ b'/' ∷ verb;
}

-- `splitPath`
abbrev pub split_trimmed : Str → List Str
split_trimmed [] = []
split_trimmed (c ∷ p) = split b'/' (c ∷ p)

unfoldable pub split_path : Str → List Str
unfolding split trim
split_path p = split_trimmed (trim b'/' p)

-- `nonCanonicalPath`
unfoldable pub is_skewed : Str → Bool
unfolding str_eq
is_skewed s = str_eq s [] || str_eq s (codes ".") || str_eq s (codes "..")

unfoldable pub non_canonical_path : Str → List Str → Bool
unfolding any is_skewed has_infix to_lower
non_canonical_path escaped_path segs =
    if any is_skewed segs then true else has_infix (to_lower escaped_path) (codes "%2f")

-- the loop of `resolveNamespace`: what follows the last segment that reads providers
unfoldable pub after_last : List Str → Option (List Str)
unfolding equal_fold
after_last [] = none
after_last (s ∷ segs) = elim (after_last segs) [
  | none ↦ if equal_fold s seg_providers then some segs else none
  | some rest ↦ some rest
]

-- `resolveNamespace`; `none` is a false third result
unfoldable pub with_resource : Option (List Str) → Option (Str × List Str)
with_resource (some (namespace ∷ r ∷ rest)) = some (namespace, r ∷ rest)
with_resource _ = none

unfoldable pub resolve_namespace : List Str → Option (Str × List Str)
unfolding after_last with_resource
resolve_namespace segs = with_resource (after_last segs)

-- `providerLessRoutes`: templates and the resource types that they read
abbrev pub wild : Str
wild = codes "{}"

abbrev pub provider_less_routes : List (List Str × Str)
provider_less_routes =
    (seg_subscriptions ∷ [], codes "subscriptions")
    ∷ (seg_subscriptions ∷ wild ∷ [], codes "subscriptions")
    ∷ (seg_subscriptions ∷ wild ∷ seg_resource_groups ∷ [], codes "subscriptions/resourceGroups")
    ∷ (
      seg_subscriptions ∷ wild ∷ seg_resource_groups ∷ wild ∷ [],
      codes "subscriptions/resourceGroups",
    )
    ∷ (seg_subscriptions ∷ wild ∷ codes "locations" ∷ [], codes "subscriptions/locations")
    ∷ (seg_subscriptions ∷ wild ∷ seg_providers ∷ [], codes "subscriptions/providers")
    ∷ (seg_subscriptions ∷ wild ∷ seg_providers ∷ wild ∷ [], codes "subscriptions/providers")
    ∷ (seg_subscriptions ∷ wild ∷ codes "tagnames" ∷ [], codes "subscriptions/tagNames")
    ∷ (seg_subscriptions ∷ wild ∷ codes "resources" ∷ [], codes "subscriptions/resources")
    ∷ (
      seg_subscriptions ∷ wild ∷ seg_resource_groups ∷ wild ∷ codes "resources" ∷ [],
      codes "subscriptions/resourceGroups/resources",
    )
    ∷ (codes "tenants" ∷ [], codes "tenants")
    ∷ (seg_providers ∷ [], codes "providers")
    ∷ (seg_providers ∷ wild ∷ [], codes "providers")
    ∷ []

-- `matchTemplate`: the test of the lengths, and the loop
unfoldable pub template_loop : List Str → List Str → Bool
unfolding str_eq equal_fold
template_loop (t ∷ template) (s ∷ segs) =
    (str_eq t wild || equal_fold t s) && template_loop template segs
template_loop _ _ = true

unfoldable pub match_template : List Str → List Str → Bool
unfolding template_loop
match_template template segs =
    if length template == length segs then template_loop template segs else false

-- `providerLessAction`
unfoldable pub route_loop : List (List Str × Str) → List Str → Result ActionError Action
unfolding match_template mk
route_loop [] segs = err (structural_miss (codes "Microsoft.Resources"))
route_loop ((template, resource) ∷ routes) segs =
    if match_template template segs
    then ok (mk (codes "Microsoft.Resources") resource verb_read)
    else route_loop routes segs

unfoldable pub provider_less_action : Str → List Str → Result ActionError Action
unfolding str_eq route_loop
provider_less_action method segs =
    if str_eq method (codes "GET") then route_loop provider_less_routes segs else err unresolved

-- `pollSegments`
abbrev pub poll_segments : List Str
poll_segments = codes "operations" ∷ codes "operationstatuses" ∷ codes "operationresults" ∷ []

-- `isPollShape`, without the negative number of `n-2`
unfoldable pub is_poll_shape : ℕ → ℕ → Bool
is_poll_shape i n = (i + 2 == n) || ((i == 0) && (n == 1))

-- the loop of `pollAction` at the even index `i`, with what is left of the `n` segments
unfoldable pub poll_loop : Str → ℕ → ℕ → List Str → Option Action
unfolding contains to_lower is_poll_shape mk
poll_loop namespace i n [] = none
poll_loop namespace i n (s ∷ []) =
    if contains poll_segments (to_lower s) && is_poll_shape i n
    then some (mk namespace (to_lower s) verb_read)
    else none
poll_loop namespace i n (s ∷ _ ∷ rest) =
    let later = poll_loop namespace (i + 2) n rest in
    if contains poll_segments (to_lower s) && is_poll_shape i n
    then some (mk namespace (to_lower s) verb_read)
    else later

-- `pollAction`; `none` is a false second result
unfoldable pub poll_action : Str → Str → List Str → Option Action
unfolding str_eq poll_loop
poll_action method namespace rest =
    if str_eq method (codes "GET") then poll_loop namespace 0 (length rest) rest else none
