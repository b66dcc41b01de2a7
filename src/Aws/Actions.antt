-- ===== src/Aws/Actions.antt =====
-- internal/auth/aws/actions.go: the IAM actions of an operation. The two registries are given.
use cynative.Base.{
  Bool, ◌||◌, if◌then◌else◌, Str, codes, List, [], ◌∷◌, ◌++◌, Option, none, some, str_eq, to_lower,
  contains, any,
}
use cynative.Aws.Model.{ServiceModel, find}

-- `ActionSource`
pub data ActionSource : Type 0 where
  source_none source_service_ref source_iam_dataset source_derived source_permissionless :
      ActionSource

-- `SROperation`
pub record SrOperation : Type 0 where
  pub authorized_actions : List Str
  pub sdk_names : List Str

-- `serviceRefGetter` and `iamDatasetLookuper`: the operations of a service, none for nil, and the
-- actions of an operation
pub record Registries : Type 0 where
  pub service_ref : Str → Option (List (Str × SrOperation))
  pub lookup : Str → List Str → Str → List Str
  pub lookup_sdk_id : Str → Str → List Str

-- `dedupeNonEmpty`: `seen` is what is in `out`
unfoldable pub dedupe_loop : List Str → List Str → List Str
unfolding contains str_eq
dedupe_loop out [] = out
dedupe_loop out (s ∷ ss) =
    dedupe_loop (if str_eq s [] || contains out s then out else out ++ s ∷ []) ss

unfoldable pub dedupe_non_empty : List Str → List Str
unfolding dedupe_loop
dedupe_non_empty ss = dedupe_loop [] ss

-- `permissionlessOps`
abbrev pub permissionless_op : Str
permissionless_op = codes "sts:GetCallerIdentity"

unfoldable pub is_permissionless : Str → Str → Bool
unfolding str_eq to_lower
is_permissionless op key = str_eq (to_lower key ++ b':' ∷ op) permissionless_op

-- the operation under one key
abbrev pub sr_operation : Registries → Str → Str → Option SrOperation
sr_operation reg op key = elim (reg.service_ref key) [ none ↦ none | some m ↦ find m op ]

-- the first loop of `resolveStandard`: the actions found, or the SDK names to go on with
pub data Tier : Type 0 where
  found : List Str → Tier
  sdk_names_only : List Str → Tier

abbrev pub tier_of : List Str → List Str → Tier → Tier
tier_of [] names rest = rest
tier_of (a ∷ acts) names rest = found (a ∷ acts)

abbrev pub with_operation : Option SrOperation → List Str → (List Str → Tier) → Tier
with_operation none names rest = rest names
with_operation (some srop) names rest =
    tier_of srop.authorized_actions srop.sdk_names (rest srop.sdk_names)

unfoldable pub service_ref_tier : Registries → Str → List Str → List Str → Tier
unfolding find
service_ref_tier reg op [] sdk_names = sdk_names_only sdk_names
service_ref_tier reg op (key ∷ keys) sdk_names =
    with_operation (sr_operation reg op key) sdk_names (service_ref_tier reg op keys)

-- the second loop: the first actions that the dataset has under a key
abbrev pub or_rest : List Str → List Str → List Str
or_rest [] rest = rest
or_rest (a ∷ acts) rest = a ∷ acts

unfoldable pub dataset_tier : Registries → Str → List Str → List Str → List Str
dataset_tier reg op sdk_names [] = []
dataset_tier reg op sdk_names (key ∷ keys) =
    or_rest (reg.lookup key sdk_names op) (dataset_tier reg op sdk_names keys)

abbrev pub Resolution : Type 0
Resolution = List Str × ActionSource

abbrev pub derive : Str → Str → Resolution
derive [] op = ([], source_none)
derive (c ∷ ns) op = (((c ∷ ns) ++ b':' ∷ op) ∷ [], source_derived)

abbrev pub from_dataset : List Str → Resolution → Resolution
from_dataset [] other = other
from_dataset (a ∷ acts) other = (a ∷ acts, source_iam_dataset)

abbrev pub after_service_ref : Registries → ServiceModel → Str → List Str → Tier → Resolution
after_service_ref reg model op keys (found acts) = (acts, source_service_ref)
after_service_ref reg model op keys (sdk_names_only names) =
    from_dataset (dataset_tier reg op names keys) (derive model.arn_namespace op)

abbrev pub keys_of : ServiceModel → List Str
keys_of model = dedupe_non_empty (model.arn_namespace ∷ model.dir ∷ model.endpoint_prefix ∷ [])

-- `resolveStandard`
unfoldable pub resolve_standard : Registries → ServiceModel → Str → Resolution
unfolding service_ref_tier dataset_tier dedupe_non_empty
resolve_standard reg model op =
    after_service_ref reg model op (keys_of model) (service_ref_tier reg op (keys_of model) [])

-- the loop of `resolveShadowed`: no SDK names are kept
abbrev pub after_own_keys : Registries → ServiceModel → Str → Tier → Resolution
after_own_keys reg model op (found acts) = (acts, source_service_ref)
after_own_keys reg model op (sdk_names_only names) =
    from_dataset (reg.lookup_sdk_id model.sdk_id op) ([], source_none)

-- `resolveShadowed`
unfoldable pub resolve_shadowed : Registries → ServiceModel → Str → Resolution
unfolding service_ref_tier dedupe_non_empty
resolve_shadowed reg model op =
    after_own_keys reg model op
      (service_ref_tier reg op (dedupe_non_empty (model.dir ∷ model.endpoint_prefix ∷ [])) [])

-- `Resolve`
unfoldable pub resolve : Registries → ServiceModel → Str → Resolution
unfolding any is_permissionless resolve_shadowed resolve_standard dedupe_non_empty
resolve reg model op =
    if any (is_permissionless op) (keys_of model)
    then ([], source_permissionless)
    else (if model.namespace_shadowed
        then resolve_shadowed reg model op
        else resolve_standard reg model op)
