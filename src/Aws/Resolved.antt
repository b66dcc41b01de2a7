-- ===== src/Aws/Resolved.antt =====
-- Which tier answers for an operation.
use cynative.Base.{
  ◌≡◌, ◌≢◌, refl, ◌⊎◌, inl, inr, ◌↔◌, false, Str, List, [], ◌∷◌, ◌++◌, any, eq-false_iff, Option,
  none, some, Bool-cases,
}
use cynative.Aws.Model.{ServiceModel}
use cynative.Aws.Actions.{
  ActionSource, source_none, source_service_ref, source_iam_dataset, source_derived,
  source_permissionless, Registries, Resolution, is_permissionless, keys_of, service_ref_tier,
  dataset_tier, Tier, found, sdk_names_only, tier_of, SrOperation, with_operation, sr_operation,
  from_dataset, derive, after_service_ref, after_own_keys, resolve_standard, resolve_shadowed,
  resolve,
}
use cynative.Aws.Keys.{IsPinned, any-is_permissionless}

-- What the tiers below the pinned set can answer: nothing, actions that a registry has, or, if `D`
-- holds, the derived action alone.
abbrev IsAnswer : Type 0 → Str → Resolution → Type 0
IsAnswer D derived res =
    ((res.1 ≡ source_none) × (res.0 ≡ []))
    ⊎ (D × (res.1 ≡ source_derived) × (res.0 ≡ derived ∷ []))
    ⊎ (((res.1 ≡ source_service_ref) ⊎ (res.1 ≡ source_iam_dataset)) × (res.0 ≢ []))

-- The actions found are some.
abbrev IsFound : Tier → Type 0
IsFound (found acts) = acts ≢ []
IsFound (sdk_names_only _) = Unit

tier_of-IsFound :
    (acts names : List Str) (rest : Tier) → IsFound rest → IsFound (tier_of acts names rest)
tier_of-IsFound [] names rest h = h
tier_of-IsFound (a ∷ acts) names rest h = λ e. cc e

with_operation-IsFound :
    (o : Option SrOperation) (names : List Str) (rest : List Str → Tier)
    → ((ns : List Str) → IsFound (rest ns))
    → IsFound (with_operation o names rest)
with_operation-IsFound none names rest h = h names
with_operation-IsFound (some srop) names rest h =
    tier_of-IsFound srop.authorized_actions srop.sdk_names _ (h srop.sdk_names)

service_ref-IsFound :
    (reg : Registries) (op : Str) (keys names : List Str)
    → IsFound (service_ref_tier reg op keys names)
unfolding service_ref_tier
service_ref-IsFound reg op [] names = tt
service_ref-IsFound reg op (key ∷ keys) names =
    with_operation-IsFound (sr_operation reg op key) names _ (service_ref-IsFound reg op keys)

from_dataset-IsAnswer :
    (D : Type 0) (derived : Str) (acts : List Str) (other : Resolution)
    → IsAnswer D derived other
    → IsAnswer D derived (from_dataset acts other)
from_dataset-IsAnswer D derived [] other h = h
from_dataset-IsAnswer D derived (a ∷ acts) other h = inr (inr (inr refl, λ e. cc e))

derive-IsAnswer : (ns op : Str) → IsAnswer (ns ≢ []) (ns ++ b':' ∷ op) (derive ns op)
derive-IsAnswer [] op = inl (refl, refl)
derive-IsAnswer (c ∷ ns) op = inr (inl (λ e. cc e, refl, refl))

standard-IsAnswer :
    (reg : Registries) (model : ServiceModel) (op : Str) (tier : Tier)
    → IsFound tier
    → IsAnswer
        (model.arn_namespace ≢ [])
        (model.arn_namespace ++ b':' ∷ op)
        (after_service_ref reg model op (keys_of model) tier)
standard-IsAnswer reg model op (found acts) h = inr (inr (inl refl, h))
standard-IsAnswer reg model op (sdk_names_only names) h =
    from_dataset-IsAnswer _ _ (dataset_tier reg op names (keys_of model)) _
      (derive-IsAnswer model.arn_namespace op)

shadowed-IsAnswer :
    (reg : Registries) (model : ServiceModel) (op : Str) (tier : Tier)
    → IsFound tier
    → IsAnswer ⊥ [] (after_own_keys reg model op tier)
shadowed-IsAnswer reg model op (found acts) h = inr (inr (inl refl, h))
shadowed-IsAnswer reg model op (sdk_names_only names) h =
    from_dataset-IsAnswer ⊥ [] (reg.lookup_sdk_id model.sdk_id op) _ (inl (refl, refl))

-- What the sources say of the actions.
abbrev HasFacts : Type 0 → Type 0 → Str → Resolution → Type 0
HasFacts P D derived res =
    ((res.1 ≡ source_permissionless) ↔ P)
    × (res.1 ≡ source_derived → D × (res.0 ≡ derived ∷ []))
    × ((res.0 ≡ []) ↔ ((res.1 ≡ source_none) ⊎ (res.1 ≡ source_permissionless)))

registry-not :
    {A : Type 0} {src : ActionSource}
    → ((src ≡ source_service_ref) ⊎ (src ≡ source_iam_dataset))
    → ((src ≡ source_none) ⊎ (src ≡ source_permissionless))
    → A
registry-not a b = elim a [
  | inl x ↦ elim b [ inl y ↦ cc (x, y) | inr y ↦ cc (x, y) ]
  | inr x ↦ elim b [ inl y ↦ cc (x, y) | inr y ↦ cc (x, y) ]
]

widen : (D : Type 0) (derived : Str) (res : Resolution) → IsAnswer ⊥ [] res → IsAnswer D derived res
widen D derived res h = elim h [
  | inl x ↦ inl x
  | inr (inl x) ↦ absurd (x.0)
  | inr (inr x) ↦ inr (inr x)
]

answer-HasFacts :
    (P D : Type 0) (derived : Str) (res : Resolution)
    → ¬ P
    → IsAnswer D derived res
    → HasFacts P D derived res
answer-HasFacts P D derived (acts, src) n h = elim h [
  | inl x ↦ ((λ q. cc (x.0, q), λ p. absurd (n p)), λ q. cc (x.0, q), (λ _. inl (x.0), λ _. x.1))
  | inr (inl x) ↦ (
    (λ q. cc (x.1, q), λ p. absurd (n p)),
    λ q. (x.0, x.2),
    (λ q. cc (x.2, q), λ q. elim q [ inl y ↦ cc (x.1, y) | inr y ↦ cc (x.1, y) ]),
  )
  | inr (inr x) ↦ (
    (λ q. elim (x.0) [ inl y ↦ cc (y, q) | inr y ↦ cc (y, q) ], λ p. absurd (n p)),
    λ q. elim (x.0) [ inl y ↦ cc (y, q) | inr y ↦ cc (y, q) ],
    (λ q. absurd (x.1 q), λ q. registry-not (x.0) q),
  )
]

resolve_shadowed-IsAnswer :
    (reg : Registries) (model : ServiceModel) (op : Str)
    → IsAnswer ⊥ [] (resolve_shadowed reg model op)
unfolding resolve_shadowed
resolve_shadowed-IsAnswer reg model op =
    shadowed-IsAnswer reg model op _ (service_ref-IsFound reg op _ [])

resolve_standard-IsAnswer :
    {F : Type 0} (reg : Registries) (model : ServiceModel) (op : Str)
    → F
    → IsAnswer
        (F × (model.arn_namespace ≢ []))
        (model.arn_namespace ++ b':' ∷ op)
        (resolve_standard reg model op)
unfolding resolve_standard
resolve_standard-IsAnswer reg model op f =
    elim (standard-IsAnswer reg model op _ (service_ref-IsFound reg op (keys_of model) [])) [
      | inl x ↦ inl x
      | inr (inl x) ↦ inr (inl ((f, x.0), x.1, x.2))
      | inr (inr x) ↦ inr (inr x)
    ]

-- An operation needs no permission just when it is GetCallerIdentity and one of the model's three keys
-- is sts, in any case; the derived action is used only by a model that owns its namespace, and names
-- that namespace; and no actions at all come only with the sources that name none.
pub resolve_lem :
    (reg : Registries) (model : ServiceModel) (op : Str)
    → (((resolve reg model op).1 ≡ source_permissionless) ↔ IsPinned model op)
      × ((resolve reg model op).1 ≡ source_derived
          → ((model.namespace_shadowed ≡ false) × (model.arn_namespace ≢ []))
            × ((resolve reg model op).0 ≡ (model.arn_namespace ++ b':' ∷ op) ∷ []))
      × (((resolve reg model op).0 ≡ []) ↔ (
          ((resolve reg model op).1 ≡ source_none)
          ⊎ ((resolve reg model op).1 ≡ source_permissionless)))
unfolding resolve
resolve_lem reg model op = elim (Bool-cases (any (is_permissionless op) (keys_of model))) [
  | inl b ↦ rw b (
    (λ _. (any-is_permissionless model op).0 b, λ _. refl),
    λ q. cc q,
    (λ _. inr refl, λ _. refl),
  )
  | inr b ↦
      let n = (eq-false_iff _ (any-is_permissionless model op)).0 b in
      elim (Bool-cases model.namespace_shadowed) [
        | inl s ↦
            rw (b, s)
              (answer-HasFacts _ _ _ _ n (widen _ _ _ (resolve_shadowed-IsAnswer reg model op)))
        | inr s ↦
            rw (b, s) (answer-HasFacts _ _ _ _ n (resolve_standard-IsAnswer reg model op refl))
      ]
]
