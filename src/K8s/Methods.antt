-- ===== src/K8s/Methods.antt =====
-- A role of read verbs lets no write through: what `Classify` makes of the HTTP methods.
use cynative.Base.{
  Str, codes, ◌≡◌, refl, sym, ◌∙◌, ◌≢◌, ◌⊎◌, inl, inr, ◌||◌, if◌then◌else◌, List, [], ◌∷◌, Memᴰ,
  Option, some, arith, str_eq, str_eq_iff, to_lower, ok, Bool-cases, All, All-mem, ||_iff,
}
use cynative.K8s.Request.{RequestInfo, Values, empty, verb_watch, verb_proxy}
use cynative.K8s.Classify.{
  split_path, consume_namespace, consume_resource, method_verb, nameless_verb, watch_verb,
  apply_verb, consume_prefix, non_resource, fill, resource_info, classify_resource, classify_parts,
  classify,
}
use cynative.K8s.Policy.{PolicyRule, authorize}
use cynative.K8s.Rbac.{Grants, authorize_iff}

-- The methods that change state, as the classifier spells them.
abbrev pub IsWriteMethod : Str → Type 0
IsWriteMethod m =
    (m ≡ codes "post") ⊎ (m ≡ codes "put") ⊎ (m ≡ codes "patch") ⊎ (m ≡ codes "delete")

-- The verbs that change state.
abbrev pub IsWriteVerb : Str → Type 0
IsWriteVerb v =
    (v ≡ codes "create")
    ⊎ (v ≡ codes "update")
    ⊎ (v ≡ codes "patch")
    ⊎ (v ≡ codes "delete")
    ⊎ (v ≡ codes "deletecollection")

-- The verbs of a read-only role; the wildcard is not one.
abbrev pub IsReadVerb : Str → Type 0
IsReadVerb v = (v ≡ codes "get") ⊎ (v ≡ codes "list") ⊎ (v ≡ codes "watch")

abbrev pub IsReadOnly : List PolicyRule → Type 0
IsReadOnly = All (λ r. All IsReadVerb r.verbs)

method_verb-write :
    (m : Str) (query : Option Values) (name : Str)
    → IsWriteMethod m
    → IsWriteVerb (
        watch_verb query
          (if str_eq name empty then nameless_verb (method_verb m) else method_verb m))
unfolding method_verb nameless_verb watch_verb str_eq
method_verb-write m query name h = ground arith

read-ne-write : (v : Str) → IsReadVerb v ⊎ (v ≡ codes "head") → IsWriteVerb v → ⊥
read-ne-write v r w = ground arith

consume_namespace-verb :
    (ri : RequestInfo) (parts : List Str) → (consume_namespace ri parts).0.verb ≡ ri.verb
unfolding consume_namespace
consume_namespace-verb ri [] = refl
consume_namespace-verb ri (a ∷ []) = refl
consume_namespace-verb ri (a ∷ b ∷ []) = refl
consume_namespace-verb ri (a ∷ b ∷ c ∷ parts) = ground arith

consume_resource-verb :
    (ri : RequestInfo) (parts : List Str) → (consume_resource ri parts).verb ≡ ri.verb
unfolding consume_resource
consume_resource-verb ri [] = refl
consume_resource-verb ri (a ∷ []) = refl
consume_resource-verb ri (a ∷ b ∷ []) = refl
consume_resource-verb ri (a ∷ b ∷ c ∷ parts) = refl

apply_verb-write :
    (ri : RequestInfo) (m : Str) (query : Option Values)
    → ri.verb ≡ empty
    → IsWriteMethod m
    → IsWriteVerb (apply_verb ri m query).verb
unfolding apply_verb
apply_verb-write ri m query e h = elim (Bool-cases (str_eq ri.verb empty)) [
  | inl t ↦ simp t (method_verb-write m query ri.name h)
  | inr f ↦ cc ((str_eq_iff _ _).1 e)
]

apply_verb-prefix :
    (ri : RequestInfo) (m : Str) (query : Option Values)
    → ri.verb ≢ empty
    → (apply_verb ri m query).verb ≡ ri.verb
unfolding apply_verb
apply_verb-prefix ri m query n = elim (Bool-cases (str_eq ri.verb empty)) [
  | inl t ↦ absurd (n ((str_eq_iff _ _).0 t))
  | inr f ↦ simp f
]

fill-write :
    (ri : RequestInfo) (m : Str) (query : Option Values) (parts : List Str)
    → ri.verb ≡ empty
    → IsWriteMethod m
    → IsWriteVerb (fill m query ri parts).verb
unfolding fill
fill-write ri m query parts e h =
    let (scoped, rest) = consume_namespace ri parts in
    apply_verb-write (consume_resource scoped rest) m query
      (consume_resource-verb scoped rest ∙ consume_namespace-verb ri parts ∙ e) h

fill-prefix :
    (ri : RequestInfo) (m : Str) (query : Option Values) (parts : List Str)
    → ri.verb ≢ empty
    → (fill m query ri parts).verb ≡ ri.verb
unfolding fill
fill-prefix ri m query parts n =
    let (scoped, rest) = consume_namespace ri parts in
    let e = consume_resource-verb scoped rest ∙ consume_namespace-verb ri parts in
    apply_verb-prefix (consume_resource scoped rest) m query (λ z. n (sym e ∙ z)) ∙ e

-- What a write method leads to after the group and version: a write verb, or the legacy prefix.
classify_resource-write :
    (m path group version root : Str) (query : Option Values) (parts : List Str)
    → IsWriteMethod m
    → IsWriteVerb (classify_resource m query path group version (root ∷ parts)).verb
      ⊎ (((classify_resource m query path group version (root ∷ parts)).verb ≡ root)
          × ((root ≡ verb_proxy) ⊎ (root ≡ verb_watch)))
unfolding classify_resource consume_prefix
classify_resource-write m path group version root query parts h =
    let fresh = resource_info path group version in
    elim (Bool-cases (str_eq root verb_proxy || str_eq root verb_watch)) [
      | inl t ↦
          let p = (||_iff _ _ (str_eq_iff root verb_proxy) (str_eq_iff root verb_watch)).0 t in
          simp t (
            inr (
              fill-prefix (record fresh { verb = root }) m query parts
                  (λ (z : root ≡ empty). elim p [
                    | inl q ↦ cc (sym q ∙ z)
                    | inr q ↦ cc (sym q ∙ z)
                  ]),
              p,
            ))
      | inr f ↦ simp f (inl (fill-write fresh m query (root ∷ parts) refl h))
    ]

granted-IsReadVerb :
    (ri : RequestInfo) (rules : List PolicyRule) (r : PolicyRule)
    → IsReadOnly rules
    → Memᴰ r rules
    → Grants ri r
    → IsReadVerb ri.verb
granted-IsReadVerb ri rules r h m g =
    let read = All-mem (λ (r : PolicyRule). All IsReadVerb r.verbs) h m in
    elim g.verb [
      | inl star ↦ absurd (star_not_read (All-mem IsReadVerb read star))
      | inr listed ↦ All-mem IsReadVerb read listed
    ]
  where
    star_not_read : IsReadVerb (codes "*") → ⊥
    star_not_read s = ground arith

authorized_verb :
    (ri : RequestInfo) (rules : List PolicyRule)
    → IsReadOnly rules
    → authorize ri (some rules) ≡ ok tt
    → IsReadVerb ri.verb ⊎ (ri.verb ≡ codes "head")
authorized_verb ri rules ro h = elim ((authorize_iff ri (some rules)).0 h) [
  | inl (_, (r, m, g)) ↦ inl (granted-IsReadVerb ri rules r ro m g)
  | inr (_, s) ↦ elim s.read [ inl e ↦ inl (inl e) | inr e ↦ inr e ]
]

-- The path has the legacy prefix that names the verb: /api/<version>/watch/... or
-- /apis/<group>/<version>/watch/...
abbrev pub IsLegacyWatch : List Str → Type 0
IsLegacyWatch segs =
    ((v : Str) × (rest : List Str) × (segs ≡ codes "api" ∷ v ∷ verb_watch ∷ rest))
    ⊎ ((g : Str) × (v : Str) × (rest : List Str) × (segs
          ≡ codes "apis" ∷ g ∷ v ∷ verb_watch ∷ rest))

module _ (m path : Str) (query : Option Values) (rules : List PolicyRule) (h : IsWriteMethod m)
    (ro : IsReadOnly rules) where
  non_resource_denied : authorize (non_resource m path) (some rules) ≢ ok tt
  unfolding non_resource
  non_resource_denied a = let r = authorized_verb (non_resource m path) rules ro a in ground arith

  resource_needs_watch :
      (group version root : Str) (parts : List Str)
      → authorize (classify_resource m query path group version (root ∷ parts)) (some rules) ≡ ok tt
      → root ≡ verb_watch
  resource_needs_watch group version root parts a =
      let r = authorized_verb _ rules ro a in
      elim (classify_resource-write m path group version root query parts h) [
        | inl w ↦ absurd (read-ne-write _ r w)
        | inr (e, p) ↦ ground arith
      ]

  parts_denied :
      (segs : List Str)
      → authorize (classify_parts m path query segs) (some rules) ≡ ok tt
      → IsLegacyWatch segs
  unfolding classify_parts
  parts_denied [] a = absurd (non_resource_denied a)
  parts_denied (root ∷ []) a = absurd (non_resource_denied a)
  parts_denied (root ∷ v ∷ []) a = absurd (non_resource_denied a)
  parts_denied (root ∷ v ∷ b ∷ []) a = elim (Bool-cases (str_eq root (codes "api"))) [
    | inl t ↦
        let w = resource_needs_watch empty v b [] (simp t at a) in
        inl (v, [], cc (w, (str_eq_iff root (codes "api")).0 t))
    | inr f ↦ absurd (non_resource_denied (simp f at a))
  ]
  parts_denied (root ∷ v ∷ b ∷ c ∷ parts) a = elim (Bool-cases (str_eq root (codes "api"))) [
    | inl t ↦
        let w = resource_needs_watch empty v b (c ∷ parts) (simp t at a) in
        inl (v, c ∷ parts, cc (w, (str_eq_iff root (codes "api")).0 t))
    | inr f ↦ elim (Bool-cases (str_eq root (codes "apis"))) [
      | inl t ↦
          let w = resource_needs_watch v b c parts (simp (f, t) at a) in
          inr (v, b, parts, cc (w, (str_eq_iff root (codes "apis")).0 t))
      | inr n ↦ absurd (non_resource_denied (simp (f, n) at a))
    ]
  ]

-- Under a role whose rules name read verbs only (no wildcard verb), a POST, PUT, PATCH or DELETE
-- in any letter case is denied, whatever the path and the query, unless the path has the legacy
-- watch prefix.
pub write_method_denied :
    (method path : Str) (query : Option Values) (rules : List PolicyRule)
    → IsWriteMethod (to_lower method)
    → IsReadOnly rules
    → ¬ IsLegacyWatch (split_path path)
    → authorize (classify method path query) (some rules) ≢ ok tt
unfolding classify
write_method_denied method path query rules h ro n a =
    n (parts_denied (to_lower method) path query rules h ro (split_path path) a)
