-- ===== src/K8s/Rbac.antt =====
-- What `Authorize` grants, said without its loops: RBAC's reading of a ClusterRole.
use cynative.Base.{
  Str, codes, ◌≡◌, refl, subst, ◌≢◌, ◌↔◌, ◌⊎◌, inl, inr, Bool, true, false, if◌then◌else◌, List, [],
  ◌∷◌, Memᴰ, none, some, arith, any, any_iff, str_eq, str_eq_iff, str_eq_refl, has_prefix, Result,
  ok, err, Bool-cases, eq-false_iff, &&_iff, ||_iff,
}
use cynative.Base.TextLaws.{contains_iff}
use cynative.K8s.Request.{RequestInfo, empty}
use cynative.K8s.Policy.{
  PolicyRule, ViewPolicy, match_item, resource_name_matches, target, rule_allows, allows,
  safe_non_resource_paths, safe_non_resource_prefixes, allowed_non_resource, Forbidden, authorize,
}

-- An entry of the rule is the wanted word or the wildcard.
abbrev pub Covers : List Str → Str → Type 0
Covers set want = Memᴰ (codes "*") set ⊎ Memᴰ want set

-- No restriction, or the request names one of the listed objects.
abbrev pub NameAllowed : List Str → Str → Type 0
NameAllowed names name = (names ≡ []) ⊎ ((name ≢ []) × Memᴰ name names)

-- The rule grants the request.
pub record Grants (ri : RequestInfo) (r : PolicyRule) : Type 0 where
  pub verb : Covers r.verbs ri.verb
  pub group : Covers r.api_groups ri.api_group
  pub resource : Covers r.resources (target ri)
  pub name : NameAllowed r.resource_names ri.name

-- The request is a read of a discovery, health or version URL.
pub record IsSafeUrl (ri : RequestInfo) : Type 0 where
  pub read : (ri.verb ≡ codes "get") ⊎ (ri.verb ≡ codes "head")
  pub listed :
      Memᴰ ri.path safe_non_resource_paths
      ⊎ ((prefix : Str) × Memᴰ prefix safe_non_resource_prefixes
          × (has_prefix ri.path prefix ≡ true))

match_item_iff : (set : List Str) (want : Str) → (match_item set want ≡ true) ↔ Covers set want
unfolding match_item
match_item_iff set want = (
  λ h.
      let (x, m, e) = (any_iff _ set).0 h in
      elim ((||_iff _ _ (str_eq_iff x (codes "*")) (str_eq_iff x want)).0 e) [
        | inl p ↦ inl (subst (λ y. Memᴰ y set) p m)
        | inr p ↦ inr (subst (λ y. Memᴰ y set) p m)
      ],
  λ c. elim c [
    | inl m ↦ (any_iff _ set).1 (codes "*", m, ground (arith, str_eq_refl (codes "*")))
    | inr m ↦ (any_iff _ set).1 (want, m, ground (arith, str_eq_refl want))
  ],
)

resource_name_matches_iff :
    (names : List Str) (name : Str)
    → (resource_name_matches names name ≡ true) ↔ NameAllowed names name
unfolding resource_name_matches
resource_name_matches_iff [] name = (λ _. inl refl, λ _. refl)
resource_name_matches_iff (n ∷ names) name = elim (Bool-cases (str_eq name empty)) [
  | inl e ↦ (
    λ h. cc (rw e at h),
    λ a. elim a [ inl p ↦ cc p | inr (p, _) ↦ absurd (p ((str_eq_iff name empty).0 e)) ],
  )
  | inr e ↦ (
    λ h. inr (
      (eq-false_iff _ (str_eq_iff name empty)).0 e,
      (contains_iff (n ∷ names) name).0 (rw e at h),
    ),
    λ a. elim a [ inl p ↦ cc p | inr (_, m) ↦ rw e ((contains_iff (n ∷ names) name).1 m) ],
  )
]

pub rule_allows_iff : (ri : RequestInfo) (r : PolicyRule) → (rule_allows ri r ≡ true) ↔ Grants ri r
unfolding rule_allows
rule_allows_iff ri r =
    let e = &&_iff _ _ (match_item_iff r.verbs ri.verb) (
      &&_iff _ _ (match_item_iff r.api_groups ri.api_group) (
        &&_iff _ _ (match_item_iff r.resources (target ri))
          (resource_name_matches_iff r.resource_names ri.name))) in
    (
      λ h.
          let (v, g, n, m) = flat (e.0 h) in record { verb = v; group = g; resource = n; name = m },
      λ g. e.1 (g.verb, (g.group, (g.resource, g.name))),
    )
  where
    flat : {A B C D : Type 0} → A × (B × (C × D)) → A × B × C × D
    flat (a, b) = (a, b.0, b.1.0, b.1.1)

-- A role grants the request; a missing role grants nothing.
abbrev pub RoleGrants : ViewPolicy → RequestInfo → Type 0
RoleGrants none ri = ⊥
RoleGrants (some rules) ri = (r : PolicyRule) × Memᴰ r rules × Grants ri r

abbrev pub IsAuthorized : RequestInfo → ViewPolicy → Type 0
IsAuthorized ri vp =
    ((ri.is_resource_request ≡ true) × RoleGrants vp ri)
    ⊎ ((ri.is_resource_request ≡ false) × IsSafeUrl ri)

any_rule_iff :
    (ri : RequestInfo) (rules : List PolicyRule)
    → (any (rule_allows ri) rules ≡ true) ↔ ((r : PolicyRule) × Memᴰ r rules × Grants ri r)
any_rule_iff ri rules = (
  λ h. let (r, m, e) = (any_iff _ rules).0 h in (r, m, (rule_allows_iff ri r).0 e),
  λ g. (any_iff _ rules).1 (g.0, g.1, (rule_allows_iff ri g.0).1 g.2),
)

if_iff :
    (b c : Bool) {P : Type 0}
    → (c ≡ true) ↔ P
    → ((if b then c else false) ≡ true) ↔ ((b ≡ true) × P)
if_iff true c p = (λ h. (refl, p.0 h), λ s. p.1 s.1)
if_iff false c p = (λ h. cc, λ s. cc s.0)

pub allows_iff :
    (vp : ViewPolicy) (ri : RequestInfo)
    → (allows vp ri ≡ true) ↔ ((ri.is_resource_request ≡ true) × RoleGrants vp ri)
unfolding allows
allows_iff none ri = (λ h. cc, λ g. absurd g.1)
allows_iff (some rules) ri = if_iff _ _ (any_rule_iff ri rules)

allowed_non_resource_iff :
    (ri : RequestInfo) → (allowed_non_resource ri.verb ri.path ≡ true) ↔ IsSafeUrl ri
unfolding allowed_non_resource
allowed_non_resource_iff ri =
    let read = ||_iff _ _ (str_eq_iff ri.verb (codes "get")) (str_eq_iff ri.verb (codes "head")) in
    let listed =
      ||_iff _ _ (contains_iff safe_non_resource_paths ri.path)
        (any_iff (has_prefix ri.path) safe_non_resource_prefixes) in
    (
      λ h. let (r, l) = (if_iff _ _ listed).0 h in record { read = read.0 r; listed = l },
      λ s. (if_iff _ _ listed).1 (read.1 s.read, s.listed),
    )

choose_ok_iff :
    (b p q : Bool) (e f : Forbidden) {P Q : Type 0}
    → (p ≡ true) ↔ P
    → (q ≡ true) ↔ Q
    → (◌≡◌ {A = Result Forbidden (Unit {0})}
        (if b then (if p then ok tt else err e) else (if q then ok tt else err f))
        (ok tt))
      ↔ (((b ≡ true) × P) ⊎ ((b ≡ false) × Q))
choose_ok_iff true true q e f hp hq = (λ _. inl (refl, hp.0 refl), λ _. refl)
choose_ok_iff true false q e f hp hq =
    (λ h. cc, λ s. elim s [ inl x ↦ cc (hp.1 x.1) | inr y ↦ cc y.0 ])
choose_ok_iff false p true e f hp hq = (λ _. inr (refl, hq.0 refl), λ _. refl)
choose_ok_iff false p false e f hp hq =
    (λ h. cc, λ s. elim s [ inl x ↦ cc x.0 | inr y ↦ cc (hq.1 y.1) ])

-- `Authorize` admits exactly the requests that a rule of the role grants, and the reads of the
-- listed discovery, health and version URLs. Without a role no resource request is admitted.
pub authorize_iff :
    (ri : RequestInfo) (vp : ViewPolicy) → (authorize ri vp ≡ ok tt) ↔ IsAuthorized ri vp
unfolding authorize
authorize_iff ri vp =
    let e =
      choose_ok_iff ri.is_resource_request _ _ _ _ (allows_iff vp ri)
        (allowed_non_resource_iff ri) in
    (
      λ h. elim (e.0 h) [ inl (_, g) ↦ inl g | inr u ↦ inr u ],
      λ s. e.1 (elim s [ inl g ↦ inl (g.0, g) | inr u ↦ inr u ]),
    )
