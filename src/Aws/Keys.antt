-- ===== src/Aws/Keys.antt =====
-- The keys of a model, and the operations pinned as needing no permission.
use cynative.Base.{
  ℕ, ◌≡◌, ◌≢◌, refl, sym, ◌∙◌, ap, ap₂, subst, ◌⊎◌, inl, inr, ◌↔◌, true, ◌==◌, Str, codes, List, [],
  ◌∷◌, ◌++◌, Memᴰ, Memᴰ-cons, any, any_iff, all, str_eq, str_eq_iff, ||_iff, eq-false_iff, ◌||◌,
  not, Memᴰ-append_iff, to_lower, contains, Bool-cases, arith,
}
use cynative.Base.TextLaws.{IsFree, contains_iff}
use cynative.Aws.Model.{ServiceModel}
use cynative.Aws.Actions.{
  dedupe_loop, dedupe_non_empty, permissionless_op, is_permissionless, keys_of,
}

IsFree-all : (sep : ℕ) (s : Str) → all (λ c. not (c == sep)) s ≡ true → IsFree sep s
unfolding all
IsFree-all sep [] h = tt
IsFree-all sep (c ∷ s) h = elim (Bool-cases (c == sep)) [
  | inl e ↦ cc (rw e at h)
  | inr e ↦ (e, IsFree-all sep s (rw e at h))
]

separated-not : (k op : Str) → ¬ IsFree b':' (k ++ b':' ∷ op)
separated-not [] op f = cc (f.0)
separated-not (x ∷ k) op f = separated-not k op f.1

append-injective :
    (k op a b : Str)
    → IsFree b':' a
    → IsFree b':' b
    → k ++ b':' ∷ op ≡ a ++ b':' ∷ b
    → (k ≡ a) × (op ≡ b)
append-injective [] op [] b f g e = (refl, cc e)
append-injective [] op (y ∷ a) b f g e = let q : b':' ≡ y = cc e in absurd (ground (arith, f.0, q))
append-injective (x ∷ k) op [] b f g e =
    let q : k ++ b':' ∷ op ≡ b = cc e in absurd (separated-not k op (subst (IsFree b':') (sym q) g))
append-injective (x ∷ k) op (y ∷ a) b f g e =
    let (p, q) = append-injective k op a b f.1 g (cc e) in
    let h : x ≡ y = cc e in (ap₂ (λ c s. c ∷ s) h p, q)

is_permissionless_iff :
    (op key : Str)
    → (is_permissionless op key ≡ true)
      ↔ ((to_lower key ≡ codes "sts") × (op ≡ codes "GetCallerIdentity"))
unfolding is_permissionless all
is_permissionless_iff op key =
    let (to, from) = str_eq_iff (to_lower key ++ b':' ∷ op) permissionless_op in
    (
      λ e.
          append-injective (to_lower key) op (codes "sts") (codes "GetCallerIdentity")
            (IsFree-all b':' (codes "sts") refl) (IsFree-all b':' (codes "GetCallerIdentity") refl)
            (to e),
      λ h. from (ap₂ (λ s t. s ++ b':' ∷ t) h.0 h.1),
    )

cons_iff : (s t : Str) (ss : List Str) → Memᴰ s (t ∷ ss) ↔ ((s ≡ t) ⊎ Memᴰ s ss)
cons_iff s t ss = (Memᴰ-cons, λ h. elim h [ inl e ↦ Memᴰ.head e | inr m ↦ Memᴰ.tail m ])

snoc_iff : (s t : Str) (out : List Str) → Memᴰ s (out ++ t ∷ []) ↔ (Memᴰ s out ⊎ (s ≡ t))
snoc_iff s t out =
    let (to, from) = Memᴰ-append_iff {x = s} out (t ∷ []) in
    (
      λ m. elim (to m) [
        | inl a ↦ inl a
        | inr b ↦ elim (Memᴰ-cons b) [ inl e ↦ inr e | inr k ↦ elim k [ ] ]
      ],
      λ h. from (elim h [ inl a ↦ inl a | inr e ↦ inr (Memᴰ.head e) ]),
    )

kept : {D O S N C E : Type 0} → D ↔ (O ⊎ (N × S)) → C ↔ (E ⊎ S) → (E → N → O) → D ↔ (O ⊎ (N × C))
kept d c e = ground (arith, d, c, e)

added :
    {D O P S N C E : Type 0}
    → D ↔ (P ⊎ (N × S))
    → P ↔ (O ⊎ E)
    → C ↔ (E ⊎ S)
    → (E → N)
    → D ↔ (O ⊎ (N × C))
added d p c e = ground (arith, d, p, c, e)

dedupe_loop_iff :
    (out ss : List Str) (s : Str)
    → Memᴰ s (dedupe_loop out ss) ↔ (Memᴰ s out ⊎ ((s ≢ []) × Memᴰ s ss))
unfolding dedupe_loop
dedupe_loop_iff out [] s = (inl, λ x. elim x [ inl m ↦ m | inr q ↦ elim q.1 [ ] ])
dedupe_loop_iff out (t ∷ ss) s = elim (Bool-cases (str_eq t [] || contains out t)) [
  | inl b ↦ rw b (
      kept (dedupe_loop_iff out ss s) (cons_iff s t ss) (λ e n. elim (old_or b) [
        | inl q ↦ absurd (n (e ∙ q))
        | inr m ↦ subst (λ x. Memᴰ x out) (sym e) m
      ]))
  | inr b ↦ rw b (
      added (dedupe_loop_iff (out ++ t ∷ []) ss s) (snoc_iff s t out) (cons_iff s t ss)
        (λ e q. absurd ((eq-false_iff _ (old_or_iff)).0 b (inl (sym e ∙ q)))))
]
  where
    old_or_iff : ((str_eq t [] || contains out t) ≡ true) ↔ ((t ≡ []) ⊎ Memᴰ t out)
    old_or_iff = ||_iff (str_eq t []) (contains out t) (str_eq_iff t []) (contains_iff out t)

    old_or : (str_eq t [] || contains out t) ≡ true → (t ≡ []) ⊎ Memᴰ t out
    old_or = old_or_iff.0

-- `resolve` on a model answers for the operation without asking the policy.
abbrev pub IsPinned : ServiceModel → Str → Type 0
IsPinned model op =
    (op ≡ codes "GetCallerIdentity")
    × ((to_lower model.arn_namespace ≡ codes "sts")
        ⊎ (to_lower model.dir ≡ codes "sts")
        ⊎ (to_lower model.endpoint_prefix ≡ codes "sts"))

sts-nonempty : (key : Str) → to_lower key ≡ codes "sts" → key ≢ []
unfolding to_lower
sts-nonempty key l e = cc (rw e at l)

pub any-is_permissionless :
    (model : ServiceModel) (op : Str)
    → (any (is_permissionless op) (keys_of model) ≡ true) ↔ IsPinned model op
unfolding dedupe_loop dedupe_non_empty
any-is_permissionless model op =
    let three = model.arn_namespace ∷ model.dir ∷ model.endpoint_prefix ∷ [] in
    (
      λ h.
          let (key, m, e) = (any_iff (is_permissionless op) (keys_of model)).0 h in
          let (l, o) = (is_permissionless_iff op key).0 e in
          (
            o,
            elim ((dedupe_loop_iff [] three key).0 m) [
              | inl k ↦ elim k [ ]
              | inr k ↦ elim (Memᴰ-cons (k.1)) [
                | inl q ↦ inl (ap to_lower (sym q) ∙ l)
                | inr k ↦ elim (Memᴰ-cons k) [
                  | inl q ↦ inr (inl (ap to_lower (sym q) ∙ l))
                  | inr k ↦ elim (Memᴰ-cons k) [
                    | inl q ↦ inr (inr (ap to_lower (sym q) ∙ l))
                    | inr k ↦ elim k [ ]
                  ]
                ]
              ]
            ],
          ),
      λ h.
          let with_key : (key : Str)
              → to_lower key ≡ codes "sts"
              → Memᴰ key three
              → any (is_permissionless op) (keys_of model) ≡ true =
            λ key l m. (any_iff (is_permissionless op) (keys_of model)).1 (
              key,
              (dedupe_loop_iff [] three key).1 (inr (sts-nonempty key l, m)),
              (is_permissionless_iff op key).1 (l, h.0),
            ) in
          elim (h.1) [
            | inl l ↦ with_key model.arn_namespace l (Memᴰ.head refl)
            | inr (inl l) ↦ with_key model.dir l (Memᴰ.tail (Memᴰ.head refl))
            | inr (inr l) ↦
                with_key model.endpoint_prefix l (Memᴰ.tail (Memᴰ.tail (Memᴰ.head refl)))
          ],
    )
