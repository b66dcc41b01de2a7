-- ===== src/Aws/Covered.antt =====
-- The actions that the loops of the gate collect.
use cynative.Base.{
  ◌≡◌, ◌≢◌, refl, sym, subst, ◌⊎◌, inl, inr, Str, List, [], ◌∷◌, ◌++◌, Memᴰ, Memᴰ-cons,
  Memᴰ-append_left, Memᴰ-append_right, contains, ok, >>=-eq-ok, Bool-cases,
}
use cynative.Base.TextLaws.{contains_iff}
use cynative.Aws.Model.{ServiceModel}
use cynative.Aws.Actions.{
  source_none, source_service_ref, source_iam_dataset, source_derived, source_permissionless,
  Registries, Resolution, resolve,
}
use cynative.Aws.Gate.{needed, required_actions, append_unique}

-- The operation needs no permission, or it has actions and all of them are in `acts`.
abbrev pub Covered : (Str → Type 0) → Resolution → Type 0
Covered P res = (res.1 ≡ source_permissionless) ⊎ ((res.0 ≢ []) × ((a : Str) → Memᴰ a res.0 → P a))

abbrev pub In : List Str → Str → Type 0
In acts a = Memᴰ a acts

needed-Covered :
    (dir op : Str) (res : Resolution) (acts : List Str)
    → needed dir op res ≡ ok acts
    → Covered (In acts) res
needed-Covered dir op (actions, source_permissionless) acts e = inl refl
needed-Covered dir op (actions, source_none) acts e = cc e
needed-Covered dir op ([], source_service_ref) acts e = cc e
needed-Covered dir op (a ∷ actions, source_service_ref) acts e =
    inr (λ q. cc q, λ b m. subst (Memᴰ b) (cc e) m)
needed-Covered dir op ([], source_iam_dataset) acts e = cc e
needed-Covered dir op (a ∷ actions, source_iam_dataset) acts e =
    inr (λ q. cc q, λ b m. subst (Memᴰ b) (cc e) m)
needed-Covered dir op ([], source_derived) acts e = cc e
needed-Covered dir op (a ∷ actions, source_derived) acts e =
    inr (λ q. cc q, λ b m. subst (Memᴰ b) (cc e) m)

pub Covered-mono :
    (P Q : Str → Type 0) (res : Resolution)
    → ((a : Str) → P a → Q a)
    → Covered P res
    → Covered Q res
Covered-mono P Q res h c = elim c [ inl e ↦ inl e | inr x ↦ inr (x.0, λ a m. h a (x.1 a m)) ]

pub required-Covered :
    (reg : Registries) (model : ServiceModel) (ops acts : List Str)
    → required_actions reg model ops ≡ ok acts
    → (op : Str) → Memᴰ op ops
    → Covered (In acts) (resolve reg model op)
unfolding required_actions
required-Covered reg model [] acts e op m = elim m [ ]
required-Covered reg model (o ∷ ops) acts e op m =
    let (xs, ex, e') = >>=-eq-ok (needed model.dir o (resolve reg model o)) _ e in
    let (ys, ey, e'') = >>=-eq-ok (required_actions reg model ops) _ e' in
    let joined : xs ++ ys ≡ acts = cc e'' in
    elim (Memᴰ-cons m) [
      | inl q ↦
          subst (λ x. Covered (In acts) (resolve reg model x)) (sym q)
            (Covered-mono (In xs) (In acts) _
              (λ a k. subst (Memᴰ a) joined (Memᴰ-append_left xs ys k))
              (needed-Covered model.dir o (resolve reg model o) xs ex))
      | inr k ↦
          Covered-mono (In ys) (In acts) _
            (λ a j. subst (Memᴰ a) joined (Memᴰ-append_right xs ys j))
            (required-Covered reg model ops ys ey op k)
    ]

pub append_unique-In :
    (required actions : List Str) (a : Str)
    → Memᴰ a required ⊎ Memᴰ a actions
    → Memᴰ a (append_unique required actions)
unfolding append_unique
append_unique-In required [] a h = elim h [ inl m ↦ m | inr m ↦ elim m [ ] ]
append_unique-In required (b ∷ actions) a h = elim (Bool-cases (contains required b)) [
  | inl c ↦ rw c (
      append_unique-In required actions a (elim h [
        | inl m ↦ inl m
        | inr m ↦ elim (Memᴰ-cons m) [
          | inl e ↦ inl (subst (λ x. Memᴰ x required) (sym e) ((contains_iff required b).0 c))
          | inr k ↦ inr k
        ]
      ]))
  | inr c ↦ rw c (
      append_unique-In (required ++ b ∷ []) actions a (elim h [
        | inl m ↦ inl (Memᴰ-append_left required (b ∷ []) m)
        | inr m ↦ elim (Memᴰ-cons m) [
          | inl e ↦ inl (Memᴰ-append_right required (b ∷ []) (Memᴰ.head e))
          | inr k ↦ inr k
        ]
      ]))
]
