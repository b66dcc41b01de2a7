-- ===== src/Aws/Authorized.antt =====
-- What an authorised request was checked for.
use cynative.Base.{
  ◌+◌, ◌==◌, ◌≤◌, ◌<◌, ◌≡◌, refl, sym, subst, inl, inr, true, false, Str, List, [], ◌∷◌, Memᴰ,
  Memᴰ-cons, all_iff, equal_fold, Result, ok, err, >>=-eq-ok, Bool-cases, lt_or_le, arith,
}
use cynative.Aws.Model.{ServiceModel, ParsedHost}
use cynative.Aws.Rest.{Request}
use cynative.Aws.Protocols.{ClassifyError, unknown_op, unsupported_protocol, classify_operation}
use cynative.Aws.Actions.{Registries, resolve}
use cynative.Aws.Evaluator.{Cache, Iam, Answer, allowed_all}
use cynative.Aws.Refined.{permits, Agrees, allowed_all-IsRight}
use cynative.Aws.Gate.{
  GateError, Tally, empty_tally, required_actions, append_unique, tally_classified, models_loop,
  decided, after_models, authorize_action,
}
use cynative.Aws.Covered.{Covered, In, Covered-mono, required-Covered, append_unique-In}

-- Every operation that `res` names is covered.
abbrev AllCovered :
    Registries → ServiceModel → (Str → Type 0) → Result ClassifyError (List Str) → Type 0
AllCovered reg model P res =
    (ops : List Str) → res ≡ ok ops → (op : Str) → Memᴰ op ops → Covered P (resolve reg model op)

-- A round of the loop from `t` to `t'`.
abbrev Grows : Tally → Tally → Type 0
Grows t t' = ((a : Str) → Memᴰ a t.required → Memᴰ a t'.required) × (t.matched ≤ t'.matched)

abbrev IsRound :
    Registries → ServiceModel → Result ClassifyError (List Str) → Tally → Tally → Type 0
IsRound reg model res t t' =
    Grows t t'
    × AllCovered reg model (In t'.required) res
    × (t.matched < t'.matched → (ops : List Str) × (res ≡ ok ops))

tally_classified-IsRound :
    (reg : Registries) (model : ServiceModel) (t t' : Tally) (res : Result ClassifyError (List Str))
    → tally_classified reg model t res ≡ ok t'
    → IsRound reg model res t t'
tally_classified-IsRound reg model t t' (err unknown_op) e =
    let q : t ≡ t' = cc e in
    subst (IsRound reg model (err unknown_op) t) q
      ((λ a m. m, omega arith), λ ops b. cc b, λ l. absurd (omega arith))
tally_classified-IsRound reg model t t' (err unsupported_protocol) e =
    let q : record t { unsupported = true } ≡ t' = cc e in
    subst (IsRound reg model (err unsupported_protocol) t) q
      ((λ a m. m, omega arith), λ ops b. cc b, λ l. absurd (omega arith))
tally_classified-IsRound reg model t t' (ok ops) e =
    let (acts, ea, e') = >>=-eq-ok (required_actions reg model ops) _ e in
    let q : record t { required = append_unique t.required acts; matched = t.matched + 1 } ≡ t' =
      cc e' in
    subst (IsRound reg model (ok ops) t) q (
      (λ a m. append_unique-In t.required acts a (inl m), omega arith),
      λ ops' b op m.
          Covered-mono (In acts) _ _ (λ a k. append_unique-In t.required acts a (inr k))
            (required-Covered reg model ops acts ea op (subst (Memᴰ op) (cc b) m)),
      λ l. (ops, refl),
    )

-- The model answers on the host's prefix and names operations for the request.
abbrev pub Serves : Request → ParsedHost → ServiceModel → List Str → Type 0
Serves r parsed model ops =
    (equal_fold model.endpoint_prefix parsed.service ≡ true)
    × (classify_operation model r parsed ≡ ok ops)

-- What the loop over the models has seen to, from `t` to `t'`.
abbrev IsSwept : Registries → Request → ParsedHost → List ServiceModel → Tally → Tally → Type 0
IsSwept reg r parsed models t t' =
    Grows t t'
    × ((model : ServiceModel)
        → Memᴰ model models
        → (ops : List Str) → Serves r parsed model ops
        → (op : Str) → Memᴰ op ops
        → Covered (In t'.required) (resolve reg model op))
    × (t.matched < t'.matched
        → (model : ServiceModel) × Memᴰ model models × (ops : List Str) × Serves r parsed model ops)

module _ (reg : Registries) (r : Request) (parsed : ParsedHost) where
  skip-IsSwept :
      (model : ServiceModel) (models : List ServiceModel) (t t' : Tally)
      → equal_fold model.endpoint_prefix parsed.service ≡ false
      → IsSwept reg r parsed models t t'
      → IsSwept reg r parsed (model ∷ models) t t'
  skip-IsSwept model models t t' b (g, c, k) = (
    g,
    λ m x ops s op y. elim (Memᴰ-cons x) [
      | inl e ↦ cc (s.0, subst (λ z. equal_fold z.endpoint_prefix parsed.service ≡ false) (sym e) b)
      | inr z ↦ c m z ops s op y
    ],
    λ l. let (m, x, ops, s) = k l in (m, Memᴰ.tail x, ops, s),
  )

  round-IsSwept :
      (model : ServiceModel) (models : List ServiceModel) (t u t' : Tally)
      → equal_fold model.endpoint_prefix parsed.service ≡ true
      → IsRound reg model (classify_operation model r parsed) t u
      → IsSwept reg r parsed models u t'
      → IsSwept reg r parsed (model ∷ models) t t'
  round-IsSwept model models t u t' b (g, c, k) (g', c', k') = (
    (λ a m. g'.0 a (g.0 a m), omega (arith, g.1, g'.1)),
    λ m x ops s op y. elim (Memᴰ-cons x) [
      | inl e ↦
          subst (λ z. Covered (In t'.required) (resolve reg z op)) (sym e)
            (Covered-mono (In u.required) _ _ g'.0
              (c ops (subst (λ z. classify_operation z r parsed ≡ ok ops) e s.1) op y))
      | inr z ↦ c' m z ops s op y
    ],
    λ l. elim (lt_or_le t.matched u.matched) [
      | inl h ↦ let (ops, s) = k h in (model, Memᴰ.head refl, ops, (b, s))
      | inr h ↦ let (m, x, ops, s) = k' (omega (arith, h, l)) in (m, Memᴰ.tail x, ops, s)
    ],
  )

  models_loop-IsSwept :
      (models : List ServiceModel) (t t' : Tally)
      → models_loop reg r parsed models t ≡ ok t'
      → IsSwept reg r parsed models t t'
  unfolding models_loop
  models_loop-IsSwept [] t t' e =
      let q : t ≡ t' = cc e in
      subst (IsSwept reg r parsed [] t) q
        ((λ a m. m, omega arith), λ m x. elim x [ ], λ l. absurd (omega arith))
  models_loop-IsSwept (model ∷ models) t t' e =
      elim (Bool-cases (equal_fold model.endpoint_prefix parsed.service)) [
        | inl b ↦
            let (u, eu, e') =
              >>=-eq-ok (tally_classified reg model t (classify_operation model r parsed)) _
                (rw b at e) in
            round-IsSwept model models t u t' b (tally_classified-IsRound reg model t u _ eu)
              (models_loop-IsSwept models u t' e')
        | inr b ↦ skip-IsSwept model models t t' b (models_loop-IsSwept models t t' (rw b at e))
      ]

module _ {C W : Type 0} (cache : Cache C) (iam : Iam W) (policy_version : Str) where
  decided-ok :
      (required : List Str) (out : Answer cache iam policy_version)
      → (decided cache iam policy_version required out).0 ≡ ok tt
      → out.0 ≡ ok true
  decided-ok required (err x, c, w) e = cc e
  decided-ok required (ok true, c, w) e = refl
  decided-ok required (ok false, c, w) e = cc e

  decided-Permits :
      (required : List Str) (c : C) (w : W)
      → Agrees cache iam policy_version c
      → (decided cache iam policy_version required
          (allowed_all cache iam policy_version required c w)).0
        ≡ ok tt
      → (a : Str) → Memᴰ a required
      → permits cache iam policy_version a ≡ true
  decided-Permits required c w h e a m =
      let (g, r) = allowed_all-IsRight cache iam policy_version required c w h in
      (all_iff (permits cache iam policy_version) required).0
        (sym (r true (decided-ok required _ e))) a m

  -- Some model serves the request, and for every one that does, every operation that the classifier
  -- names is covered by what the policy permits.
  abbrev pub IsPermitted : Registries → Request → ParsedHost → List ServiceModel → Type 0
  IsPermitted reg r parsed models =
      ((model : ServiceModel) × Memᴰ model models × (ops : List Str) × Serves r parsed model ops)
      × ((model : ServiceModel)
          → Memᴰ model models
          → (ops : List Str) → Serves r parsed model ops
          → (op : Str) → Memᴰ op ops
          → Covered (λ a. permits cache iam policy_version a ≡ true) (resolve reg model op))

  -- A request that the gate authorises, from a cache that agrees with the policy, matched some model
  -- on the host's prefix; and for every such model, every operation that the classifier names is
  -- pinned as needing no permission, or resolves to actions that the policy permits, all of them.
  pub authorize_action-IsPermitted :
      (reg : Registries) (r : Request) (parsed : ParsedHost) (models : List ServiceModel) (c : C)
      (w : W)
      → Agrees cache iam policy_version c
      → (authorize_action cache iam policy_version reg r parsed models c w).0 ≡ ok tt
      → IsPermitted reg r parsed models
  unfolding authorize_action
  authorize_action-IsPermitted reg r parsed models c w h e =
      finish (models_loop reg r parsed models empty_tally) refl e
    where
      finish :
          (res : Result GateError Tally)
          → models_loop reg r parsed models empty_tally ≡ res
          → (after_models cache iam policy_version c w res).0 ≡ ok tt
          → IsPermitted reg r parsed models
      finish (err x) q e = cc e
      finish (ok t) q e =
          let (g, s, k) = models_loop-IsSwept reg r parsed models empty_tally t q in
          elim (Bool-cases (t.matched == 0)) [
            | inl z ↦ cc (rw z at e)
            | inr z ↦ (
              k (ground arith),
              λ model m ops v op y.
                  Covered-mono (In t.required) _ _ (decided-Permits t.required c w h (rw z at e))
                    (s model m ops v op y),
            )
          ]
