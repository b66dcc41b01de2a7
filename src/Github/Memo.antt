-- ===== src/Github/Memo.antt =====
-- The memo of `matcher` is sound, so the walk with it decides `Matches`.
use cynative.Base.{
  ℕ, ◌+◌, ◌-◌, Str, ◌≡◌, refl, sym, ◌≢◌, ◌↔◌, ◌⊎◌, inl, inr, subst, Bool, true, false, ◌&&◌,
  if◌then◌else◌, List, [], ◌∷◌, ◌==◌, ==_iff, any, length, arith, Bool-cases,
}
use cynative.Github.Table.{Table, is_multi_segment}
use cynative.Github.Match.{is_empty, fits, Memo, has_failed, record_failure, key, match}
use cynative.Github.Matching.{
  Matches, done, one, rest, last, more, key_unique, IsSuffix, IsSuffix-tail, IsSuffix-length,
  IsSuffix-unique,
}

module _ (t : Table) (tmpl req : List Str) where
  abbrev key_of : List Str → List Str → ℕ
  key_of = key t (length tmpl) (length req)

  -- A state that the memo holds does not match.
  abbrev IsSound : Memo → Type 0
  IsSound memo =
      (ts rs : List Str)
      → IsSuffix ts tmpl
      → IsSuffix rs req
      → has_failed (key_of ts rs) memo ≡ true
      → ¬ Matches t ts rs

  -- An answer with its memo.
  abbrev Decides : List Str → List Str → Bool × Memo → Type 0
  Decides ts rs p = ((p.0 ≡ true) ↔ Matches t ts rs) × IsSound p.1

  keys_determine :
      (ts rs ts' rs' : List Str)
      → IsSuffix ts tmpl
      → IsSuffix rs req
      → IsSuffix ts' tmpl
      → IsSuffix rs' req
      → key_of ts rs ≡ key_of ts' rs'
      → (ts ≡ ts') × (rs ≡ rs')
  keys_determine ts rs ts' rs' s r s' r' e =
      let lt = IsSuffix-length ts tmpl s in
      let lr = IsSuffix-length rs req r in
      let lt' = IsSuffix-length ts' tmpl s' in
      let lr' = IsSuffix-length rs' req r' in
      let (a, b) =
        key_unique (length req + 1) (length tmpl - length ts) (length req - length rs)
          (length tmpl - length ts') (length req - length rs') (omega arith) (omega arith) e in
      (
        IsSuffix-unique ts ts' tmpl s s' (omega arith),
        IsSuffix-unique rs rs' req r r' (omega arith),
      )

  IsSound-cons :
      (ts rs : List Str) (memo : Memo)
      → IsSuffix ts tmpl
      → IsSuffix rs req
      → IsSound memo
      → ¬ Matches t ts rs
      → IsSound (key_of ts rs ∷ memo)
  unfolding has_failed any
  IsSound-cons ts rs memo s r ok n ts' rs' s' r' h m =
      elim (Bool-cases (key_of ts rs == key_of ts' rs')) [
        | inl e ↦
            let (a, b) = keys_determine ts rs ts' rs' s r s' r' ((==_iff _ _).0 e) in
            n (subst (λ k. Matches t ts k) (sym b) (subst (λ k. Matches t k rs') (sym a) m))
        | inr e ↦ ok ts' rs' s' r' (rw e at h) m
      ]

  record_failure-Decides :
      (ts rs : List Str) (p : Bool × Memo)
      → IsSuffix ts tmpl
      → IsSuffix rs req
      → Decides ts rs p
      → Decides ts rs (record_failure (key_of ts rs) p)
  unfolding record_failure
  record_failure-Decides ts rs (true, memo) s r d = d
  record_failure-Decides ts rs (false, memo) s r (e, ok) =
      (e, IsSound-cons ts rs memo s r ok (λ m. cc (e.1 m)))

-- What a template matches, read off its first segment.
module _ (t : Table) where
  pub nil_inv : {x : Str} {rs : List Str} → ¬ Matches t [] (x ∷ rs)
  nil_inv m = elim m [ ]

  end_inv :
      {seg : Str} {ts : List Str}
      → Matches t (seg ∷ ts) []
      → (is_multi_segment t seg ≡ true) × (ts ≡ [])
  end_inv (rest h e) = (h, e)

  pub single_inv :
      {seg x : Str} {ts rs : List Str}
      → is_multi_segment t seg ≡ false
      → Matches t (seg ∷ ts) (x ∷ rs)
      → (fits seg x ≡ true) × Matches t ts rs
  single_inv e (one h f m) = (f, m)
  single_inv e (rest h _) = cc
  single_inv e (last h _) = cc
  single_inv e (more h _) = cc

  multi_inv :
      {seg x : Str} {ts rs : List Str}
      → is_multi_segment t seg ≡ true
      → ts ≢ []
      → Matches t (seg ∷ ts) (x ∷ rs)
      → Matches t ts rs ⊎ Matches t (seg ∷ ts) rs
  multi_inv e n (one h f m) = cc
  multi_inv e n (rest h z) = absurd (n z)
  multi_inv e n (last h m) = inl m
  multi_inv e n (more h m) = inr m

  Matches-nil_iff : (rs : List Str) → (is_empty rs ≡ true) ↔ Matches t [] rs
  Matches-nil_iff [] = (λ _. done, λ _. refl)
  Matches-nil_iff (x ∷ rs) = (λ h. cc h, λ m. absurd (nil_inv m))

  Matches-end_iff :
      (seg : Str) (ts : List Str)
      → ((is_multi_segment t seg && is_empty ts) ≡ true) ↔ Matches t (seg ∷ ts) []
  Matches-end_iff seg ts =
      (λ h. rest (ground arith) (ground arith), λ m. let (a, b) = end_inv m in rw (a, b))

module _ (t : Table) (tmpl req : List Str) where
  -- The answer for one segment against one segment, from the answers to the two calls.
  step_iff :
      (seg x : Str) (ts rs : List Str) (after : Bool × Memo) (again : Bool × Memo) (memo : Memo)
      → IsSound t tmpl req memo
      → Decides t tmpl req ts rs after
      → Decides t tmpl req (seg ∷ ts) rs again
      → Decides t tmpl req (seg ∷ ts) (x ∷ rs) (
          if is_multi_segment t seg
          then if is_empty ts then (true, memo) else if after.0 then (true, after.1) else again
          else if fits seg x
          then after
          else (false, memo))
  step_iff seg x ts rs after again memo ok a b = elim (Bool-cases (is_multi_segment t seg)) [
    | inl e ↦ rw e (multi ts a b e)
    | inr e ↦ rw e (elim (Bool-cases (fits seg x)) [
      | inl f ↦ rw f ((λ h. one e f (a.0.0 h), λ m. a.0.1 (single_inv t e m).1), a.1)
      | inr f ↦ rw f ((λ h. cc h, λ m. cc ((single_inv t e m).0)), ok)
    ])
  ]
    where
      multi :
          (ts : List Str)
          → Decides t tmpl req ts rs after
          → Decides t tmpl req (seg ∷ ts) rs again
          → is_multi_segment t seg ≡ true
          → Decides t tmpl req
              (seg ∷ ts)
              (x ∷ rs)
              (if is_empty ts then (true, memo) else if after.0 then (true, after.1) else again)
      multi [] a b e = ((λ _. rest e refl, λ _. refl), ok)
      multi (y ∷ ys) a b e = elim (Bool-cases after.0) [
        | inl h ↦ rw h ((λ _. last e (a.0.0 h), λ _. refl), a.1)
        | inr h ↦ rw h (
          (
            λ k. more e (b.0.0 k),
            λ m. elim (multi_inv t e (λ z. cc z) m) [
              | inl now ↦ cc (a.0.1 now)
              | inr later ↦ b.0.1 later
            ],
          ),
          b.1,
        )
      ]

  known_failure :
      (ts rs : List Str) (memo : Memo) (p : Bool × Memo)
      → IsSuffix ts tmpl
      → IsSuffix rs req
      → IsSound t tmpl req memo
      → Decides t tmpl req ts rs p
      → Decides t tmpl req ts rs (
          if has_failed (key_of t tmpl req ts rs) memo
          then (false, memo)
          else record_failure (key_of t tmpl req ts rs) p)
  known_failure ts rs memo p s r ok d =
      elim (Bool-cases (has_failed (key_of t tmpl req ts rs) memo)) [
        | inl e ↦ rw e ((λ h. cc h, λ m. absurd (ok ts rs s r e m)), ok)
        | inr e ↦ rw e (record_failure-Decides t tmpl req ts rs p s r d)
      ]

  match-Decides :
      (ts rs : List Str) (memo : Memo)
      → IsSuffix ts tmpl
      → IsSuffix rs req
      → IsSound t tmpl req memo
      → Decides t tmpl req ts rs (match t (length tmpl) (length req) ts rs memo)
  unfolding match
  match-Decides [] rs memo s r ok = (Matches-nil_iff t rs, ok)
  match-Decides (seg ∷ ts) [] memo s r ok =
      known_failure (seg ∷ ts) [] memo _ s r ok (Matches-end_iff t seg ts, ok)
  match-Decides (seg ∷ ts) (x ∷ rs) memo s r ok =
      let s' = IsSuffix-tail seg ts tmpl s in
      let r' = IsSuffix-tail x rs req r in
      let a = match-Decides ts rs memo s' r' ok in
      let b =
        match-Decides (seg ∷ ts) rs (match t (length tmpl) (length req) ts rs memo).1 s r' a.1 in
      known_failure (seg ∷ ts) (x ∷ rs) memo _ s r ok (step_iff seg x ts rs _ _ memo ok a b)

-- The walk from the start, with an empty memo.
pub match_iff :
    (t : Table) (tmpl req : List Str)
    → ((match t (length tmpl) (length req) tmpl req []).0 ≡ true) ↔ Matches t tmpl req
unfolding has_failed any
match_iff t tmpl req =
    (match-Decides t tmpl req tmpl req [] ([], refl) ([], refl) (λ ts rs s r h m. cc h)).0
