-- ===== src/Verify/Nested.antt =====
-- The walk never takes a frame off an empty stack while the delimiters are properly nested.
use cynative.Base.{
  ℕ, zero, suc, ◌≡◌, ◌≢◌, refl, ◌⊎◌, inl, inr, none, some, List, [], ◌∷◌, Str, length, contains,
  Bool-cases,
}
use cynative.Verify.Walk.{
  Token, open_object, close_object, open_array, close_array, scalar, text, End, eof, broken,
  Verdict, duplicate, panics, Stack, StepResult, halts, goes_on, after_value, fresh_frame, key_of,
  next_of, pop, step_delim, step_value, step, walk, ensure_no_duplicate_keys,
}

-- After `depth` open scopes, the tokens close no more than are open.
abbrev pub IsNested : ℕ → List Token → Type 0
IsNested depth [] = Unit
IsNested depth (open_object ∷ ts) = IsNested (suc depth) ts
IsNested depth (open_array ∷ ts) = IsNested (suc depth) ts
IsNested zero (close_object ∷ ts) = ⊥
IsNested (suc depth) (close_object ∷ ts) = IsNested depth ts
IsNested zero (close_array ∷ ts) = ⊥
IsNested (suc depth) (close_array ∷ ts) = IsNested depth ts
IsNested depth (scalar ∷ ts) = IsNested depth ts
IsNested depth (text s ∷ ts) = IsNested depth ts

length-after : (st : Stack) → length (after_value st) ≡ length st
unfolding after_value
length-after [] = refl
length-after (none ∷ st) = refl
length-after (some f ∷ st) = refl

module _ (lower : Str → Str) where
  -- A step past a value keeps the scopes, or finds a key again.
  Keeps : Stack → StepResult → Type 0
  Keeps st o =
      (o ≡ halts duplicate) ⊎ ((st' : Stack) × (o ≡ goes_on st') × (length st' ≡ length st))

  step_value-Keeps : (st : Stack) (t : Token) → Keeps st (step_value lower st t)
  unfolding step_value Keeps after_value
  step_value-Keeps [] t = inr ([], refl, refl)
  step_value-Keeps (none ∷ st) t = inr (none ∷ st, refl, refl)
  step_value-Keeps (some f ∷ st) t = elim (Bool-cases f.expect_key) [
    | inr e ↦ rw e (inr (after_value (some f ∷ st), refl, refl))
    | inl e ↦ elim (Bool-cases (contains f.seen (lower (key_of t)))) [
      | inl c ↦ rw (e, c) (inl refl)
      | inr c ↦ rw (e, c) (inr (_, refl, refl))
    ]
  ]

  halts-on :
      (o : StepResult) (st : Stack) {k : Stack → Verdict}
      → Keeps st o
      → ((st' : Stack) → length st' ≡ length st → k st' ≢ panics)
      → next_of o k ≢ panics
  unfolding Keeps
  halts-on o st c h = elim c [
    | inl e ↦ rw e (λ q. cc)
    | inr x ↦ let (st', e, l) = x in rw e (h st' l)
  ]

  walk-nested :
      (ts : List Token) (e : End) (st : Stack)
      → IsNested (length st) ts
      → walk lower ts e st ≢ panics
  unfolding walk step step_delim pop
  walk-nested [] eof st h = λ q. cc
  walk-nested [] (broken e) st h = λ q. cc
  walk-nested (open_object ∷ ts) e st h =
      walk-nested ts e (some fresh_frame ∷ after_value st) (rw (length-after st) h)
  walk-nested (open_array ∷ ts) e st h =
      walk-nested ts e (none ∷ after_value st) (rw (length-after st) h)
  walk-nested (close_object ∷ ts) e [] h = absurd h
  walk-nested (close_object ∷ ts) e (f ∷ st) h = walk-nested ts e st h
  walk-nested (close_array ∷ ts) e [] h = absurd h
  walk-nested (close_array ∷ ts) e (f ∷ st) h = walk-nested ts e st h
  walk-nested (scalar ∷ ts) e st h =
      halts-on _ st (step_value-Keeps st scalar) (λ st' l. walk-nested ts e st' (rw l h))
  walk-nested (text s ∷ ts) e st h =
      halts-on _ st (step_value-Keeps st (text s)) (λ st' l. walk-nested ts e st' (rw l h))

  pub ensure-nested :
      (ts : List Token) (e : End) → IsNested 0 ts → ensure_no_duplicate_keys lower ts e ≢ panics
  unfolding ensure_no_duplicate_keys
  ensure-nested ts e h = walk-nested ts e [] h
