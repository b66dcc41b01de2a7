-- ===== src/Aws/Refined.antt =====
-- The evaluator with its cache answers as the policy itself does.
use cynative.Base.{
  ◌≡◌, refl, sym, ◌∙◌, ap, ap₂, inl, inr, Bool, true, false, Str, List, [], ◌∷◌, map, all, Option,
  none, some, str_eq, Result, ok, err,
}
use cynative.Aws.Evaluator.{
  Cache, Iam, EvalError, decision_allowed, read_decision, key_of, Answer, take_decision,
  take_cached, allowed_all, ask,
}

key_of-injective : (p a b : Str) → key_of p a ≡ key_of p b → a ≡ b
unfolding key_of
key_of-injective [] a b e = cc e
key_of-injective (c ∷ p) a b e = key_of-injective p a b (cc e)

module _ {C W : Type 0} (cache : Cache C) (iam : Iam W) (policy_version : Str) where
  -- The policy's own answer.
  unfoldable pub permits : Str → Bool
  unfolding str_eq
  permits a = str_eq (iam.decision a) decision_allowed

  -- What the cache holds is what the policy says.
  abbrev pub Agrees : C → Type 0
  Agrees c =
      (a : Str) → (b : Bool) → cache.holds c (key_of policy_version a) ≡ some b → b ≡ permits a

  abbrev pub IsRight : List Str → Answer cache iam policy_version → Type 0
  IsRight actions out = Agrees out.1 × ((b : Bool) → out.0 ≡ ok b → b ≡ all permits actions)

  add-Agrees :
      (c : C) (a : Str) (b : Bool)
      → Agrees c
      → b ≡ permits a
      → Agrees (cache.add c (key_of policy_version a) b)
  add-Agrees c a b h e a' v q =
      elim (cache.add-holds c (key_of policy_version a) b (key_of policy_version a') v q) [
        | inl x ↦ x.1 ∙ e ∙ ap permits (sym (key_of-injective policy_version a' a x.0))
        | inr x ↦ h a' v x
      ]

  read_case :
      (a : Str) (r : Result Str (List Str)) (b : Bool)
      → ((d : Str) → (ds : List Str) → r ≡ ok (d ∷ ds) → d ≡ iam.decision a)
      → read_decision r ≡ ok b
      → b ≡ permits a
  unfolding read_decision permits
  read_case a (err e) b h q = cc
  read_case a (ok []) b h q = cc
  read_case a (ok (d ∷ ds)) b h q = sym (cc q) ∙ ap (λ x. str_eq x decision_allowed) (h d ds refl)

  take_decision-IsRight :
      (a : Str) (actions : List Str) (c : C) (w : W) (r : Result EvalError Bool)
      (rest : C → W → Answer cache iam policy_version)
      → ((b : Bool) → r ≡ ok b → b ≡ permits a)
      → Agrees c
      → ((c' : C) → (w' : W) → Agrees c' → IsRight actions (rest c' w'))
      → IsRight (a ∷ actions) (take_decision cache iam policy_version a c w r rest)
  unfolding all
  take_decision-IsRight a actions c w (err e) rest p h k = (h, λ b q. cc)
  take_decision-IsRight a actions c w (ok true) rest p h k =
      let (g, f) = k _ w (add-Agrees c a true h (p true refl)) in (g, rw (sym (p true refl)) f)
  take_decision-IsRight a actions c w (ok false) rest p h k =
      (add-Agrees c a false h (p false refl), rw (sym (p false refl)) (λ b q. sym (cc q)))

  take_cached-IsRight :
      (a : Str) (actions : List Str) (c : C) (w : W) (o : Option Bool)
      (rest : C → W → Answer cache iam policy_version)
      → ((b : Bool) → o ≡ some b → b ≡ permits a)
      → Agrees c
      → ((c' : C) → (w' : W) → Agrees c' → IsRight actions (rest c' w'))
      → IsRight (a ∷ actions) (take_cached cache iam policy_version a c w o rest)
  unfolding all
  take_cached-IsRight a actions c w (some true) rest p h k = rw (sym (p true refl)) (k c w h)
  take_cached-IsRight a actions c w (some false) rest p h k =
      (h, rw (sym (p false refl)) (λ b q. sym (cc q)))
  take_cached-IsRight a actions c w none rest p h k =
      let out = iam.simulate w a in
      take_decision-IsRight a actions c out.1 (read_decision out.0) rest
        (λ b. read_case a out.0 b (iam.decides w a)) h k

  get-Agrees : (c : C) (k : Str) → Agrees c → Agrees (cache.get c k).1
  get-Agrees c k h a b q = h a b (sym (cache.get-keeps c k (key_of policy_version a)) ∙ q)

  pub allowed_all-IsRight :
      (actions : List Str) (c : C) (w : W)
      → Agrees c
      → IsRight actions (allowed_all cache iam policy_version actions c w)
  unfolding allowed_all all
  allowed_all-IsRight [] c w h = (h, λ b q. sym (cc q))
  allowed_all-IsRight (a ∷ actions) c w h =
      let k = key_of policy_version a in
      take_cached-IsRight a actions (cache.get c k).1 w (cache.get c k).0 _
        (λ b q. h a b (sym (cache.get-holds c k) ∙ q)) (get-Agrees c k h)
        (λ c' w' h'. allowed_all-IsRight actions c' w' h')

  -- IAM answers every call with a decision.
  abbrev pub IsReliable : Type 0
  IsReliable =
      (w : W) → (a : Str) → (d : Str) × (ds : List Str) × ((iam.simulate w a).0 ≡ ok (d ∷ ds))

  abbrev Answers : Result EvalError Bool → Type 0
  Answers r = (b : Bool) × (r ≡ ok b)

  take_decision-Answers :
      (a : Str) (c : C) (w : W) (r : Result EvalError Bool)
      (rest : C → W → Answer cache iam policy_version)
      → Answers r
      → ((c' : C) → (w' : W) → Answers (rest c' w').0)
      → Answers (take_decision cache iam policy_version a c w r rest).0
  take_decision-Answers a c w (err e) rest p k = cc (p.1)
  take_decision-Answers a c w (ok true) rest p k = k _ w
  take_decision-Answers a c w (ok false) rest p k = (false, refl)

  read-Answers : IsReliable → (a : Str) (w : W) → Answers (read_decision (iam.simulate w a).0)
  unfolding read_decision
  read-Answers f a w = let (d, ds, e) = f w a in rw e (_, refl)

  cached-Answers :
      IsReliable
      → (a : Str) (c : C) (w : W) (o : Option Bool) (rest : C → W → Answer cache iam policy_version)
      → ((c' : C) → (w' : W) → Answers (rest c' w').0)
      → Answers (take_cached cache iam policy_version a c w o rest).0
  cached-Answers f a c w (some true) rest k = k c w
  cached-Answers f a c w (some false) rest k = (false, refl)
  cached-Answers f a c w none rest k = take_decision-Answers a c _ _ rest (read-Answers f a w) k

  allowed_all-Answers :
      IsReliable
      → (actions : List Str) (c : C) (w : W)
      → Answers (allowed_all cache iam policy_version actions c w).0
  unfolding allowed_all
  allowed_all-Answers f [] c w = (true, refl)
  allowed_all-Answers f (a ∷ actions) c w =
      cached-Answers f a _ w (cache.get c (key_of policy_version a)).0 _
        (λ c' w'. allowed_all-Answers f actions c' w')

  ask-exact :
      IsReliable
      → (questions : List (List Str)) (c : C) (w : W) → Agrees c
      → ask cache iam policy_version questions c w ≡ map (λ q. ok (all permits q)) questions
  unfolding ask
  ask-exact f [] c w h = refl
  ask-exact f (q ∷ questions) c w h =
      let (g, r) = allowed_all-IsRight q c w h in
      let (b, e) = allowed_all-Answers f q c w in
      ap₂ (λ x xs. x ∷ xs) (e ∙ ap ok (r b e)) (ask-exact f questions _ _ g)

  -- While IAM answers every call, and its decisions depend on the action alone, any calls of the
  -- evaluator in a row, from a cache that holds nothing, return what the policy itself says of each
  -- list of actions: whatever the cache keeps, drops or forgets in between cannot be seen.
  pub ask-refines :
      (c : C) (w : W)
      → ((k : Str) → cache.holds c k ≡ none)
      → IsReliable
      → (questions : List (List Str))
      → ask cache iam policy_version questions c w ≡ map (λ q. ok (all permits q)) questions
  ask-refines c w h f questions =
      ask-exact f questions c w (λ a b q. cc (h (key_of policy_version a), q))

  -- Each result that is no error is the policy's.
  abbrev pub IsSound : List (List Str) → List (Result EvalError Bool) → Type 0
  IsSound [] [] = Unit
  IsSound [] (r ∷ rs) = ⊥
  IsSound (q ∷ qs) [] = ⊥
  IsSound (q ∷ qs) (r ∷ rs) = ((b : Bool) → r ≡ ok b → b ≡ all permits q) × IsSound qs rs

  ask-each :
      (questions : List (List Str)) (c : C) (w : W)
      → Agrees c
      → IsSound questions (ask cache iam policy_version questions c w)
  unfolding ask
  ask-each [] c w h = tt
  ask-each (q ∷ questions) c w h =
      let (g, r) = allowed_all-IsRight q c w h in (r, ask-each questions _ _ g)

  -- Whenever IAM fails, for any calls of the evaluator in a row from a cache that holds nothing, each
  -- call that returns no error returns what the policy itself says: an error is never kept as a
  -- decision.
  pub ask-IsSound :
      (c : C) (w : W)
      → ((k : Str) → cache.holds c k ≡ none)
      → (questions : List (List Str))
      → IsSound questions (ask cache iam policy_version questions c w)
  ask-IsSound c w h questions =
      ask-each questions c w (λ a b q. cc (h (key_of policy_version a), q))
