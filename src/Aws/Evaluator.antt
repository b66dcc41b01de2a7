-- ===== src/Aws/Evaluator.antt =====
-- internal/auth/aws/policy_eval.go: the evaluator, which asks IAM and keeps the decisions. The cache of
-- package lru and IAM are given, each as a record of what the evaluator calls and what it relies on.
use cynative.Base.{
  ◌≡◌, ◌⊎◌, Bool, true, false, Str, codes, List, [], ◌∷◌, ◌++◌, Option, none, some, str_eq, Result,
  ok, err,
}

-- `lru.Cache`: `get` may move the entry it finds, `add` may evict others, and neither changes what a
-- key that stays holds.
pub record Cache (C : Type 0) : Type 0 where
  pub get : C → Str → Option Bool × C
  pub add : C → Str → Bool → C
  pub holds : C → Str → Option Bool
  pub get-holds : (c : C) (k : Str) → (get c k).0 ≡ holds c k
  pub get-keeps : (c : C) (k k' : Str) → holds (get c k).1 k' ≡ holds c k'
  pub add-holds :
      (c : C) (k : Str) (b : Bool) (k' : Str) (v : Bool)
      → holds (add c k b) k' ≡ some v
      → ((k' ≡ k) × (v ≡ b)) ⊎ (holds c k' ≡ some v)

-- `iam:SimulateCustomPolicy` for the evaluator's document and one action: an error, or the decisions.
-- It may fail at any time, but a decision depends on the action alone.
pub record Iam (W : Type 0) : Type 0 where
  pub simulate : W → Str → Result Str (List Str) × W
  pub decision : Str → Str
  pub decides :
      (w : W) (a d : Str) (ds : List Str) → (simulate w a).0 ≡ ok (d ∷ ds) → d ≡ decision a

-- the errors under `ErrPolicyEvalFailed`
pub data EvalError : Type 0 where
  call_failed : Str → EvalError
  empty_result : EvalError

-- `PolicyEvaluationDecisionTypeAllowed`
abbrev pub decision_allowed : Str
decision_allowed = codes "allowed"

unfoldable pub read_decision : Result Str (List Str) → Result EvalError Bool
unfolding str_eq
read_decision (err e) = err (call_failed e)
read_decision (ok []) = err empty_result
read_decision (ok (d ∷ ds)) = ok (str_eq d decision_allowed)

-- the key of an action
unfoldable pub key_of : Str → Str → Str
key_of policy_version action = policy_version ++ b'|' ∷ action

module _ {C W : Type 0} (cache : Cache C) (iam : Iam W) (policy_version : Str) where
  -- What a call returns, and the cache and the world after it.
  abbrev pub Answer : Type 0
  Answer = Result EvalError Bool × C × W

  -- the rest of a round of the loop, from what IAM answered; `rest` is the loop on the other actions
  abbrev pub take_decision : Str → C → W → Result EvalError Bool → (C → W → Answer) → Answer
  take_decision action c w (err e) rest = (err e, c, w)
  take_decision action c w (ok true) rest = rest (cache.add c (key_of policy_version action) true) w
  take_decision action c w (ok false) rest =
      (ok false, cache.add c (key_of policy_version action) false, w)

  abbrev pub take_cached : Str → C → W → Option Bool → (C → W → Answer) → Answer
  take_cached action c w (some true) rest = rest c w
  take_cached action c w (some false) rest = (ok false, c, w)
  take_cached action c w none rest =
      let out = iam.simulate w action in take_decision action c out.1 (read_decision out.0) rest

  -- `AllowedAll`
  unfoldable pub allowed_all : List Str → C → W → Answer
  unfolding read_decision key_of
  allowed_all [] c w = (ok true, c, w)
  allowed_all (action ∷ actions) c w =
      let found = cache.get c (key_of policy_version action) in
      take_cached action found.1 w found.0 (allowed_all actions)

  -- The results of calls in a row.
  unfoldable pub ask : List (List Str) → C → W → List (Result EvalError Bool)
  unfolding allowed_all
  ask [] c w = []
  ask (actions ∷ questions) c w =
      let out = allowed_all actions c w in out.0 ∷ ask questions out.1 out.2
