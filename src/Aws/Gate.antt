-- ===== src/Aws/Gate.antt =====
-- internal/auth/aws/provider.go: `AuthorizeAction` from the parsed host and the models of its service
-- on. Parsing the arguments and the host, and the archive of models, come before it.
use cynative.Base.{
  ℕ, ◌+◌, ◌==◌, Bool, true, false, if◌then◌else◌, Str, List, [], ◌∷◌, ◌++◌, contains, equal_fold,
  Result, ok, err, ◌>>=◌,
}
use cynative.Aws.Model.{ServiceModel, ParsedHost}
use cynative.Aws.Rest.{Request}
use cynative.Aws.Protocols.{ClassifyError, unknown_op, unsupported_protocol, classify_operation}
use cynative.Aws.Actions.{
  source_none, source_service_ref, source_iam_dataset, source_derived, source_permissionless,
  Registries, Resolution, resolve,
}
use cynative.Aws.Evaluator.{Cache, Iam, EvalError, Answer, allowed_all}

-- `unmatched` is an `UnmatchedRequestError`, `no_candidate` the bare error in its place
pub data GateError : Type 0 where
  unmatched no_candidate : GateError
  action_unresolved : Str → Str → GateError
  policy_unavailable : EvalError → GateError
  policy_denied : List Str → GateError

-- the body of the loop of `requiredActions`: the actions that one operation adds
abbrev pub needed : Str → Str → Resolution → Result GateError (List Str)
needed dir op (actions, source_permissionless) = ok []
needed dir op (actions, source_none) = err (action_unresolved dir op)
needed dir op ([], source_service_ref) = err (action_unresolved dir op)
needed dir op (a ∷ actions, source_service_ref) = ok (a ∷ actions)
needed dir op ([], source_iam_dataset) = err (action_unresolved dir op)
needed dir op (a ∷ actions, source_iam_dataset) = ok (a ∷ actions)
needed dir op ([], source_derived) = err (action_unresolved dir op)
needed dir op (a ∷ actions, source_derived) = ok (a ∷ actions)

-- `requiredActions`
unfoldable pub required_actions : Registries → ServiceModel → List Str → Result GateError (List Str)
unfolding resolve
required_actions reg model [] = ok []
required_actions reg model (op ∷ ops) = needed model.dir op (resolve reg model op) >>= λ actions.
    required_actions reg model ops >>= λ rest. ok (actions ++ rest)

-- `appendUnique`
unfoldable pub append_unique : List Str → List Str → List Str
unfolding contains
append_unique required [] = required
append_unique required (a ∷ actions) =
    append_unique (if contains required a then required else required ++ a ∷ []) actions

-- the variables of the loop of `AuthorizeAction`
pub record Tally : Type 0 where
  pub required : List Str
  pub matched : ℕ
  pub unsupported : Bool

abbrev pub empty_tally : Tally
empty_tally = record { required = []; matched = 0; unsupported = false }

-- the part of its body after the test of the prefix
abbrev pub tally_classified :
    Registries → ServiceModel → Tally → Result ClassifyError (List Str) → Result GateError Tally
tally_classified reg model t (err unknown_op) = ok t
tally_classified reg model t (err unsupported_protocol) = ok (record t { unsupported = true })
tally_classified reg model t (ok ops) = required_actions reg model ops >>= λ actions.
    ok (record t { required = append_unique t.required actions; matched = t.matched + 1 })

-- the loop over the models
unfoldable pub models_loop :
    Registries → Request → ParsedHost → List ServiceModel → Tally → Result GateError Tally
unfolding required_actions append_unique classify_operation equal_fold
models_loop reg r parsed [] t = ok t
models_loop reg r parsed (model ∷ models) t =
    if equal_fold model.endpoint_prefix parsed.service
    then (tally_classified reg model t (classify_operation model r parsed) >>= λ t'.
        models_loop reg r parsed models t')
    else models_loop reg r parsed models t

module _ {C W : Type 0} (cache : Cache C) (iam : Iam W) (policy_version : Str) where
  abbrev pub decided :
      List Str → Answer cache iam policy_version → Result GateError (Unit {0}) × C × W
  decided required (err e, c, w) = (err (policy_unavailable e), c, w)
  decided required (ok true, c, w) = (ok tt, c, w)
  decided required (ok false, c, w) = (err (policy_denied required), c, w)

  abbrev pub after_models : C → W → Result GateError Tally → Result GateError (Unit {0}) × C × W
  after_models c w (err e) = (err e, c, w)
  after_models c w (ok t) =
      if t.matched == 0
      then (err (if t.unsupported then no_candidate else unmatched), c, w)
      else decided t.required (allowed_all cache iam policy_version t.required c w)

  -- `AuthorizeAction`
  unfoldable pub authorize_action :
      Registries
      → Request
      → ParsedHost
      → List ServiceModel
      → C
      → W
      → Result GateError (Unit {0}) × C × W
  unfolding models_loop allowed_all
  authorize_action reg r parsed models c w =
      after_models c w (models_loop reg r parsed models empty_tally)
