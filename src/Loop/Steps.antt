-- ===== src/Loop/Steps.antt =====
-- internal/agent/loop.go and failure_summary.go: the constants and the calls of a run.
use cynative.Base.{
  ℕ, ltb, Bool, true, false, if◌then◌else◌, Str, codes, List, [], ◌∷◌, Option, none, some, Result,
  ok, err,
}
use cynative.Loop.Messages.{ToolCall, Message}
use cynative.Loop.Act.{
  RunError, interrupted, budget_exceeded, context_ended, audit_failed, Generation, CallOutcome, Env,
  RunState, Event, asks, runs, Act, pure, fail, and_then,
}

abbrev pub stop_length : Str
stop_length = codes "length"

abbrev pub stop_content_filter : Str
stop_content_filter = codes "content_filter"

abbrev pub stop_other : Str
stop_other = codes "other"

abbrev pub max_consecutive_empty : ℕ
max_consecutive_empty = 3

abbrev pub max_consecutive_truncated : ℕ
max_consecutive_truncated = 3

-- `creditedFailures`
unfoldable pub credited_failures : CallOutcome → ℕ
credited_failures oc =
    if ltb 0 oc.progress
    then 0
    else (if ltb 0 oc.failures then oc.failures else (if oc.is_ok then 0 else 1))

-- The directives and the notice are texts, of which only the last is read.
abbrev pub empty_turn_directive : Str
empty_turn_directive =
    codes
      "Your previous response was empty: it contained neither text nor a tool call. Continue the investigation with a tool call, or give your final answer as text."

abbrev pub truncated_calls_directive : Str
truncated_calls_directive =
    codes
      "Your previous response hit the output limit midway through writing tool calls, so none of them were run. Re-issue the work in smaller steps: shorter arguments, or fewer tool calls per turn."

abbrev pub stop_summary_directive : Str
stop_summary_directive =
    codes
      "You have stopped because you hit several consecutive tool failures and appear to be stuck. Do NOT call any more tools. In 2-4 sentences for the operator: (1) the wall you hit, (2) the specific input, credential, or decision you need to proceed, and (3) a concrete recommended next step they can confirm with \"yes\" or by supplying the value. Be direct; do not apologize at length."

abbrev pub deterministic_failure_notice : Str
deterministic_failure_notice =
    codes
      "I stopped after repeated tool failures and could not summarize the cause. Please check the required inputs (e.g. an account/project ID, region, or credentials) and tell me how to proceed."

-- What `acceptTurn` makes of a turn: the final answer, or the transcript and the calls to dispatch.
pub data Accepted : Type 0 where
  answers : Str → RunState → Accepted
  dispatches : List Message → List ToolCall → RunState → Accepted

-- What a dispatch leaves; `halt` is the answer that ends the run, if it is not empty.
pub record Tracked : Type 0 where
  pub halt : Str
  pub turn : List Message
  pub state : RunState

module _ {W : Type 0} (env : Env W) where
  abbrev pub when_over :
      Bool × W
      → (W → List Event × Result RunError (Unit {0}) × W)
      → RunError
      → List Event × Result RunError (Unit {0}) × W
  when_over (true, w) rest e = ([], err e, w)
  when_over (false, w) rest e = rest w

  -- the tests of `interrupted`, of the budget and of the context, each an error if it holds
  unfoldable pub check_interrupted : Act W (Unit {0})
  check_interrupted w = when_over (env.interrupted_now w) (pure tt) interrupted

  unfoldable pub check_budget : Act W (Unit {0})
  check_budget w = when_over (env.budget_exceeded_now w) (pure tt) budget_exceeded

  abbrev pub context_answer : Option Str × W → List Event × Result RunError (Unit {0}) × W
  context_answer (none, w) = ([], ok tt, w)
  context_answer (some e, w) = ([], err (context_ended e), w)

  unfoldable pub check_context : Act W (Unit {0})
  check_context w = context_answer (env.context_error w)

  -- `haltErr`
  unfoldable pub halt_err : Act W (Unit {0})
  unfolding check_interrupted check_budget and_then
  halt_err = and_then check_interrupted (λ _. check_budget)

  -- `haltOr`, of an error that the run returns
  unfoldable pub halt_or : {A : Type 0} → RunError → Act W A
  unfolding halt_err and_then
  halt_or e = and_then halt_err (λ _. fail e)

  -- `Generate`, with its error as a value
  unfoldable pub generate : List Message → Act W (Result Str Generation)
  generate turn w = let out = env.generate w turn in (asks turn ∷ [], ok out.0, out.1)

  abbrev pub or_failed : {A : Type 0} → (Str → RunError) → Result Str A → Act W A
  or_failed kind (err e) = fail (kind e)
  or_failed kind (ok a) = pure a

  abbrev pub dispatched :
      ToolCall
      → Result Str (Str × CallOutcome) × W
      → List Event × Result RunError (Str × CallOutcome) × W
  dispatched tc (err e, w) = (runs tc ∷ [], err (audit_failed e), w)
  dispatched tc (ok r, w) = (runs tc ∷ [], ok r, w)

  -- `dispatch`
  unfoldable pub dispatch : ToolCall → Act W (Str × CallOutcome)
  dispatch tc w = dispatched tc (env.dispatch w tc)
