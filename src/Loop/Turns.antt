-- ===== src/Loop/Turns.antt =====
-- internal/agent/loop.go: `run` and the functions it calls; failure_summary.go: `failureSummary`.
use cynative.Base.{
  ℕ, zero, suc, ◌+◌, ltb, leb, Bool, true, false, not, ◌&&◌, ◌||◌, if◌then◌else◌, Str, List, [],
  ◌∷◌, ◌++◌, Option, none, some, str_eq, Result, ok, err,
}
use cynative.Loop.Messages.{
  ToolCall, Block, reasoning_block, Message, assistant, text_of, calls_of, reasoning_of,
  user_message, tool_message, assistant_text, complete_pending_tool_results,
}
use cynative.Loop.Act.{
  iteration_limit, empty_responses, output_limit, content_filtered, stopped_early, model_failed,
  Generation, Env, RunState, Act, pure, and_then,
}
use cynative.Loop.Steps.{
  stop_length, stop_content_filter, stop_other, max_consecutive_empty, max_consecutive_truncated,
  credited_failures, empty_turn_directive, truncated_calls_directive, stop_summary_directive,
  deterministic_failure_notice, Accepted, answers, dispatches, Tracked, check_interrupted,
  check_budget, check_context, halt_err, halt_or, generate, or_failed, dispatch,
}

module _ {W : Type 0} (env : Env W) where
  -- `handleBlankTurn`
  unfoldable pub handle_blank_turn : List Message → Generation → RunState → Act W Accepted
  unfolding str_eq halt_or
  handle_blank_turn turn gen rs =
      if str_eq gen.stop_reason stop_length
      then halt_or env output_limit
      else (if str_eq gen.stop_reason stop_content_filter
          then halt_or env content_filtered
          else (if str_eq gen.stop_reason stop_other
              then halt_or env (stopped_early gen.raw_reason)
              else (if leb max_consecutive_empty (rs.consecutive_empty + 1)
                  then halt_or env empty_responses
                  else pure (
                      dispatches (turn ++ user_message empty_turn_directive ∷ []) []
                        (record rs { consecutive_empty = rs.consecutive_empty + 1 })))))

  abbrev pub with_reasoning : Option Str → List Block → List Block
  with_reasoning none bs = bs
  with_reasoning (some r) bs = reasoning_block r ∷ bs

  -- the transcript after the projection of `refuseTruncatedCalls`
  unfoldable pub with_projection : List Message → Message → List Message
  unfolding text_of reasoning_of str_eq
  with_projection turn msg =
      if str_eq (env.trim_space (text_of msg.content)) []
      then turn
      else turn
        ++ record {
          role = assistant;
          content =
              with_reasoning (reasoning_of msg.content) (assistant_text (text_of msg.content));
        }
          ∷ []

  -- `refuseTruncatedCalls`
  unfoldable pub refuse_truncated_calls : List Message → Message → RunState → Act W Accepted
  unfolding with_projection halt_or
  refuse_truncated_calls turn msg rs =
      if leb max_consecutive_truncated (rs.consecutive_truncated + 1)
      then halt_or env output_limit
      else pure (
          dispatches (with_projection turn msg ++ user_message truncated_calls_directive ∷ []) []
            (record rs { consecutive_truncated = rs.consecutive_truncated + 1 }))

  -- the end of `acceptTurn`, on a turn that is appended
  abbrev pub take_calls : List Message → Message → Str → RunState → List ToolCall → Act W Accepted
  take_calls turn msg reason rs [] = and_then (halt_err env) (λ _. pure (
      answers (text_of msg.content) (record rs {
        answer_truncated = rs.answer_truncated || str_eq reason stop_length;
        answer_reasoning = reasoning_of msg.content;
      })))
  take_calls turn msg reason rs (c ∷ cs) = pure (dispatches (turn ++ msg ∷ []) (c ∷ cs) rs)

  abbrev pub is_empty : List ToolCall → Bool
  is_empty [] = true
  is_empty (_ ∷ _) = false

  unfoldable pub accept_full : List Message → Message → Str → RunState → Act W Accepted
  unfolding calls_of str_eq refuse_truncated_calls and_then halt_err text_of reasoning_of
  accept_full turn msg reason rs =
      if not (is_empty (calls_of msg.content)) && str_eq reason stop_length
      then refuse_truncated_calls turn msg rs
      else take_calls turn msg reason (record rs { consecutive_truncated = 0 })
          (calls_of msg.content)

  -- `acceptTurn`, on the message of the generation; the test is `blankTurn`
  unfoldable pub accept_message :
      List Message → Generation → RunState → Option Message → Act W Accepted
  unfolding handle_blank_turn accept_full calls_of text_of str_eq
  accept_message turn gen rs none = handle_blank_turn turn gen rs
  accept_message turn gen rs (some msg) =
      if is_empty (calls_of msg.content) && str_eq (env.trim_space (text_of msg.content)) []
      then handle_blank_turn turn gen rs
      else accept_full turn msg gen.stop_reason (record rs { consecutive_empty = 0 })

  -- What the model's reply to `stopSummaryDirective` comes to.
  abbrev pub host_notice : RunState → Act W (Str × RunState)
  host_notice rs = pure (deterministic_failure_notice, record rs { host_answer = true })

  unfoldable pub summary_of :
      RunState → Result Str Generation → Option Message → Act W (Str × RunState)
  unfolding str_eq text_of reasoning_of and_then halt_err
  summary_of rs (err e) m = host_notice rs
  summary_of rs (ok gen) none = host_notice rs
  summary_of rs (ok gen) (some msg) =
      if str_eq (env.trim_space (text_of msg.content)) []
      then host_notice rs
      else and_then (halt_err env) (λ _. pure (
        text_of msg.content,
        record rs {
          answer_truncated = rs.answer_truncated || str_eq gen.stop_reason stop_length;
          answer_reasoning = reasoning_of msg.content;
        },
      ))

  abbrev pub message_of : Result Str Generation → Option Message
  message_of (err e) = none
  message_of (ok gen) = gen.message

  -- `failureSummary`
  unfoldable pub failure_summary : RunState → List Message → Act W (Str × RunState)
  unfolding and_then check_interrupted check_budget check_context generate
      complete_pending_tool_results summary_of
  failure_summary rs turn = and_then (check_interrupted env) (λ _.
      and_then
        (generate env
          (complete_pending_tool_results turn ++ user_message stop_summary_directive ∷ []))
        (λ reply. and_then (check_interrupted env) (λ _.
          and_then (check_context env)
            (λ _. and_then (check_budget env) (λ _. summary_of rs reply (message_of reply))))))

  -- the update of `consecutiveFailures`
  abbrev pub count_failures : ℕ → RunState → RunState
  count_failures n rs = record rs {
    consecutive_failures = if ltb 0 n then rs.consecutive_failures + n else 0;
  }

  -- `failuresExhausted`
  unfoldable pub failures_exhausted : RunState → Bool
  failures_exhausted rs = ltb 0 env.max_failures && leb env.max_failures rs.consecutive_failures

  abbrev pub summarise : RunState → List Message → Act W Tracked
  summarise rs turn =
      and_then (failure_summary rs turn)
        (λ out. pure (record { halt = out.0; turn = turn; state = out.1 }))

  -- the end of `dispatchAndTrack`
  unfoldable pub track : List Message → RunState → Act W Tracked
  unfolding and_then halt_err failures_exhausted failure_summary
  track turn rs = and_then (halt_err env) (λ _.
      if failures_exhausted rs
      then summarise rs turn
      else pure (record { halt = []; turn = turn; state = rs }))

  -- `dispatchAndTrack`
  unfoldable pub dispatch_and_track : RunState → ToolCall → List Message → Act W Tracked
  unfolding and_then dispatch track credited_failures
  dispatch_and_track rs tc turn =
      and_then (dispatch env tc) (λ r.
        track (turn ++ tool_message r.0 tc.id ∷ []) (count_failures (credited_failures r.1) rs))

  -- the loop over the calls: an answer that ends the run, or the transcript for the next round
  unfoldable pub dispatch_all : RunState → List ToolCall → List Message → Act W Tracked
  unfolding and_then dispatch_and_track str_eq
  dispatch_all rs [] turn = pure (record { halt = []; turn = turn; state = rs })
  dispatch_all rs (tc ∷ calls) turn = and_then (dispatch_and_track rs tc turn) (λ t.
      let rest = dispatch_all t.state calls t.turn in if str_eq t.halt [] then rest else pure t)

  abbrev pub after_calls :
      (RunState → List Message → Act W (Str × RunState)) → Tracked → Act W (Str × RunState)
  after_calls next t = if str_eq t.halt [] then next t.state t.turn else pure (t.halt, t.state)

  abbrev pub after_accept :
      (RunState → List Message → Act W (Str × RunState)) → Accepted → Act W (Str × RunState)
  after_accept next (answers text rs) = pure (text, rs)
  after_accept next (dispatches turn calls rs) =
      and_then (dispatch_all rs calls turn) (after_calls next)

  -- `run`, on the rounds that `maxIter` leaves
  unfoldable pub run : ℕ → RunState → List Message → Act W (Str × RunState)
  unfolding and_then halt_err generate halt_or dispatch_all accept_message str_eq
  run zero rs turn = halt_or env iteration_limit
  run (suc n) rs turn = and_then (halt_err env) (λ _. and_then (generate env turn) (λ reply.
      and_then (halt_err env) (λ _.
        and_then (or_failed env model_failed reply)
          (λ gen. and_then (accept_message turn gen rs gen.message) (after_accept (run n))))))
