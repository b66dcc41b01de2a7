-- ===== src/Loop/Paired.antt =====
-- What a run sends to the model.
use cynative.Base.{
  ℕ, zero, suc, Str, List, [], ◌∷◌, Option, none, some, str_eq, str_eq_iff, Bool-cases, Result, ok,
  err, ◌≡◌, inl, inr, Memᴰ,
}
use cynative.Loop.Messages.{ToolCall, Message, text_of, called_ids}
use cynative.Loop.Act.{
  Generation, Env, RunState, asks, Act, Emits, pure-Emits, fail-Emits, and_then-Emits, model_failed,
}
use cynative.Loop.Steps.{Accepted, answers, dispatches, Tracked, or_failed}
use cynative.Loop.Turns.{
  summary_of, failure_summary, message_of, failures_exhausted, track, dispatch_and_track,
  dispatch_all, after_calls, after_accept, run,
}
use cynative.Loop.Pairs.{IsPairedBut, IsPaired, complete-IsPaired}
use cynative.Loop.Accepts.{
  IsFit, IsTaken, IsPairedBut-none, add_user, add_result, if-Emits, then-Emits,
  check_interrupted-Emits, check_budget-Emits, check_context-Emits, halt_err-Emits, halt_or-Emits,
  generate-Emits, dispatch-Emits, accept_message-Emits,
}

module _ {W : Type 0} (env : Env W) where
  host_answer-Emits :
      (rs : RunState) (reply : Result Str Generation) (m : Option Message)
      → Emits IsFit (λ _. Unit {0}) (summary_of env rs reply m)
  unfolding summary_of
  host_answer-Emits rs (err e) m = pure-Emits _ tt
  host_answer-Emits rs (ok gen) none = pure-Emits _ tt
  host_answer-Emits rs (ok gen) (some msg) =
      if-Emits (str_eq (env.trim_space (text_of msg.content)) []) (pure-Emits _ tt)
        (and_then-Emits (halt_err-Emits env) (λ _ _. pure-Emits _ tt))

  failure_summary-Emits :
      (rs : RunState) (turn : List Message)
      → Emits IsFit (λ _. Unit {0}) (failure_summary env rs turn)
  unfolding failure_summary
  failure_summary-Emits rs turn = then-Emits (check_interrupted-Emits env) (
      and_then-Emits (generate-Emits env _ (add_user _ _ (complete-IsPaired turn))) (λ reply _.
        then-Emits (check_interrupted-Emits env) (
          then-Emits (check_context-Emits env) (
            then-Emits (check_budget-Emits env)
              (host_answer-Emits rs reply (message_of env reply))))))

  abbrev IsTracked : List Str → Tracked → Type 0
  IsTracked ids t = IsPairedBut ids t.turn

  track-Emits :
      (ids : List Str) (turn : List Message) (rs : RunState)
      → IsPairedBut ids turn
      → Emits IsFit (IsTracked ids) (track env turn rs)
  unfolding track
  track-Emits ids turn rs h = then-Emits (halt_err-Emits env) (
      if-Emits (failures_exhausted env rs)
        (and_then-Emits (failure_summary-Emits rs turn) (λ out _. pure-Emits _ h)) (pure-Emits _ h))

  dispatch_and_track-Emits :
      (ids : List Str) (rs : RunState) (tc : ToolCall) (turn : List Message)
      → IsPairedBut (tc.id ∷ ids) turn
      → Emits IsFit (IsTracked ids) (dispatch_and_track env rs tc turn)
  unfolding dispatch_and_track
  dispatch_and_track-Emits ids rs tc turn h =
      and_then-Emits (dispatch-Emits env tc)
        (λ r _. track-Emits ids _ _ (add_result ids turn _ _ h))

  -- A halt that is not empty ends the run; otherwise every call is answered.
  abbrev IsRoundOver : Tracked → Type 0
  IsRoundOver t = t.halt ≡ [] → IsPaired t.turn

  dispatch_all-Emits :
      (rs : RunState) (calls : List ToolCall) (turn : List Message)
      → IsPairedBut (called_ids calls) turn
      → Emits IsFit IsRoundOver (dispatch_all env rs calls turn)
  unfolding dispatch_all called_ids
  dispatch_all-Emits rs [] turn h = pure-Emits _ (λ _. IsPairedBut-none turn h)
  dispatch_all-Emits rs (tc ∷ calls) turn h =
      and_then-Emits (dispatch_and_track-Emits (called_ids calls) rs tc turn h) (λ t k.
        elim (Bool-cases (str_eq t.halt [])) [
          | inl b ↦ rw b (dispatch_all-Emits t.state calls t.turn k)
          | inr b ↦ rw b (pure-Emits t (λ e. cc ((str_eq_iff t.halt []).1 e, b)))
        ])

  after_calls-Emits :
      (next : RunState → List Message → Act W (Str × RunState))
      → ((rs : RunState)
          → (turn : List Message) → IsPaired turn
          → Emits IsFit (λ _. Unit {0}) (next rs turn))
      → (t : Tracked) → IsRoundOver t
      → Emits IsFit (λ _. Unit {0}) (after_calls env next t)
  after_calls-Emits next h t k = elim (Bool-cases (str_eq t.halt [])) [
    | inl b ↦ rw b (h t.state t.turn (k ((str_eq_iff t.halt []).0 b)))
    | inr b ↦ rw b (pure-Emits _ tt)
  ]

  after_accept-Emits :
      (next : RunState → List Message → Act W (Str × RunState))
      → ((rs : RunState)
          → (turn : List Message) → IsPaired turn
          → Emits IsFit (λ _. Unit {0}) (next rs turn))
      → (a : Accepted) → IsTaken env a
      → Emits IsFit (λ _. Unit {0}) (after_accept env next a)
  after_accept-Emits next h (answers text rs) k = pure-Emits _ tt
  after_accept-Emits next h (dispatches turn calls rs) k =
      and_then-Emits (dispatch_all-Emits rs calls turn k) (after_calls-Emits next h)

  or_failed-Emits :
      (r : Result Str Generation) → Emits IsFit (λ _. Unit {0}) (or_failed env model_failed r)
  or_failed-Emits (err e) = fail-Emits _
  or_failed-Emits (ok gen) = pure-Emits _ tt

  run-Emits :
      (n : ℕ) (rs : RunState) (turn : List Message)
      → IsPaired turn
      → Emits IsFit (λ _. Unit {0}) (run env n rs turn)
  unfolding run
  run-Emits zero rs turn h = halt_or-Emits env _
  run-Emits (suc n) rs turn h = then-Emits (halt_err-Emits env) (
      and_then-Emits (generate-Emits env turn h) (λ reply _. then-Emits (halt_err-Emits env) (
        and_then-Emits (or_failed-Emits reply) (λ gen _.
          and_then-Emits (accept_message-Emits env turn gen rs gen.message h)
            (after_accept-Emits (run env n) (run-Emits n))))))

  -- If every tool call of the transcript that a run starts from has its result, then so it is in every
  -- transcript that the run sends to the model: those of its rounds, after blank turns, after refused
  -- and after dispatched calls, and the one that asks for a summary in the middle of a batch of calls.
  pub run-IsPaired :
      (n : ℕ) (rs : RunState) (turn : List Message) (w : W) (sent : List Message)
      → IsPaired turn
      → Memᴰ (asks sent) (run env n rs turn w).0
      → IsPaired sent
  run-IsPaired n rs turn w sent h m = (run-Emits n rs turn h).sends w (asks sent) m
