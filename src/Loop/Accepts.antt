-- ===== src/Loop/Accepts.antt =====
-- What the parts of a run send, up to `acceptTurn`.
use cynative.Base.{
  ◌+◌, leb, Bool, true, false, not, ◌&&◌, if◌then◌else◌, Str, List, [], ◌∷◌, ◌++◌, Option, none,
  some, str_eq, Result, ok, err, ◌≡◌, refl, sym, subst, inl, inr, Memᴰ, Memᴰ-cons, Memᴰ-append_iff,
}
use cynative.Loop.Messages.{
  ToolCall, Message, text_of, calls_of, called_ids, results_of, answered_ids, user_message,
  tool_message, assistant, assistant_text, reasoning_of,
}
use cynative.Loop.Act.{
  RunError, Generation, CallOutcome, Env, RunState, Event, asks, runs, Act, pure, and_then, Emits,
  pure-Emits, fail-Emits, and_then-Emits, interrupted, budget_exceeded,
}
use cynative.Loop.Steps.{
  Accepted, answers, dispatches, when_over, context_answer, check_interrupted, check_budget,
  check_context, halt_err, halt_or, generate, stop_length, stop_content_filter, stop_other,
  max_consecutive_empty, max_consecutive_truncated, empty_turn_directive, dispatched, dispatch,
}
use cynative.Loop.Turns.{
  handle_blank_turn, with_reasoning, with_projection, refuse_truncated_calls, take_calls,
  accept_message, is_empty,
}
use cynative.Loop.Pairs.{
  all_called, IsPairedBut, IsPaired, answered-left, answered-right, called-append, grow-IsPairedBut,
}

-- A transcript that is sent answers every tool call in it.
abbrev pub IsFit : Event → Type 0
IsFit (asks turn) = IsPaired turn
IsFit (runs tc) = Unit

pub IsPairedBut-none : (turn : List Message) → IsPairedBut [] turn → IsPaired turn
IsPairedBut-none turn h i m = elim (h i m) [ inl x ↦ x | inr x ↦ elim x [ ] ]

pub add_user :
    (turn : List Message) (s : Str) → IsPaired turn → IsPaired (turn ++ user_message s ∷ [])
unfolding all_called calls_of called_ids
add_user turn s h i m = elim (called-append turn _ m) [
  | inl x ↦ answered-left turn _ (h i x)
  | inr x ↦ elim x [ ]
]

pub add_result :
    (ids : List Str) (turn : List Message) (s id : Str)
    → IsPairedBut (id ∷ ids) turn
    → IsPairedBut ids (turn ++ tool_message s id ∷ [])
unfolding all_called calls_of called_ids answered_ids results_of
add_result ids turn s id h =
    grow-IsPairedBut turn _ h
      (λ i m. elim (Memᴰ-cons m) [
        | inl e ↦ inl (answered-right turn _ (Memᴰ.head e))
        | inr x ↦ inr x
      ])
      (λ i m. elim m [ ])

pub add_message :
    (turn : List Message) (msg : Message)
    → IsPaired turn
    → IsPairedBut (called_ids (calls_of msg.content)) (turn ++ msg ∷ [])
unfolding all_called
add_message turn msg h =
    grow-IsPairedBut {ids = []} turn _ (λ i m. inl (h i m)) (λ i m. elim m [ ])
      (λ i m. elim ((Memᴰ-append_iff (called_ids (calls_of msg.content)) []).0 m) [
        | inl x ↦ inr x
        | inr x ↦ elim x [ ]
      ])

module _ {W : Type 0} where
  pub quiet-Emits :
      {A : Type 0} (m : Act W A) → ((w : W) → (m w).0 ≡ []) → Emits IsFit (λ _. Unit {0}) m
  quiet-Emits m q = record {
    sends = λ w e x. elim (subst (Memᴰ e) (q w) x) [ ];
    returns = λ w a h. tt;
  }

  pub if-Emits :
      {A : Type 0} {Q : A → Type 0} {m m' : Act W A} (b : Bool)
      → Emits IsFit Q m
      → Emits IsFit Q m'
      → Emits IsFit Q (if b then m else m')
  if-Emits true h h' = h
  if-Emits false h h' = h'

  pub then-Emits :
      {A B : Type 0} {R : B → Type 0} {m : Act W A} {next : Act W B}
      → Emits IsFit (λ _. Unit {0}) m
      → Emits IsFit R next
      → Emits IsFit R (and_then m (λ _. next))
  then-Emits h k = and_then-Emits h (λ _ _. k)

module _ {W : Type 0} (env : Env W) where
  pub over_quiet : (out : Bool × W) (e : RunError) → (when_over env out (pure tt) e).0 ≡ []
  over_quiet (true, w) e = refl
  over_quiet (false, w) e = refl

  pub context_quiet : (out : Option Str × W) → (context_answer env out).0 ≡ []
  context_quiet (none, w) = refl
  context_quiet (some e, w) = refl

  pub check_interrupted-Emits : Emits IsFit (λ _. Unit {0}) (check_interrupted env)
  unfolding check_interrupted
  check_interrupted-Emits = quiet-Emits _ (λ w. over_quiet (env.interrupted_now w) interrupted)

  pub check_budget-Emits : Emits IsFit (λ _. Unit {0}) (check_budget env)
  unfolding check_budget
  check_budget-Emits = quiet-Emits _ (λ w. over_quiet (env.budget_exceeded_now w) budget_exceeded)

  pub check_context-Emits : Emits IsFit (λ _. Unit {0}) (check_context env)
  unfolding check_context
  check_context-Emits = quiet-Emits _ (λ w. context_quiet (env.context_error w))

  pub halt_err-Emits : Emits IsFit (λ _. Unit {0}) (halt_err env)
  unfolding halt_err
  halt_err-Emits = and_then-Emits check_interrupted-Emits (λ _ _. check_budget-Emits)

  pub halt_or-Emits : {A : Type 0} {Q : A → Type 0} (e : RunError) → Emits IsFit Q (halt_or env e)
  unfolding halt_or
  halt_or-Emits e = and_then-Emits halt_err-Emits (λ _ _. fail-Emits e)

  pub generate-Emits :
      (turn : List Message) → IsPaired turn → Emits IsFit (λ _. Unit {0}) (generate env turn)
  unfolding generate
  generate-Emits turn h = record {
    sends = λ w e m. elim (Memᴰ-cons m) [ inl q ↦ subst IsFit (sym q) h | inr x ↦ elim x [ ] ];
    returns = λ w a q. tt;
  }

  pub dispatched-Fit :
      (tc : ToolCall) (out : Result Str (Str × CallOutcome) × W) (e : Event)
      → Memᴰ e (dispatched env tc out).0
      → IsFit e
  dispatched-Fit tc (err x, w) e m = elim (Memᴰ-cons m) [
    | inl q ↦ subst IsFit (sym q) tt
    | inr x ↦ elim x [ ]
  ]
  dispatched-Fit tc (ok x, w) e m = elim (Memᴰ-cons m) [
    | inl q ↦ subst IsFit (sym q) tt
    | inr x ↦ elim x [ ]
  ]

  pub dispatch-Emits : (tc : ToolCall) → Emits IsFit (λ _. Unit {0}) (dispatch env tc)
  unfolding dispatch
  dispatch-Emits tc = record {
    sends = λ w. dispatched-Fit tc (env.dispatch w tc);
    returns = λ w a q. tt;
  }

  -- What is left to answer is the calls that are to be dispatched.
  abbrev pub IsTaken : Accepted → Type 0
  IsTaken (answers text rs) = Unit
  IsTaken (dispatches turn calls rs) = IsPairedBut (called_ids calls) turn

  pub taken :
      (turn : List Message) (rs : RunState)
      → IsPaired turn
      → Emits {W = W} IsFit IsTaken (pure (dispatches turn [] rs))
  unfolding called_ids
  taken turn rs h = pure-Emits (dispatches turn [] rs) (λ i m. inl (h i m))

  pub handle_blank_turn-Emits :
      (turn : List Message) (gen : Generation) (rs : RunState)
      → IsPaired turn
      → Emits IsFit IsTaken (handle_blank_turn env turn gen rs)
  unfolding handle_blank_turn
  handle_blank_turn-Emits turn gen rs h =
      if-Emits (str_eq gen.stop_reason stop_length) (halt_or-Emits _) (
        if-Emits (str_eq gen.stop_reason stop_content_filter) (halt_or-Emits _) (
          if-Emits (str_eq gen.stop_reason stop_other) (halt_or-Emits _) (
            if-Emits (leb max_consecutive_empty (rs.consecutive_empty + 1)) (halt_or-Emits _)
              (taken _ _ (add_user turn empty_turn_directive h)))))

  pub projected-calls :
      (r : Option Str) (s : Str) → calls_of (with_reasoning env r (assistant_text s)) ≡ []
  unfolding calls_of
  projected-calls none [] = refl
  projected-calls none (c ∷ s) = refl
  projected-calls (some r) [] = refl
  projected-calls (some r) (c ∷ s) = refl

  pub if-IsPaired :
      (b : Bool) (t t' : List Message) → IsPaired t → IsPaired t' → IsPaired (if b then t else t')
  if-IsPaired true t t' h h' = h
  if-IsPaired false t t' h h' = h'

  pub with_projection-IsPaired :
      (turn : List Message) (msg : Message)
      → IsPaired turn
      → IsPaired (with_projection env turn msg)
  unfolding with_projection called_ids
  with_projection-IsPaired turn msg h = if-IsPaired _ _ _ h (
      IsPairedBut-none _ (
        subst
          (λ cs. IsPairedBut (called_ids cs) (
            turn
            ++ record {
              role = assistant;
              content =
                  with_reasoning env (reasoning_of msg.content)
                    (assistant_text (text_of msg.content));
            }
              ∷ []))
          (projected-calls (reasoning_of msg.content) (text_of msg.content))
          (add_message turn _ h)))

  pub refuse-Emits :
      (turn : List Message) (msg : Message) (rs : RunState)
      → IsPaired turn
      → Emits IsFit IsTaken (refuse_truncated_calls env turn msg rs)
  unfolding refuse_truncated_calls
  refuse-Emits turn msg rs h =
      if-Emits (leb max_consecutive_truncated (rs.consecutive_truncated + 1)) (halt_or-Emits _)
        (taken _ _ (add_user _ _ (with_projection-IsPaired turn msg h)))

  pub take_calls-Emits :
      (turn : List Message) (msg : Message) (reason : Str) (rs : RunState) (calls : List ToolCall)
      → calls_of msg.content ≡ calls
      → IsPaired turn
      → Emits IsFit IsTaken (take_calls env turn msg reason rs calls)
  take_calls-Emits turn msg reason rs [] e h =
      and_then-Emits halt_err-Emits (λ _ _. pure-Emits _ tt)
  take_calls-Emits turn msg reason rs (c ∷ cs) e h =
      pure-Emits _
        (subst (λ x. IsPairedBut (called_ids x) (turn ++ msg ∷ [])) e (add_message turn msg h))

  pub accept_message-Emits :
      (turn : List Message) (gen : Generation) (rs : RunState) (m : Option Message)
      → IsPaired turn
      → Emits IsFit IsTaken (accept_message env turn gen rs m)
  unfolding accept_message
  accept_message-Emits turn gen rs none h = handle_blank_turn-Emits turn gen rs h
  accept_message-Emits turn gen rs (some msg) h =
      if-Emits
        (is_empty env (calls_of msg.content) && str_eq (env.trim_space (text_of msg.content)) [])
        (handle_blank_turn-Emits turn gen rs h)
        (if-Emits (not (is_empty env (calls_of msg.content)) && str_eq gen.stop_reason stop_length)
          (refuse-Emits turn msg _ h)
          (take_calls-Emits turn msg gen.stop_reason _ (calls_of msg.content) refl h))
