-- ===== src/Loop/Tests.antt =====
-- Runs on a script of replies.
use cynative.Base.{◌≡◌, refl, false, Str, codes, List, [], ◌∷◌, Memᴰ, none, some, Result, ok, err}
use cynative.Loop.Messages.{
  ToolCall, call_block, Message, assistant, user_message, calls_of, called_ids, results_of,
  answered_ids,
}
use cynative.Loop.Act.{Generation, Env, RunState, asks, Event, output_limit}
use cynative.Loop.Turns.{run}
use cynative.Loop.Pairs.{all_called, IsPaired}
use cynative.Loop.Paired.{run-IsPaired}

abbrev Script : Type 0
Script = List Generation

abbrev next_reply : Script → Result Str Generation × Script
next_reply [] = (err (codes "no reply"), [])
next_reply (g ∷ gs) = (ok g, gs)

-- A model that follows the script, and tools that fail.
abbrev scripted : Env Script
scripted = record {
  interrupted_now = λ w. (false, w);
  budget_exceeded_now = λ w. (false, w);
  context_error = λ w. (none, w);
  generate = λ w turn. next_reply w;
  dispatch = λ w tc. (ok (codes "failed", record { progress = 0; failures = 0; is_ok = false }), w);
  trim_space = λ s. s;
  max_failures = 1;
}

abbrev idle : RunState
idle = record {
  consecutive_failures = 0;
  consecutive_empty = 0;
  consecutive_truncated = 0;
  answer_truncated = false;
  answer_reasoning = none;
  host_answer = false;
}

abbrev call : Str → ToolCall
call id = record { id = id; name = codes "http_request"; arguments = codes "{}" }

-- a turn with two calls
abbrev two_calls : Str → Generation
two_calls reason = record {
  message = some (record {
    role = assistant;
    content = call_block (call (codes "a")) ∷ call_block (call (codes "b")) ∷ [];
  });
  stop_reason = reason;
  raw_reason = [];
}

abbrev task : List Message
task = user_message (codes "Audit the buckets.") ∷ []

task-IsPaired : IsPaired task
unfolding all_called calls_of called_ids
task-IsPaired = λ i m. elim m [ ]

-- The first call fails and ends the run; the transcript for the summary answers the second one too.
abbrev summary_events : List Event
summary_events = (run scripted 5 idle task (two_calls (codes "tool_calls") ∷ [])).0

abbrev third : List Event → List Message
third (_ ∷ _ ∷ asks turn ∷ _) = turn
third _ = []

third_answers : answered_ids (third summary_events) ≡ codes "a" ∷ codes "b" ∷ []
unfolding run answered_ids results_of
third_answers = refl

third-mem : Memᴰ (asks (third summary_events)) summary_events
unfolding run
third-mem = Memᴰ.tail (Memᴰ.tail (Memᴰ.head refl))

run-IsPaired_example : IsPaired (third summary_events)
run-IsPaired_example =
    run-IsPaired scripted 5 idle task (two_calls (codes "tool_calls") ∷ []) (third summary_events)
      task-IsPaired third-mem

-- Three turns cut off in their calls end the run, and no call is dispatched.
truncated_run :
    (run scripted 5 idle task
      (two_calls (codes "length") ∷ two_calls (codes "length") ∷ two_calls (codes "length") ∷ [])).1
    ≡ err output_limit
unfolding run
truncated_run = refl
