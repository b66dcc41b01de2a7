-- ===== src/Loop/Messages.antt =====
-- internal/schema/message.go: messages and what the run reads of them; failure_summary.go:
-- `completePendingToolResults`. A reasoning block, which the run only passes on, is one text.
use cynative.Base.{if◌then◌else◌, Str, codes, List, [], ◌∷◌, ◌++◌, contains, Option, none, some}

pub record ToolCall : Type 0 where
  pub id : Str
  pub name : Str
  pub arguments : Str

pub data Block : Type 0 where
  text_block : Str → Block
  call_block : ToolCall → Block
  result_block : Str → Str → Block
  reasoning_block : Str → Block

pub data Role : Type 0 where
  system user assistant tool : Role

pub record Message : Type 0 where
  pub role : Role
  pub content : List Block

unfoldable pub text_of : List Block → Str
text_of [] = []
text_of (text_block s ∷ bs) = s ++ text_of bs
text_of (_ ∷ bs) = text_of bs

unfoldable pub calls_of : List Block → List ToolCall
calls_of [] = []
calls_of (call_block c ∷ bs) = c ∷ calls_of bs
calls_of (_ ∷ bs) = calls_of bs

-- the IDs of the tool results
unfoldable pub results_of : List Block → List Str
results_of [] = []
results_of (result_block i s ∷ bs) = i ∷ results_of bs
results_of (_ ∷ bs) = results_of bs

unfoldable pub reasoning_of : List Block → Option Str
reasoning_of [] = none
reasoning_of (reasoning_block r ∷ bs) = some r
reasoning_of (_ ∷ bs) = reasoning_of bs

abbrev pub user_message : Str → Message
user_message s = record { role = user; content = text_block s ∷ [] }

abbrev pub tool_message : Str → Str → Message
tool_message s id = record { role = tool; content = result_block id s ∷ [] }

-- the content of `AssistantMessage` without calls
abbrev pub assistant_text : Str → List Block
assistant_text [] = []
assistant_text (c ∷ s) = text_block (c ∷ s) ∷ []

-- the IDs that a transcript answers, and those of its calls
unfoldable pub answered_ids : List Message → List Str
unfolding results_of
answered_ids [] = []
answered_ids (m ∷ ms) = results_of m.content ++ answered_ids ms

unfoldable pub called_ids : List ToolCall → List Str
called_ids [] = []
called_ids (c ∷ cs) = c.id ∷ called_ids cs

abbrev pub synthetic_halt_result : Str
synthetic_halt_result = codes "Tool not run: the turn halted after repeated tool failures."

-- the inner loop of `completePendingToolResults`: the transcript and `answered`
unfoldable pub complete_calls : List ToolCall → List Message × List Str → List Message × List Str
unfolding contains
complete_calls [] s = s
complete_calls (c ∷ cs) s = complete_calls cs (
    if contains s.1 c.id
    then s
    else (s.0 ++ tool_message synthetic_halt_result c.id ∷ [], c.id ∷ s.1))

-- the outer one
unfoldable pub complete_messages : List Message → List Message × List Str → List Message × List Str
unfolding complete_calls calls_of
complete_messages [] s = s
complete_messages (m ∷ ms) s = complete_messages ms (complete_calls (calls_of m.content) s)

-- `completePendingToolResults`
unfoldable pub complete_pending_tool_results : List Message → List Message
unfolding complete_messages answered_ids
complete_pending_tool_results turn = (complete_messages turn (turn, answered_ids turn)).0
