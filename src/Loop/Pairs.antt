-- ===== src/Loop/Pairs.antt =====
-- Transcripts in which every tool call has its result.
use cynative.Base.{
  if◌then◌else◌, Str, List, [], ◌∷◌, ◌++◌, contains, Memᴰ, Memᴰ-cons, Memᴰ-append_left,
  Memᴰ-append_right, Memᴰ-append_iff, sym, subst, inl, inr, ◌⊎◌, Bool-cases,
}
use cynative.Base.TextLaws.{contains_iff}
use cynative.Loop.Messages.{
  ToolCall, Message, calls_of, results_of, answered_ids, called_ids, complete_calls,
  complete_messages, tool_message, synthetic_halt_result, complete_pending_tool_results,
}

-- The IDs of all tool calls.
unfoldable pub all_called : List Message → List Str
unfolding calls_of called_ids
all_called [] = []
all_called (m ∷ ms) = called_ids (calls_of m.content) ++ all_called ms

-- Every call has a result, unless its ID is one of `ids`.
abbrev pub IsPairedBut : List Str → List Message → Type 0
IsPairedBut ids turn =
    (i : Str) → Memᴰ i (all_called turn) → Memᴰ i (answered_ids turn) ⊎ Memᴰ i ids

abbrev pub IsPaired : List Message → Type 0
IsPaired turn = (i : Str) → Memᴰ i (all_called turn) → Memᴰ i (answered_ids turn)

pub answered-left :
    {i : Str} (xs ys : List Message) → Memᴰ i (answered_ids xs) → Memᴰ i (answered_ids (xs ++ ys))
unfolding answered_ids
answered-left [] ys m = elim m [ ]
answered-left (x ∷ xs) ys m =
    elim ((Memᴰ-append_iff (results_of x.content) (answered_ids xs)).0 m) [
      | inl a ↦ Memᴰ-append_left _ _ a
      | inr b ↦ Memᴰ-append_right _ _ (answered-left xs ys b)
    ]

pub answered-right :
    {i : Str} (xs ys : List Message) → Memᴰ i (answered_ids ys) → Memᴰ i (answered_ids (xs ++ ys))
unfolding answered_ids
answered-right [] ys m = m
answered-right (x ∷ xs) ys m = Memᴰ-append_right _ _ (answered-right xs ys m)

pub called-append :
    {i : Str} (xs ys : List Message)
    → Memᴰ i (all_called (xs ++ ys))
    → Memᴰ i (all_called xs) ⊎ Memᴰ i (all_called ys)
unfolding all_called
called-append [] ys m = inr m
called-append (x ∷ xs) ys m =
    elim ((Memᴰ-append_iff (called_ids (calls_of x.content)) (all_called (xs ++ ys))).0 m) [
      | inl a ↦ inl (Memᴰ-append_left _ _ a)
      | inr b ↦ elim (called-append xs ys b) [
        | inl c ↦ inl (Memᴰ-append_right _ _ c)
        | inr c ↦ inr c
      ]
    ]

pub grow-IsPairedBut :
    {ids ids' : List Str} (t ms : List Message)
    → IsPairedBut ids t
    → ((i : Str) → Memᴰ i ids → Memᴰ i (answered_ids (t ++ ms)) ⊎ Memᴰ i ids')
    → ((i : Str) → Memᴰ i (all_called ms) → Memᴰ i (answered_ids (t ++ ms)) ⊎ Memᴰ i ids')
    → IsPairedBut ids' (t ++ ms)
grow-IsPairedBut t ms h k n i m = elim (called-append t ms m) [
  | inl a ↦ elim (h i a) [ inl x ↦ inl (answered-left t ms x) | inr y ↦ k i y ]
  | inr b ↦ n i b
]

abbrev State : Type 0
State = List Message × List Str

-- What `answered` holds is answered, and no call is new.
abbrev IsSound : List Message → State → Type 0
IsSound base s =
    ((i : Str) → Memᴰ i s.1 → Memᴰ i (answered_ids s.0))
    × ((i : Str) → Memᴰ i (all_called s.0) → Memᴰ i (all_called base))

-- A round of a loop: it forgets no answer and sees to `ids`.
abbrev Completes : List Message → List Str → State → State → Type 0
Completes base ids s s' =
    IsSound base s'
    × ((i : Str) → Memᴰ i s.1 → Memᴰ i s'.1)
    × ((i : Str) → Memᴰ i ids → Memᴰ i s'.1)

call-Completes :
    (base : List Message) (c : ToolCall) (s : State)
    → IsSound base s
    → Completes base (c.id ∷ []) s (
        if contains s.1 c.id
        then s
        else (s.0 ++ tool_message synthetic_halt_result c.id ∷ [], c.id ∷ s.1))
unfolding answered_ids results_of all_called
call-Completes base c s h = elim (Bool-cases (contains s.1 c.id)) [
  | inl b ↦ rw b (
    h,
    λ i m. m,
    λ i m. elim (Memᴰ-cons m) [
      | inl e ↦ subst (λ x. Memᴰ x s.1) (sym e) ((contains_iff s.1 c.id).0 b)
      | inr z ↦ elim z [ ]
    ],
  )
  | inr b ↦ rw b (
    (
      λ i m. elim (Memᴰ-cons m) [
        | inl e ↦ answered-right s.0 _ (Memᴰ.head e)
        | inr z ↦ answered-left s.0 _ (h.0 i z)
      ],
      λ i m. elim (called-append s.0 _ m) [ inl z ↦ h.1 i z | inr z ↦ elim z [ ] ],
    ),
    λ i m. Memᴰ.tail m,
    λ i m. elim (Memᴰ-cons m) [ inl e ↦ Memᴰ.head e | inr z ↦ elim z [ ] ],
  )
]

calls-Completes :
    (base : List Message) (cs : List ToolCall) (s : State)
    → IsSound base s
    → Completes base (called_ids cs) s (complete_calls cs s)
unfolding complete_calls called_ids
calls-Completes base [] s h = (h, λ i m. m, λ i m. elim m [ ])
calls-Completes base (c ∷ cs) s h =
    let (h1, k1, n1) = call-Completes base c s h in
    let (h2, k2, n2) = calls-Completes base cs _ h1 in
    (
      h2,
      λ i m. k2 i (k1 i m),
      λ i m. elim (Memᴰ-cons m) [ inl e ↦ k2 i (n1 i (Memᴰ.head e)) | inr z ↦ n2 i z ],
    )

messages-Completes :
    (base ms : List Message) (s : State)
    → IsSound base s
    → Completes base (all_called ms) s (complete_messages ms s)
unfolding complete_messages all_called
messages-Completes base [] s h = (h, λ i m. m, λ i m. elim m [ ])
messages-Completes base (m ∷ ms) s h =
    let (h1, k1, n1) = calls-Completes base (calls_of m.content) s h in
    let (h2, k2, n2) = messages-Completes base ms _ h1 in
    (
      h2,
      λ i x. k2 i (k1 i x),
      λ i x. elim ((Memᴰ-append_iff (called_ids (calls_of m.content)) (all_called ms)).0 x) [
        | inl a ↦ k2 i (n1 i a)
        | inr b ↦ n2 i b
      ],
    )

pub complete-IsPaired : (turn : List Message) → IsPaired (complete_pending_tool_results turn)
unfolding complete_pending_tool_results
complete-IsPaired turn i m =
    let (h, k, n) = messages-Completes turn turn (turn, answered_ids turn) (λ i m. m, λ i m. m) in
    h.0 i (n i (h.1 i m))
