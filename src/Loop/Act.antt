-- ===== src/Loop/Act.antt =====
-- internal/agent/loop.go: the state of a run, what it meets, and steps that may fail with an error.
use cynative.Base.{
  ℕ, Bool, Str, List, [], ◌++◌, Option, Result, ok, err, ◌≡◌, refl, subst, inl, inr, Memᴰ,
  Memᴰ-append_iff,
}
use cynative.Loop.Messages.{ToolCall, Message}

pub data RunError : Type 0 where
  interrupted budget_exceeded iteration_limit empty_responses output_limit content_filtered :
      RunError
  stopped_early model_failed context_ended audit_failed : Str → RunError

pub record Generation : Type 0 where
  pub message : Option Message
  pub stop_reason : Str
  pub raw_reason : Str

-- `callOutcome`, as far as the run reads it
pub record CallOutcome : Type 0 where
  pub progress : ℕ
  pub failures : ℕ
  pub is_ok : Bool

-- What may change while a run goes on, with the answers of the model, of the tools and of the audit
-- log, and `strings.TrimSpace`.
pub record Env (W : Type 0) : Type 0 where
  pub interrupted_now : W → Bool × W
  pub budget_exceeded_now : W → Bool × W
  pub context_error : W → Option Str × W
  pub generate : W → List Message → Result Str Generation × W
  pub dispatch : W → ToolCall → Result Str (Str × CallOutcome) × W
  pub trim_space : Str → Str
  pub max_failures : ℕ

pub record RunState : Type 0 where
  pub consecutive_failures : ℕ
  pub consecutive_empty : ℕ
  pub consecutive_truncated : ℕ
  pub answer_truncated : Bool
  pub answer_reasoning : Option Str
  pub host_answer : Bool

-- What the run sends to the model and to the tools.
pub data Event : Type 0 where
  asks : List Message → Event
  runs : ToolCall → Event

-- A step: what it sends, its result or error, and the world after it.
abbrev pub Act : Type 0 → Type 0 → Type 0
Act W A = W → List Event × Result RunError A × W

-- What a step sends satisfies `P`, and what it returns `Q`.
pub record Emits {W A : Type 0} (P : Event → Type 0) (Q : A → Type 0) (m : Act W A) : Type 0 where
  pub sends : (w : W) (e : Event) → Memᴰ e (m w).0 → P e
  pub returns : (w : W) (a : A) → (m w).1 ≡ ok a → Q a

module _ {W : Type 0} where
  abbrev pub pure : {A : Type 0} → A → Act W A
  pure a w = ([], ok a, w)

  abbrev pub fail : {A : Type 0} → RunError → Act W A
  fail e w = ([], err e, w)

  abbrev pub resume :
      {A B : Type 0}
      → List Event × Result RunError A × W
      → (A → Act W B)
      → List Event × Result RunError B × W
  resume (es, err e, w) rest = (es, err e, w)
  resume (es, ok a, w) rest = let out = rest a w in (es ++ out.0, out.1, out.2)

  -- a statement, and what follows unless it returned an error
  unfoldable pub and_then : {A B : Type 0} → Act W A → (A → Act W B) → Act W B
  and_then m rest w = resume (m w) rest

  module _ {P : Event → Type 0} where
    pub pure-Emits : {A : Type 0} {Q : A → Type 0} (a : A) → Q a → Emits {W = W} P Q (pure a)
    pure-Emits {Q = Q} a q = record {
      sends = λ w e m. elim m [ ];
      returns = λ w b h. subst Q (cc h) q;
    }

    pub fail-Emits : {A : Type 0} {Q : A → Type 0} (e : RunError) → Emits {W = W} P Q (fail e)
    fail-Emits x = record { sends = λ w e m. elim m [ ]; returns = λ w b h. cc h }

    resume-sends :
        {A B : Type 0} {Q : A → Type 0} {R : B → Type 0} (out : List Event × Result RunError A × W)
        (rest : A → Act W B)
        → ((e : Event) → Memᴰ e out.0 → P e)
        → ((a : A) → out.1 ≡ ok a → Q a)
        → ((a : A) → Q a → Emits P R (rest a))
        → (e : Event) → Memᴰ e (resume out rest).0
        → P e
    resume-sends (es, err x, w) rest h k n e m = h e m
    resume-sends (es, ok a, w) rest h k n e m = elim ((Memᴰ-append_iff es (rest a w).0).0 m) [
      | inl x ↦ h e x
      | inr x ↦ (n a (k a refl)).sends w e x
    ]

    resume-returns :
        {A B : Type 0} {Q : A → Type 0} {R : B → Type 0} (out : List Event × Result RunError A × W)
        (rest : A → Act W B)
        → ((a : A) → out.1 ≡ ok a → Q a)
        → ((a : A) → Q a → Emits P R (rest a))
        → (b : B) → (resume out rest).1 ≡ ok b
        → R b
    resume-returns (es, err x, w) rest k n b q = cc q
    resume-returns (es, ok a, w) rest k n b q = (n a (k a refl)).returns w b q

    pub and_then-Emits :
        {A B : Type 0} {Q : A → Type 0} {R : B → Type 0} {m : Act W A} {rest : A → Act W B}
        → Emits P Q m
        → ((a : A) → Q a → Emits P R (rest a))
        → Emits P R (and_then m rest)
    unfolding and_then
    and_then-Emits {m = m} {rest = rest} h n = record {
      sends = λ w. resume-sends (m w) rest (h.sends w) (h.returns w) n;
      returns = λ w. resume-returns (m w) rest (h.returns w) n;
    }
