-- ===== src/Verify/Verdicts.antt =====
-- internal/agent/verify.go: verdicts, and the outcome they fold into.
use cynative.Base.{
  ℕ, zero, suc, ◌+◌, Bool, ◌&&◌, ◌||◌, if◌then◌else◌, Option, none, some, List, [], ◌∷◌, ◌==◌, leb,
  Str, codes, str_eq, length,
}

-- `verdictEntry`
pub record VerdictEntry : Type 0 where
  pub verdict : Str
  pub justification : Str

-- `findingOutcome`
pub data Outcome : Type 0 where
  verified refuted unverified : Outcome

abbrev pub verdict_confirmed : Str
verdict_confirmed = codes "confirmed"

abbrev pub verdict_refuted : Str
verdict_refuted = codes "refuted"

abbrev pub verdict_insufficient : Str
verdict_insufficient = codes "insufficient_evidence"

-- `knownVerdict`
unfoldable pub known_verdict : Str → Bool
unfolding str_eq
known_verdict s =
    str_eq s verdict_confirmed || str_eq s verdict_refuted || str_eq s verdict_insufficient

-- The loop of `aggregate`: none where it returns early.
unfoldable pub tally : List VerdictEntry → ℕ → Option ℕ
unfolding str_eq
tally [] confirmed = some confirmed
tally (v ∷ vs) confirmed =
    let rest = tally vs in
    if str_eq v.verdict verdict_refuted
    then none
    else rest (if str_eq v.verdict verdict_confirmed then confirmed + 1 else confirmed)

abbrev folded : List VerdictEntry → Option ℕ → Outcome
folded vs none = refuted
folded vs (some confirmed) =
    if leb 1 (length vs) && confirmed == length vs then verified else unverified

unfoldable pub aggregate : List VerdictEntry → Outcome
unfolding tally
aggregate vs = folded vs (tally vs 0)

abbrev pub insufficient : Str → VerdictEntry
insufficient reason = record { verdict = verdict_insufficient; justification = reason }

-- `degradedPass`
unfoldable pub degraded_pass : ℕ → Str → List VerdictEntry
degraded_pass zero reason = []
degraded_pass (suc n) reason = insufficient reason ∷ degraded_pass n reason

-- A map of the decoded entries, by key.
abbrev pub Entries : Type 0
Entries = List (Str × VerdictEntry)

unfoldable pub lookup : Entries → Str → Option VerdictEntry
unfolding str_eq
lookup [] k = none
lookup (kv ∷ m) k = if str_eq kv.0 k then some kv.1 else lookup m k
