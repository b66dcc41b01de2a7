-- ===== src/Verify/Passes.antt =====
-- internal/agent/verify.go: the two passes of one call of the tool.
use cynative.Base.{
  ℕ, zero, suc, Bool, not, ◌&&◌, ◌||◌, if◌then◌else◌, Option, none, some, List, [], ◌∷◌, ◌++◌, ◌==◌,
  ltb, map, Str, codes, str_eq, length,
}
use cynative.Verify.Verdicts.{VerdictEntry, Outcome, degraded_pass, aggregate}
use cynative.Verify.Pass.{World, parse_pass}

-- `schema.StopReason`, whose constants are these texts
abbrev pub stop_unspecified : Str
stop_unspecified = []

abbrev pub stop_normal : Str
stop_normal = codes "stop"

-- `abnormalVerifierStop`
unfoldable pub abnormal_verifier_stop : Str → Bool
unfolding str_eq
abnormal_verifier_stop r = not (str_eq r stop_normal) && not (str_eq r stop_unspecified)

-- What `model.Generate` returns: an error, or a message, which may be missing, with its stop reason.
pub data Reply : Type 0 where
  failed : Str → Reply
  replied : Option Str → Str → Reply

-- What a pass finds when it begins, and what the model answers.
pub record Chance : Type 0 where
  pub interrupted : Bool
  pub budget_exceeded : Bool
  pub reply : Reply

abbrev pub judge : World → ℕ → Reply → Option (List VerdictEntry)
judge w n (failed e) = some (degraded_pass n (codes "verification error: " ++ e))
judge w n (replied none reason) =
    some (degraded_pass n (codes "verification error: model returned no message"))
judge w n (replied (some raw) reason) =
    if abnormal_verifier_stop reason
    then some (degraded_pass n (codes "verification incomplete: the model stopped early"))
    else parse_pass w raw n

-- `runPass`
unfoldable pub run_pass : World → Chance → ℕ → Option (List VerdictEntry)
unfolding parse_pass degraded_pass abnormal_verifier_stop
run_pass w c n =
    if c.interrupted
    then some (degraded_pass n (codes "verification skipped: interrupted"))
    else (if c.budget_exceeded
        then some (degraded_pass n (codes "verification skipped: budget exceeded"))
        else judge w n c.reply)

abbrev pub then_next :
    Option (List (List VerdictEntry))
    → (List (List VerdictEntry) → Option (List (List VerdictEntry)))
    → Option (List (List VerdictEntry))
then_next none rest = none
then_next (some vss) rest = rest vss

-- `verdicts[i] = append(verdicts[i], pass[i])` for each finding: none where the index is out of range
unfoldable pub append_pass :
    List (List VerdictEntry) → List VerdictEntry → Option (List (List VerdictEntry))
append_pass [] pass = some []
append_pass (vs ∷ vss) [] = none
append_pass (vs ∷ vss) (v ∷ pass) =
    then_next (append_pass vss pass) (λ rest. some ((vs ++ v ∷ []) ∷ rest))

unfoldable pub no_verdicts : ℕ → List (List VerdictEntry)
no_verdicts zero = []
no_verdicts (suc n) = [] ∷ no_verdicts n

abbrev pub append_run :
    List (List VerdictEntry) → Option (List VerdictEntry) → Option (List (List VerdictEntry))
append_run vss none = none
append_run vss (some pass) = append_pass vss pass

-- the loop of `runPasses` over the lenses
unfoldable pub each_lens :
    World → List Chance → ℕ → List (List VerdictEntry) → Option (List (List VerdictEntry))
unfolding run_pass append_pass
each_lens w [] n vss = some vss
each_lens w (c ∷ cs) n vss = then_next (append_run vss (run_pass w c n)) (each_lens w cs n)

-- `runPasses`, on what the two lenses meet
unfoldable pub run_passes : World → Chance → Chance → ℕ → Option (List (List VerdictEntry))
unfolding each_lens no_verdicts
run_passes w benign sufficiency n = each_lens w (benign ∷ sufficiency ∷ []) n (no_verdicts n)

-- `findingArg`
pub record FindingArg : Type 0 where
  pub title : Str
  pub claim : Str
  pub evidence : Str

-- What `runScoped` tells the model.
pub data Report : Type 0 where
  subagent_guidance bad_arguments stopped : Report
  too_many missing_field : ℕ → Report
  outcomes : List Outcome → Report

abbrev pub max_findings_per_call : ℕ
max_findings_per_call = 16

-- The place, from 1, of the first finding that lacks a field.
unfoldable pub first_missing : ℕ → List FindingArg → Option ℕ
unfolding str_eq
first_missing i [] = none
first_missing i (f ∷ fs) =
    let rest = first_missing (suc i) fs in
    if str_eq f.title [] || str_eq f.claim [] || str_eq f.evidence [] then some (suc i) else rest

abbrev pub report_passes : Bool → Option (List (List VerdictEntry)) → Option Report
report_passes interrupted none = none
report_passes interrupted (some vss) =
    if interrupted then some stopped else some (outcomes (map aggregate vss))

abbrev pub run_valid : World → Chance → Chance → Bool → List FindingArg → Option ℕ → Option Report
run_valid w c d interrupted fs (some i) = some (missing_field i)
run_valid w c d interrupted fs none = report_passes interrupted (run_passes w c d (length fs))

-- `runScoped` on the decoded arguments, none where `json.Unmarshal` fails; `interrupted` is what it
-- reads after the passes
unfoldable pub run_scoped :
    World → ℕ → Option (List FindingArg) → Chance → Chance → Bool → Option Report
unfolding run_passes first_missing aggregate
run_scoped w zero none c d interrupted = some bad_arguments
run_scoped w zero (some fs) c d interrupted =
    if length fs == 0
    then some bad_arguments
    else (if ltb max_findings_per_call (length fs)
        then some (too_many (length fs))
        else run_valid w c d interrupted fs (first_missing 0 fs))
run_scoped w (suc depth) args c d interrupted = some subagent_guidance
