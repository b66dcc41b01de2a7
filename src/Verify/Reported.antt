-- ===== src/Verify/Reported.antt =====
-- What a call of the tool reports, its arguments included.
use mathlib.Core.Option.{some_inj}
use cynative.Base.{
  ℕ, zero, suc, ◌≤◌, ◌<◌, ◌≡◌, ◌≢◌, refl, sym, ◌∙◌, ap, ◌↔◌, inl, inr, Bool, true, false, Option,
  none, some, List, [], ◌∷◌, map, Str, str_eq, str_eq_iff, length, get_elem?, ltb, ◌==◌, ◌||◌,
  Bool-cases, Option-cases, arith,
}
use cynative.Verify.Verdicts.{VerdictEntry, Outcome, verified, aggregate}
use cynative.Verify.Pass.{World}
use cynative.Verify.Passes.{
  Chance, FindingArg, Report, subagent_guidance, bad_arguments, stopped, too_many, missing_field,
  outcomes, first_missing, report_passes, run_valid, run_scoped,
}
use cynative.Verify.Confirmed.{Confirms, IsNestedWorld, VerifiedIff, run_passes-verified_iff}

-- Every finding has its three fields.
abbrev pub IsComplete : List FindingArg → Type 0
IsComplete [] = Unit
IsComplete (f ∷ fs) = ((f.title ≢ []) × (f.claim ≢ []) × (f.evidence ≢ [])) × IsComplete fs

-- The finding at `i` is reported as verified.
abbrev pub Reports : Report → ℕ → Type 0
Reports r i = (os : List Outcome) × (r ≡ outcomes os) × (get_elem? os i ≡ some verified)

-- The main agent calls, with complete findings, and not too many.
abbrev pub IsAccepted : ℕ → List FindingArg → Type 0
IsAccepted depth fs = (depth ≡ 0) × (length fs ≤ 16) × IsComplete fs

any_empty :
    (a b c : Str)
    → ((str_eq a [] || str_eq b [] || str_eq c []) ≡ false) ↔ ((a ≢ []) × (b ≢ []) × (c ≢ []))
any_empty a b c = ground (arith, str_eq_iff a [], str_eq_iff b [], str_eq_iff c [])

first_missing_iff : (k : ℕ) (fs : List FindingArg) → (first_missing k fs ≡ none) ↔ IsComplete fs
unfolding first_missing
first_missing_iff k [] = (λ _. tt, λ _. refl)
first_missing_iff k (f ∷ fs) =
    let e = any_empty f.title f.claim f.evidence in
    elim (Bool-cases (str_eq f.title [] || str_eq f.claim [] || str_eq f.evidence [])) [
      | inl b ↦ rw b (λ q. cc, λ q. cc (e.1 q.0, b))
      | inr b ↦
          let (to, from) = first_missing_iff (suc k) fs in rw b (λ q. (e.0 b, to q), λ q. from q.1)
    ]

map-get :
    (vss : List (List VerdictEntry)) (i : ℕ) (vs : List VerdictEntry)
    → get_elem? vss i ≡ some vs
    → get_elem? (map aggregate vss) i ≡ some (aggregate vs)
map-get [] i vs e = cc
map-get (us ∷ vss) zero vs e = ap (λ x. some (aggregate x)) (some_inj.0 e)
map-get (us ∷ vss) (suc i) vs e = map-get vss i vs e

-- The report `r` answers the call, and reports the finding at `i` just when `P i` holds.
abbrev Answers : Option Report → ℕ → (ℕ → Type 0) → Type 0
Answers o n P = (r : Report) × (o ≡ some r) × ((i : ℕ) → i < n → Reports r i ↔ P i)

passes-Answers :
    (n : ℕ) (o : Option (List (List VerdictEntry))) (P : ℕ → Type 0) (interrupted : Bool)
    → (vss : List (List VerdictEntry)) → o ≡ some vss
    → ((i : ℕ) → i < n → VerifiedIff vss i (P i))
    → Answers (report_passes interrupted o) n (λ i. (interrupted ≡ false) × P i)
passes-Answers n o P true vss e h = rw e (stopped, refl, λ i l. (λ q. cc (q.1), λ q. cc (q.0)))
passes-Answers n o P false vss e h = rw e (
  outcomes (map aggregate vss),
  refl,
  λ i l.
      let (vs, g, _, (to, from)) = h i l in
      let m = map-get vss i vs g in
      (
        λ q. (refl, to (some_inj.0 (sym m ∙ ap (λ x. get_elem? x i) (cc q.1) ∙ q.2))),
        λ q. (map aggregate vss, refl, m ∙ ap some (from q.1)),
      ),
)

valid-Answers :
    (w : World) (fs : List FindingArg) (c d : Chance) (interrupted : Bool)
    → IsNestedWorld w
    → length fs ≤ 16
    → Answers (run_valid w c d interrupted fs (first_missing 0 fs)) (length fs) (λ i.
      IsAccepted 0 fs
      × (interrupted ≡ false)
      × Confirms w c (length fs) i
      × Confirms w d (length fs) i)
valid-Answers w fs c d interrupted h b =
    let n = length fs in
    let (to, from) = first_missing_iff 0 fs in
    elim (Option-cases (first_missing 0 fs)) [
      | inr x ↦
          rw (x.1) (
            missing_field x.0,
            refl,
            λ i l. (λ q. cc (q.1), λ q. let m = from q.0.2 in cc (m, x.1)),
          )
      | inl e ↦
          let (vss, a, _, v) = run_passes-verified_iff w c d n h in
          let (r, f, k) = passes-Answers n _ _ interrupted vss a v in
          rw e (
            r,
            f,
            λ i l.
                let (there, back) = k i l in
                (
                  λ q. let (x, (y, z)) = there q in ((refl, b, to e), x, y, z),
                  λ q. back (q.1, (q.2, q.3)),
                ),
          )
    ]

-- A call of the tool always answers, when the decoder's delimiters are nested for every text. Among
-- the findings of its arguments it reports one as verified just when the main agent called, with at
-- most 16 findings that lack no field, nobody interrupted it by the end, and both passes confirmed it.
pub run_scoped-verified_iff :
    (w : World) (depth : ℕ) (fs : List FindingArg) (c d : Chance) (interrupted : Bool)
    → IsNestedWorld w
    → (r : Report) × (run_scoped w depth (some fs) c d interrupted ≡ some r)
      × ((i : ℕ)
          → i < length fs
          → Reports r i ↔ (
              IsAccepted depth fs
              × (interrupted ≡ false)
              × Confirms w c (length fs) i
              × Confirms w d (length fs) i))
unfolding run_scoped
run_scoped-verified_iff w (suc depth) fs c d interrupted h =
    (subagent_guidance, refl, λ i l. (λ q. cc (q.1), λ q. cc (q.0.0)))
run_scoped-verified_iff w zero fs c d interrupted h = elim (Bool-cases (length fs == 0)) [
  | inl z ↦ rw z (bad_arguments, refl, λ i l. absurd (ground arith))
  | inr z ↦ elim (Bool-cases (ltb 16 (length fs))) [
    | inl g ↦
        rw (z, g)
          (too_many (length fs), refl, λ i l. (λ q. cc (q.1), λ q. absurd (ground (arith, q.0.1))))
    | inr g ↦ rw (z, g) (valid-Answers w fs c d interrupted h (ground arith))
  ]
]
