-- ===== src/Verify/Confirmed.antt =====
-- When a call of the tool reports a finding as verified.
use mathlib.Core.Option.{some_inj}
use cynative.Base.{
  ℕ, zero, suc, ◌<◌, ◌≡◌, refl, sym, ◌∙◌, ap, ap₂, subst, ◌↔◌, ◌⊎◌, inl, inr, false, none, some,
  List, [], ◌∷◌, ◌++◌, Str, str_eq_iff, length, get_elem?, get_elem?-some, Bool-cases, arith,
}
use cynative.Verify.Nested.{IsNested}
use cynative.Verify.Verdicts.{VerdictEntry, verified, aggregate}
use cynative.Verify.Fold.{IsConfirmed, aggregate_iff}
use cynative.Verify.Pass.{World}
use cynative.Verify.Parsed.{ConfirmsAt, ApprovesText, IsPass, degraded-IsPass, parse_pass-IsPass}
use cynative.Verify.Passes.{
  stop_unspecified, stop_normal, abnormal_verifier_stop, Reply, failed, replied, Chance, run_pass,
  append_pass, append_run, then_next, judge, no_verdicts, each_lens, run_passes,
}

-- The model stopped by itself, or gave no reason.
abbrev pub IsWhole : Str → Type 0
IsWhole reason = reason ≡ stop_normal ⊎ reason ≡ stop_unspecified

abbrev ApprovesReply : World → Reply → ℕ → ℕ → Type 0
ApprovesReply w r n i =
    (raw : Str) × (reason : Str) × (r ≡ replied (some raw) reason)
    × IsWhole reason
    × ApprovesText w raw n i

-- The pass ran, and the model's whole reply approves.
abbrev pub Confirms : World → Chance → ℕ → ℕ → Type 0
Confirms w c n i =
    (c.interrupted ≡ false) × (c.budget_exceeded ≡ false) × ApprovesReply w c.reply n i

abbrev pub IsNestedWorld : World → Type 0
IsNestedWorld w = (s : Str) → IsNested 0 (w.tokens s).0

abnormal_iff : (r : Str) → (abnormal_verifier_stop r ≡ false) ↔ IsWhole r
unfolding abnormal_verifier_stop
abnormal_iff r = ground (arith, str_eq_iff r stop_normal, str_eq_iff r stop_unspecified)

judge-IsPass :
    (w : World) (n : ℕ) (r : Reply)
    → IsNestedWorld w
    → (pass : List VerdictEntry) × (judge w n r ≡ some pass) × IsPass pass n (ApprovesReply w r n)
judge-IsPass w n (failed e) h = (_, refl, degraded-IsPass n _ (λ i q. cc (q.2)))
judge-IsPass w n (replied none reason) h = (_, refl, degraded-IsPass n _ (λ i q. cc (q.2)))
judge-IsPass w n (replied (some raw) reason) h = elim (Bool-cases (abnormal_verifier_stop reason)) [
  | inl a ↦ rw a (_, refl, degraded-IsPass n _ (λ i q. cc (a, q.2, (abnormal_iff _).1 q.3)))
  | inr a ↦
      let (pass, e, (l, f)) = parse_pass-IsPass w raw n h in
      rw a (
        pass,
        e,
        (
          l,
          λ i m.
              let (to, from) = f i m in
              (
                λ q. (raw, reason, refl, (abnormal_iff reason).0 a, to q),
                λ q. from (subst (λ y. ApprovesText w y n i) (cc (q.2)) q.4),
              ),
        ),
      )
]

run_pass-IsPass :
    (w : World) (c : Chance) (n : ℕ)
    → IsNestedWorld w
    → (pass : List VerdictEntry) × (run_pass w c n ≡ some pass) × IsPass pass n (Confirms w c n)
unfolding run_pass
run_pass-IsPass w c n h = elim (Bool-cases c.interrupted) [
  | inl a ↦ rw a (_, refl, degraded-IsPass n _ (λ i q. cc (a, q.0)))
  | inr a ↦ elim (Bool-cases c.budget_exceeded) [
    | inl b ↦ rw (a, b) (_, refl, degraded-IsPass n _ (λ i q. cc (b, q.1)))
    | inr b ↦
        let (pass, e, (l, f)) = judge-IsPass w n c.reply h in
        rw (a, b)
          (pass, e, (l, λ i m. let (to, from) = f i m in (λ q. (refl, refl, to q), λ q. from q.2)))
  ]
]

-- `next` is `vss` with each entry of `pass` at the end of its verdicts.
abbrev IsAppended : List (List VerdictEntry) → List VerdictEntry → List (List VerdictEntry) → Type 0
IsAppended vss pass next =
    (i : ℕ)
    → (vs : List VerdictEntry) → (v : VerdictEntry) → get_elem? vss i ≡ some vs
    → get_elem? pass i ≡ some v
    → get_elem? next i ≡ some (vs ++ v ∷ [])

IsAppended-cons :
    (vs : List VerdictEntry) (v : VerdictEntry) (vss : List (List VerdictEntry))
    (pass : List VerdictEntry) (next : List (List VerdictEntry))
    → IsAppended vss pass next
    → IsAppended (vs ∷ vss) (v ∷ pass) ((vs ++ v ∷ []) ∷ next)
IsAppended-cons vs v vss pass next h zero us u e f =
    ap₂ (λ x y. some (x ++ y ∷ [])) (some_inj.0 e) (some_inj.0 f)
IsAppended-cons vs v vss pass next h (suc i) us u e f = h i us u e f

append_pass-IsAppended :
    (vss : List (List VerdictEntry)) (pass : List VerdictEntry)
    → length pass ≡ length vss
    → (next : List (List VerdictEntry)) × (append_pass vss pass ≡ some next)
      × (length next ≡ length vss)
      × IsAppended vss pass next
unfolding append_pass
append_pass-IsAppended [] [] l = ([], refl, refl, λ i vs v e f. cc)
append_pass-IsAppended [] (v ∷ pass) l = absurd (omega arith)
append_pass-IsAppended (vs ∷ vss) [] l = absurd (omega arith)
append_pass-IsAppended (vs ∷ vss) (v ∷ pass) l =
    let (next, e, m, h) = append_pass-IsAppended vss pass (omega arith) in
    rw e (_, refl, omega arith, IsAppended-cons vs v vss pass next h)

length-no_verdicts : (n : ℕ) → length (no_verdicts n) ≡ n
unfolding no_verdicts
length-no_verdicts zero = refl
length-no_verdicts (suc n) = omega (arith, length-no_verdicts n)

no_verdicts-get : (n i : ℕ) → i < n → get_elem? (no_verdicts n) i ≡ some []
unfolding no_verdicts
no_verdicts-get zero i l = absurd (omega arith)
no_verdicts-get (suc n) zero l = refl
no_verdicts-get (suc n) (suc i) l = no_verdicts-get n i (omega arith)

ConfirmsAt-IsConfirmed :
    (pass : List VerdictEntry) (i : ℕ) (v : VerdictEntry)
    → get_elem? pass i ≡ some v
    → IsConfirmed v ↔ ConfirmsAt pass i
ConfirmsAt-IsConfirmed pass i v e =
    (λ c. (v, e, c), λ h. ap (λ x. x.verdict) (some_inj.0 (sym e ∙ h.1)) ∙ h.2)

-- What the verdicts of the finding at `i` fold into.
abbrev pub VerifiedIff : List (List VerdictEntry) → ℕ → Type 0 → Type 0
VerifiedIff vss i P =
    (vs : List VerdictEntry) × (get_elem? vss i ≡ some vs)
    × (length vs ≡ 2)
    × ((aggregate vs ≡ verified) ↔ P)

two_passes :
    (n : ℕ) (p q : List VerdictEntry) (P Q : ℕ → Type 0)
    → IsPass p n P
    → IsPass q n Q
    → (vss next : List (List VerdictEntry)) → IsAppended (no_verdicts n) p vss
    → IsAppended vss q next
    → (i : ℕ) → i < n
    → VerifiedIff next i (P i × Q i)
two_passes n p q P Q (lp, fp) (lq, fq) vss next h k i l =
    let (v, ev) = get_elem?-some p i (omega arith) in
    let (u, eu) = get_elem?-some q i (omega arith) in
    let a = h i [] v (no_verdicts-get n i l) ev in
    let b = k i (v ∷ []) u a eu in
    let c = (aggregate_iff (v ∷ u ∷ [])).1 in
    let cv = ConfirmsAt-IsConfirmed p i v ev in
    let cu = ConfirmsAt-IsConfirmed q i u eu in
    let pv = fp i l in
    let qu = fq i l in
    (
      v ∷ u ∷ [],
      b,
      refl,
      (
        λ e. let (_, (x, (y, _))) = c.0 e in (pv.0 (cv.0 x), qu.0 (cu.0 y)),
        λ h. c.1 (omega arith, (cv.1 (pv.1 h.0), (cu.1 (qu.1 h.1), tt))),
      ),
    )

each_lens-cons :
    (w : World) (c : Chance) (cs : List Chance) (n : ℕ) (vss next : List (List VerdictEntry))
    (pass : List VerdictEntry)
    → run_pass w c n ≡ some pass
    → append_pass vss pass ≡ some next
    → each_lens w (c ∷ cs) n vss ≡ each_lens w cs n next
unfolding each_lens
each_lens-cons w c cs n vss next pass e f =
    ap (λ o. then_next (append_run vss o) (each_lens w cs n)) e
    ∙ ap (λ o. then_next o (each_lens w cs n)) f

-- When the decoder's delimiters are nested for every text, the two passes end with two verdicts for
-- each finding, and these fold to VERIFIED just when each pass was neither interrupted nor out of
-- budget and got a whole message: one JSON object with no repeated key up to case, whose keys are all
-- IDs of findings, and whose entry for this finding says confirmed.
pub run_passes-verified_iff :
    (w : World) (c d : Chance) (n : ℕ)
    → IsNestedWorld w
    → (vss : List (List VerdictEntry)) × (run_passes w c d n ≡ some vss)
      × (length vss ≡ n)
      × ((i : ℕ) → i < n → VerifiedIff vss i (Confirms w c n i × Confirms w d n i))
unfolding run_passes each_lens
run_passes-verified_iff w c d n h =
    let (p, ep, hp) = run_pass-IsPass w c n h in
    let (q, eq, hq) = run_pass-IsPass w d n h in
    let z = length-no_verdicts n in
    let (vss, ev, lv, av) = append_pass-IsAppended (no_verdicts n) p (hp.0 ∙ sym z) in
    let (next, en, ln, an) = append_pass-IsAppended vss q (hq.0 ∙ sym (lv ∙ z)) in
    let e = each_lens-cons w c (d ∷ []) n (no_verdicts n) vss p ep ev in
    (
      next,
      e ∙ each_lens-cons w d [] n vss next q eq en,
      ln ∙ lv ∙ z,
      two_passes n p q _ _ hp hq vss next av an,
    )
