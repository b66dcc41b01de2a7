-- ===== src/Verify/Fold.antt =====
-- What the verdicts of a finding fold into.
use cynative.Base.{
  ℕ, ◌+◌, ◌≤◌, ◌<◌, ◌≡◌, ◌≢◌, refl, sym, ◌∙◌, ◌↔◌, ◌⊎◌, inl, inr, false, none, some, List, [], ◌∷◌,
  leb, ◌==◌, ◌&&◌, if◌then◌else◌, Str, str_eq, str_eq_iff, eq-false_iff, length, Bool-cases, arith,
}
use cynative.Verify.Verdicts.{
  VerdictEntry, verified, refuted, unverified, verdict_confirmed, verdict_refuted, tally, aggregate,
}

abbrev pub IsConfirmed : VerdictEntry → Type 0
IsConfirmed v = v.verdict ≡ verdict_confirmed

abbrev pub IsRefuted : VerdictEntry → Type 0
IsRefuted v = v.verdict ≡ verdict_refuted

abbrev pub AnyRefuted : List VerdictEntry → Type 0
AnyRefuted [] = ⊥
AnyRefuted (v ∷ vs) = IsRefuted v ⊎ AnyRefuted vs

abbrev pub AllConfirmed : List VerdictEntry → Type 0
AllConfirmed [] = Unit
AllConfirmed (v ∷ vs) = IsConfirmed v × AllConfirmed vs

pub str_ne : {s t : Str} → str_eq s t ≡ false → s ≢ t
str_ne {s} {t} = (eq-false_iff (str_eq s t) (str_eq_iff s t)).0

not_either : {P Q : Type 0} → ¬ P → ¬ Q → ¬ (P ⊎ Q)
not_either p q h = elim h [ inl x ↦ p x | inr y ↦ q y ]

tally_lem :
    (vs : List VerdictEntry) (n : ℕ)
    → ((tally vs n ≡ none) × AnyRefuted vs)
      ⊎ ((m : ℕ) × (tally vs n ≡ some m)
          × ¬ AnyRefuted vs
          × (m ≤ n + length vs)
          × ((m ≡ n + length vs) ↔ AllConfirmed vs))
unfolding tally
tally_lem [] n = inr (n, refl, λ x. x, omega arith, (λ _. tt, λ _. omega arith))
tally_lem (v ∷ vs) n = elim (Bool-cases (str_eq v.verdict verdict_refuted)) [
  | inl r ↦ inl (rw r refl, inl ((str_eq_iff _ _).0 r))
  | inr r ↦ elim (Bool-cases (str_eq v.verdict verdict_confirmed)) [
    | inl c ↦
        rw (r, c)
          (elim (tally_lem vs (n + 1)) [
            | inl h ↦ inl (h.0, inr h.1)
            | inr h ↦
                let (m, e, a, l, i) = h in
                inr (
                  m,
                  e,
                  not_either (str_ne r) a,
                  omega arith,
                  (λ q. ((str_eq_iff _ _).0 c, i.0 (omega arith)), λ q. omega (arith, i.1 q.1)),
                )
          ])
    | inr c ↦
        rw (r, c)
          (elim (tally_lem vs n) [
            | inl h ↦ inl (h.0, inr h.1)
            | inr h ↦
                let (m, e, a, l, i) = h in
                inr (
                  m,
                  e,
                  not_either (str_ne r) a,
                  omega arith,
                  (λ q. absurd (omega arith), λ q. absurd (str_ne c q.0)),
                )
          ])
  ]
]

confirmed-ne-refuted : verdict_confirmed ≢ verdict_refuted
unfolding str_eq
confirmed-ne-refuted = str_ne refl

all-not-any : (vs : List VerdictEntry) → AllConfirmed vs → ¬ AnyRefuted vs
all-not-any [] a = λ x. x
all-not-any (v ∷ vs) a = not_either (λ r. confirmed-ne-refuted (sym a.0 ∙ r)) (all-not-any vs a.1)

fold_cases :
    (n m : ℕ) {P Q : Type 0}
    → ¬ P
    → (m ≡ 0 + n) ↔ Q
    → (((if leb 1 n && m == n then verified else unverified) ≡ refuted) ↔ P)
      × (((if leb 1 n && m == n then verified else unverified) ≡ verified) ↔ ((0 < n) × Q))
fold_cases n m p i = ground (arith, i)

-- A finding is refuted just when a pass refuted it; it is verified just when there was a pass and all
-- of them confirmed it.
pub aggregate_iff :
    (vs : List VerdictEntry)
    → ((aggregate vs ≡ refuted) ↔ AnyRefuted vs)
      × ((aggregate vs ≡ verified) ↔ ((0 < length vs) × AllConfirmed vs))
unfolding aggregate
aggregate_iff vs = elim (tally_lem vs 0) [
  | inl h ↦ rw h.0 ((λ _. h.1, λ _. refl), (λ e. cc, λ a. absurd (all-not-any vs a.1 h.1)))
  | inr h ↦ let (m, e, a, l, i) = h in rw e (fold_cases (length vs) m a i)
]
