-- ===== src/Gcp/Fitting.antt =====
-- What it is for a template to match the segments of a request, without the code's tests.
use cynative.Base.{
  ℕ, suc, Str, ◌≡◌, refl, sym, ◌∙◌, ap, ap₂, subst, Bool, true, false, ◌&&◌, not, if◌then◌else◌,
  List, [], ◌∷◌, ◌++◌, ◌==◌, length, str_eq_iff, cut_before, cut_after, equal_fold, ◌↔◌, ◌⊎◌, inl,
  inr, Bool-cases, arith,
}
use cynative.Base.TextLaws.{IsFree}
use cynative.Gcp.Template.{
  is_placeholder, has_colon, segment_equal, fits, template_loop, match_template,
}
use cynative.Gcp.Cuts.{
  IsPlaceholder, IsSameFold, IsCut, is_placeholder_iff, has_colon_iff, around-IsCut, IsCut-around,
  found-has_colon, equal_fold_iff,
}

-- A template's segment with a custom verb, `base:verb`, and the same verb in the request.
abbrev pub IsVerbFit : Str → Str → Type 0
IsVerbFit t r =
    (base : Str) × (verb : Str) × (sent : Str) × (t ≡ base ++ b':' ∷ verb)
    × IsFree b':' base
    × IsCut r sent verb
    × (IsPlaceholder base ⊎ IsSameFold base sent)

abbrev pub IsFit : Str → Str → Type 0
IsFit t r =
    (IsPlaceholder t × IsFree b':' r)
    ⊎ (¬ IsPlaceholder t × ((IsFree b':' t × IsSameFold t r) ⊎ IsVerbFit t r))

-- One segment of the request for each of the template.
pub data Matches : List Str → List Str → Type 0 where
  end : Matches [] []
  segment : {t r : Str} {ts rs : List Str} → IsFit t r → Matches ts rs → Matches (t ∷ ts) (r ∷ rs)

not-true : (b : Bool) → not b ≡ true → b ≡ false
not-true true h = cc h
not-true false h = refl

segment-plain : (t r : Str) → has_colon t ≡ false → segment_equal t r ≡ equal_fold t r
unfolding segment_equal
segment-plain t r h = rw h refl

segment-verb :
    (t r : Str)
    → has_colon t ≡ true
    → (segment_equal t r ≡ true) ↔ (
        (cut_after b':' t ≡ cut_after b':' r)
        × ((is_placeholder (cut_before b':' t) ≡ true)
            ⊎ (equal_fold (cut_before b':' t) (cut_before b':' r) ≡ true)))
unfolding segment_equal
segment-verb t r h = ground (arith, str_eq_iff (cut_after b':' t) (cut_after b':' r))

-- a segment with a colon is what stands around it
has_colon-found : (s : Str) → has_colon s ≡ true → s ≡ cut_before b':' s ++ b':' ∷ cut_after b':' s
has_colon-found s h = elim (around-IsCut s).1 [
  | inl e ↦ e
  | inr q ↦ cc ((has_colon_iff s).1 (subst (IsFree b':') (sym q.0) (around-IsCut s).0), h)
]

verb-IsFit : (t r : Str) → has_colon t ≡ true → segment_equal t r ≡ true → IsVerbFit t r
verb-IsFit t r e h =
    let (v, o) = (segment-verb t r e).0 h in
    (
      cut_before b':' t,
      cut_after b':' t,
      cut_before b':' r,
      has_colon-found t e,
      (around-IsCut t).0,
      subst (IsCut r (cut_before b':' r)) (sym v) (around-IsCut r),
      elim o [
        | inl p ↦ inl ((is_placeholder_iff (cut_before b':' t)).0 p)
        | inr q ↦ inr ((equal_fold_iff (cut_before b':' t) (cut_before b':' r)).0 q)
      ],
    )

verb-has_colon : (t r : Str) → IsVerbFit t r → has_colon t ≡ true
verb-has_colon t r (base, verb, sent, q, f, c, o) = rw q (found-has_colon base verb)

IsVerbFit-segment : (t r : Str) → IsVerbFit t r → segment_equal t r ≡ true
IsVerbFit-segment t r w =
    let (base, verb, sent, q, f, c, o) = w in
    let (tb, ta) = IsCut-around t base verb (f, inl q) in
    let (rb, ra) = IsCut-around r sent verb c in
    (segment-verb t r (verb-has_colon t r w)).1 (
      ta ∙ sym ra,
      elim o [
        | inl p ↦ inl (rw tb ((is_placeholder_iff base).1 p))
        | inr p ↦ inr (rw (tb, rb) ((equal_fold_iff base sent).1 p))
      ],
    )

segment-IsFit :
    (t r : Str) → (segment_equal t r ≡ true) ↔ ((IsFree b':' t × IsSameFold t r) ⊎ IsVerbFit t r)
segment-IsFit t r = elim (Bool-cases (has_colon t)) [
  | inl e ↦ (
    λ h. inr (verb-IsFit t r e h),
    λ h. elim h [ inl p ↦ cc ((has_colon_iff t).1 p.0, e) | inr w ↦ IsVerbFit-segment t r w ],
  )
  | inr e ↦ (
    λ h. inl ((has_colon_iff t).0 e, (equal_fold_iff t r).0 (sym (segment-plain t r e) ∙ h)),
    λ h. elim h [
      | inl p ↦ segment-plain t r e ∙ (equal_fold_iff t r).1 p.1
      | inr w ↦ IsVerbFit-segment t r w
    ],
  )
]

fits_place : (t r : Str) → is_placeholder t ≡ true → fits t r ≡ not (has_colon r)
unfolding fits
fits_place t r e = rw e refl

fits_other : (t r : Str) → is_placeholder t ≡ false → fits t r ≡ segment_equal t r
unfolding fits
fits_other t r e = rw e refl

fits_iff : (t r : Str) → (fits t r ≡ true) ↔ IsFit t r
fits_iff t r = elim (Bool-cases (is_placeholder t)) [
  | inl e ↦
      let p = (is_placeholder_iff t).0 e in
      (
        λ h. inl (p, (has_colon_iff r).0 (not-true (has_colon r) (sym (fits_place t r e) ∙ h))),
        λ h. elim h [
          | inl q ↦ fits_place t r e ∙ ap not ((has_colon_iff r).1 q.1)
          | inr q ↦ absurd (q.0 p)
        ],
      )
  | inr e ↦ (
    λ h. inr (
      λ p. cc ((is_placeholder_iff t).1 p, e),
      (segment-IsFit t r).0 (sym (fits_other t r e) ∙ h),
    ),
    λ h. elim h [
      | inl q ↦ cc ((is_placeholder_iff t).1 q.0, e)
      | inr q ↦ fits_other t r e ∙ (segment-IsFit t r).1 q.1
    ],
  )
]

suc_same : (n m : ℕ) → (suc n == suc m) ≡ (n == m)
suc_same n m = ground arith

guard : (b c d : Bool) → (if b then c && d else false) ≡ (c && (if b then d else false))
guard true c d = refl
guard false true d = refl
guard false false d = refl

match_cons :
    (t r : Str) (ts rs : List Str)
    → match_template (t ∷ ts) (r ∷ rs) ≡ (fits t r && match_template ts rs)
unfolding match_template
match_cons t r ts rs =
    ap (λ b. if b then fits t r && template_loop ts rs else false)
      (suc_same (length ts) (length rs))
    ∙ guard (length ts == length rs) (fits t r) (template_loop ts rs)

both : (a b : Bool) → (a && b) ≡ true → (a ≡ true) × (b ≡ true)
both true b h = (refl, h)
both false b h = cc h

match-left : (r : Str) (rs : List Str) → match_template [] (r ∷ rs) ≡ false
unfolding match_template
match-left r rs = ground arith

match-right : (t : Str) (ts : List Str) → match_template (t ∷ ts) [] ≡ false
unfolding match_template
match-right t ts = ground arith

match-Matches : (ts rs : List Str) → match_template ts rs ≡ true → Matches ts rs
match-Matches [] [] h = end
match-Matches [] (r ∷ rs) h = cc (h, match-left r rs)
match-Matches (t ∷ ts) [] h = cc (h, match-right t ts)
match-Matches (t ∷ ts) (r ∷ rs) h =
    let (f, m) = both (fits t r) (match_template ts rs) (sym (match_cons t r ts rs) ∙ h) in
    segment ((fits_iff t r).0 f) (match-Matches ts rs m)

Matches-match : {ts rs : List Str} → Matches ts rs → match_template ts rs ≡ true
Matches-match end = unfold match_template in refl
Matches-match (segment {t = t} {r = r} {ts = ts} {rs = rs} f m) =
    match_cons t r ts rs ∙ ap₂ ◌&&◌ ((fits_iff t r).1 f) (Matches-match m)

pub match_template_iff : (ts rs : List Str) → (match_template ts rs ≡ true) ↔ Matches ts rs
match_template_iff ts rs = (match-Matches ts rs, Matches-match)
