-- ===== src/Gcp/Cuts.antt =====
-- Placeholders, custom verbs and the case of letters, without the code's tests.
use cynative.Base.{
  ℕ, Str, ◌≡◌, refl, sym, ◌∙◌, ap, ap₂, subst, true, false, [], ◌∷◌, ◌++◌, ◌==◌, ==_iff, str_eq_iff,
  any, cut_before, cut_after, starts_with, ends_with, to_lower, to_upper, equal_fold, ◌↔◌, ◌⊎◌, inl,
  inr, Bool-cases, arith,
}
use cynative.Base.TextLaws.{IsFree}
use cynative.Gcp.Template.{is_placeholder, has_colon}

-- `{name}`
abbrev pub IsPlaceholder : Str → Type 0
IsPlaceholder s = (name : Str) × (s ≡ b'{' ∷ name ++ b'}' ∷ [])

-- Equal but for the case of ASCII letters.
abbrev pub IsSameFold : Str → Str → Type 0
IsSameFold s t = to_lower s ≡ to_lower t

-- `before` and `after` are what stands around the first colon; without one, all of it and nothing.
abbrev pub IsCut : Str → Str → Str → Type 0
IsCut s before after =
    IsFree b':' before × ((s ≡ before ++ b':' ∷ after) ⊎ ((s ≡ before) × (after ≡ [])))

ends_with-append : (c : ℕ) (t : Str) → ends_with c (t ++ c ∷ []) ≡ true
unfolding ends_with
ends_with-append c [] = (==_iff c c).1 refl
ends_with-append c (x ∷ []) = (==_iff c c).1 refl
ends_with-append c (x ∷ y ∷ t) = ends_with-append c (y ∷ t)

ends_with-split : (c : ℕ) (s : Str) → ends_with c s ≡ true → (t : Str) × (s ≡ t ++ c ∷ [])
unfolding ends_with
ends_with-split c [] h = cc h
ends_with-split c (d ∷ []) h = ([], ap (λ x. x ∷ []) ((==_iff d c).0 h))
ends_with-split c (x ∷ d ∷ s) h =
    let (t, e) = ends_with-split c (d ∷ s) h in (x ∷ t, ap (λ y. x ∷ y) e)

open_brace : (c : ℕ) (s : Str) → ends_with b'}' (c ∷ s) ≡ true → c ≡ b'{' → IsPlaceholder (c ∷ s)
unfolding ends_with
open_brace c [] h e = absurd (ground arith)
open_brace c (d ∷ s) h e = let (t, q) = ends_with-split b'}' (d ∷ s) h in (t, ap₂ ◌∷◌ e q)

placed : (name : Str) → is_placeholder (b'{' ∷ name ++ b'}' ∷ []) ≡ true
unfolding is_placeholder starts_with
placed name = ends_with-append b'}' (b'{' ∷ name)

pub is_placeholder_iff : (s : Str) → (is_placeholder s ≡ true) ↔ IsPlaceholder s
unfolding is_placeholder starts_with
is_placeholder_iff [] = (λ h. cc h, λ p. cc p.1)
is_placeholder_iff (c ∷ s) = (
  λ h. elim (Bool-cases (c == b'{')) [
    | inl e ↦ open_brace c s (rw e at h) ((==_iff c b'{').0 e)
    | inr e ↦ cc (rw e at h)
  ],
  λ p. subst (λ x. is_placeholder x ≡ true) (sym p.1) (placed p.0),
)

pub has_colon_iff : (s : Str) → (has_colon s ≡ false) ↔ IsFree b':' s
unfolding has_colon any
has_colon_iff [] = (λ h. tt, λ h. refl)
has_colon_iff (c ∷ s) = elim (Bool-cases (c == b':')) [
  | inl e ↦ (λ h. cc (rw e at h), λ h. cc (h.0, e))
  | inr e ↦ rw e ((λ h. (refl, (has_colon_iff s).0 h)), λ h. (has_colon_iff s).1 h.1)
]

pub around-IsCut : (s : Str) → IsCut s (cut_before b':' s) (cut_after b':' s)
unfolding cut_before cut_after
around-IsCut [] = (tt, inr (refl, refl))
around-IsCut (c ∷ s) = elim (Bool-cases (c == b':')) [
  | inl e ↦ rw e (tt, inl (ap (λ x. x ∷ s) ((==_iff c b':').0 e)))
  | inr e ↦
      let (f, o) = around-IsCut s in
      rw e (
        (e, f),
        elim o [ inl q ↦ inl (ap (λ x. c ∷ x) q) | inr q ↦ inr (ap (λ x. c ∷ x) q.0, q.1) ],
      )
]

cut-found :
    (b a : Str)
    → IsFree b':' b
    → (cut_before b':' (b ++ b':' ∷ a) ≡ b) × (cut_after b':' (b ++ b':' ∷ a) ≡ a)
unfolding cut_before cut_after
cut-found [] a h = (refl, refl)
cut-found (c ∷ b) a h = let (p, q) = cut-found b a h.1 in rw h.0 (ap (λ x. c ∷ x) p, q)

cut-absent : (s : Str) → IsFree b':' s → (cut_before b':' s ≡ s) × (cut_after b':' s ≡ [])
unfolding cut_before cut_after
cut-absent [] h = (refl, refl)
cut-absent (c ∷ s) h = let (p, q) = cut-absent s h.1 in rw h.0 (ap (λ x. c ∷ x) p, q)

pub IsCut-around : (s b a : Str) → IsCut s b a → (cut_before b':' s ≡ b) × (cut_after b':' s ≡ a)
IsCut-around s b a (f, inl e) = rw e (cut-found b a f)
IsCut-around s b a (f, inr (e, q)) = let (x, y) = cut-absent b f in rw (e, q) (x, y)

pub found-has_colon : (b a : Str) → has_colon (b ++ b':' ∷ a) ≡ true
unfolding has_colon any
found-has_colon [] a = refl
found-has_colon (c ∷ b) a = ground (arith, found-has_colon b a)

pub equal_fold_iff : (s t : Str) → (equal_fold s t ≡ true) ↔ IsSameFold s t
unfolding equal_fold
equal_fold_iff s t = str_eq_iff (to_lower s) (to_lower t)

lower_upper : (s : Str) → to_lower (to_upper s) ≡ to_lower s
unfolding to_lower to_upper
lower_upper [] = refl
lower_upper (c ∷ s) = ap₂ ◌∷◌ (ground arith) (lower_upper s)

-- The upper case that the code compares with is forgotten.
pub IsSameFold-to_upper : (s t : Str) → IsSameFold s (to_upper t) → IsSameFold s t
IsSameFold-to_upper s t h = h ∙ lower_upper t
