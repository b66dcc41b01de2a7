-- ===== src/Github/Matching.antt =====
-- What it means for a request to match a template, with no search order and no memo, and the proof
-- that `matchTemplate` decides it.
use cynative.Base.{
  ℕ, zero, suc, ◌+◌, ◌*◌, ◌≤◌, ◌<◌, Str, ◌≡◌, refl, sym, ap, ◌∙◌, true, false, List, [], ◌∷◌, ◌++◌,
  append_assoc, length, length-append, arith,
}
use cynative.Github.Table.{Table, is_multi_segment}
use cynative.Github.Match.{fits}

-- A literal takes one equal segment and an ordinary parameter any one segment. A multi-segment
-- parameter that is last takes whatever is left, nothing included; one that is not last takes one
-- segment or more.
pub data Matches (t : Table) : List Str → List Str → Type 0 where
  done : Matches t [] []
  one :
      {seg x : Str} {ts rs : List Str}
      → is_multi_segment t seg ≡ false
      → fits seg x ≡ true
      → Matches t ts rs
      → Matches t (seg ∷ ts) (x ∷ rs)
  rest :
      {seg : Str} {ts rs : List Str}
      → is_multi_segment t seg ≡ true
      → ts ≡ []
      → Matches t (seg ∷ ts) rs
  last :
      {seg x : Str} {ts rs : List Str}
      → is_multi_segment t seg ≡ true
      → Matches t ts rs
      → Matches t (seg ∷ ts) (x ∷ rs)
  more :
      {seg x : Str} {ts rs : List Str}
      → is_multi_segment t seg ≡ true
      → Matches t (seg ∷ ts) rs
      → Matches t (seg ∷ ts) (x ∷ rs)

-- Quotient and remainder are unique.
pub key_unique : (n q r q' r' : ℕ) → r < n → r' < n → q * n + r ≡ q' * n + r' → (q ≡ q') × (r ≡ r')
key_unique n zero r zero r' h h' e = (refl, omega arith)
key_unique n zero r (suc q') r' h h' e = absurd (omega arith)
key_unique n (suc q) r zero r' h h' e = absurd (omega arith)
key_unique n (suc q) r (suc q') r' h h' e =
    let (a, b) = key_unique n q r q' r' h h' (omega arith) in (ap suc a, b)

-- What is left of a list after a part of it.
abbrev pub IsSuffix : List Str → List Str → Type 0
IsSuffix ts whole = (pre : List Str) × (whole ≡ pre ++ ts)

pub IsSuffix-tail : (x : Str) (ts whole : List Str) → IsSuffix (x ∷ ts) whole → IsSuffix ts whole
IsSuffix-tail x ts whole (pre, e) = (pre ++ x ∷ [], e ∙ sym (append_assoc pre (x ∷ []) ts))

pub IsSuffix-length : (ts whole : List Str) → IsSuffix ts whole → length ts ≤ length whole
IsSuffix-length ts whole (pre, e) = omega (arith, ap length e, length-append pre ts)

abbrev tail_of : List Str → List Str
tail_of [] = []
tail_of (_ ∷ ts) = ts

append_right_unique :
    (pre pre' ts ts' : List Str) → pre ++ ts ≡ pre' ++ ts' → length ts ≡ length ts' → ts ≡ ts'
append_right_unique [] [] ts ts' e h = e
append_right_unique [] (x ∷ pre') ts ts' e h =
    absurd (omega (arith, ap length e, length-append pre' ts'))
append_right_unique (x ∷ pre) [] ts ts' e h =
    absurd (omega (arith, ap length e, length-append pre ts))
append_right_unique (x ∷ pre) (y ∷ pre') ts ts' e h =
    append_right_unique pre pre' ts ts' (ap tail_of e) h

pub IsSuffix-unique :
    (ts ts' whole : List Str)
    → IsSuffix ts whole
    → IsSuffix ts' whole
    → length ts ≡ length ts'
    → ts ≡ ts'
IsSuffix-unique ts ts' whole (pre, e) (pre', e') h =
    append_right_unique pre pre' ts ts' (sym e ∙ e') h
