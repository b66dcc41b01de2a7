-- ===== src/Base/TextLaws.antt =====
-- Laws of the text functions: membership, prefixes, and splitting and joining as inverses.
use cynative.Base.Tests.{◌==◌, ==_iff, Bool-cases}
use cynative.Base.Lists.{any_iff, All}
use cynative.Base.Text.{Str, str_eq_iff, contains, trim_left, trim_right, trim, split, join}
use Prim.Native.Nat.{ℕ}
use mathlib.Core.Path.{◌≡◌, refl, sym, ap, ap₂, ◌∙◌, subst}
use mathlib.Core.Logic.{◌↔◌, inl, inr}
use mathlib.Core.Bool.{true, false}
use mathlib.Core.List.{List, [], ◌∷◌, ◌++◌, Memᴰ}
use native.Mathlib.Omega.{arith}

pub contains_iff : (xs : List Str) (s : Str) → (contains xs s ≡ true) ↔ Memᴰ s xs
unfolding contains
contains_iff xs s = (
  λ h. let (x, m, e) = (any_iff _ xs).0 h in subst (λ y. Memᴰ y xs) ((str_eq_iff x s).0 e) m,
  λ m. (any_iff _ xs).1 (s, m, (str_eq_iff s s).1 refl),
)

-- A text without the separator.
abbrev pub IsFree : ℕ → Str → Type 0
IsFree sep = All (λ c. (c == sep) ≡ false)

pub split-free : (sep : ℕ) (s : Str) → IsFree sep s → split sep s ≡ s ∷ []
unfolding split
split-free sep [] h = refl
split-free sep (c ∷ s) h = rw (h.0, split-free sep s h.1)

pub split-append : (sep : ℕ) (s t : Str) → IsFree sep s → split sep (s ++ sep ∷ t) ≡ s ∷ split sep t
unfolding split
split-append sep [] t h = ground arith
split-append sep (c ∷ s) t h = rw (h.0, split-append sep s t h.1)

-- Splitting undoes joining when no segment holds the separator.
pub split-join :
    (sep : ℕ) (seg : Str) (segs : List Str)
    → All (IsFree sep) (seg ∷ segs)
    → split sep (join sep (seg ∷ segs)) ≡ seg ∷ segs
unfolding join
split-join sep seg [] h = split-free sep seg h.0
split-join sep seg (next ∷ segs) h =
    split-append sep seg (join sep (next ∷ segs)) h.0
    ∙ ap (λ r. seg ∷ r) (split-join sep next segs h.1)

-- `Split` never returns an empty list.
pub split-cons : (sep : ℕ) (s : Str) → (seg : Str) × (segs : List Str) × (split sep s ≡ seg ∷ segs)
unfolding split
split-cons sep [] = ([], [], refl)
split-cons sep (c ∷ s) = elim (Bool-cases (c == sep)) [
  | inl e ↦ ([], split sep s, rw e)
  | inr e ↦ let (seg, segs, h) = split-cons sep s in (c ∷ seg, segs, rw (e, h))
]

pub join-push :
    (sep c : ℕ) (seg : Str) (segs : List Str)
    → join sep ((c ∷ seg) ∷ segs) ≡ c ∷ join sep (seg ∷ segs)
unfolding join
join-push sep c seg [] = refl
join-push sep c seg (next ∷ segs) = refl

-- Joining always undoes splitting.
pub join-split : (sep : ℕ) (s : Str) → join sep (split sep s) ≡ s
unfolding split join
join-split sep [] = refl
join-split sep (c ∷ s) =
    let (seg, segs, h) = split-cons sep s in
    let ih : join sep (seg ∷ segs) ≡ s = rw (← h) (join-split sep s) in
    elim (Bool-cases (c == sep)) [
      | inl e ↦ rw (e, h) (ap₂ ◌∷◌ (sym ((==_iff c sep).0 e)) ih)
      | inr e ↦ rw (e, h) (join-push sep c seg segs ∙ ap (λ r. c ∷ r) ih)
    ]

-- `Trim` leaves alone what neither begins nor ends with the separator.
trim_right-append :
    (sep : ℕ) (s : Str) (c : ℕ) (t : Str)
    → trim_right sep (c ∷ t) ≡ c ∷ t
    → trim_right sep (s ++ c ∷ t) ≡ s ++ c ∷ t
unfolding trim_right
trim_right-append sep [] c t h = h
trim_right-append sep (x ∷ []) c t h = rw h
trim_right-append sep (x ∷ y ∷ s) c t h = rw (trim_right-append sep (y ∷ s) c t h)

trim_right-free : (sep : ℕ) (s : Str) → IsFree sep s → trim_right sep s ≡ s
unfolding trim_right
trim_right-free sep [] h = refl
trim_right-free sep (c ∷ []) h = rw (h.0)
trim_right-free sep (c ∷ d ∷ s) h = rw (trim_right-free sep (d ∷ s) h.1)

-- A non-empty text without the separator.
abbrev pub IsSegment : ℕ → Str → Type 0
IsSegment sep [] = ⊥
IsSegment sep (c ∷ s) = IsFree sep (c ∷ s)

pub IsSegment-IsFree : (sep : ℕ) (s : Str) → IsSegment sep s → IsFree sep s
IsSegment-IsFree sep [] h = absurd h
IsSegment-IsFree sep (c ∷ s) h = h

pub All-IsSegment-IsFree :
    (sep : ℕ) (segs : List Str) → All (IsSegment sep) segs → All (IsFree sep) segs
All-IsSegment-IsFree sep [] h = tt
All-IsSegment-IsFree sep (s ∷ segs) h =
    (IsSegment-IsFree sep s h.0, All-IsSegment-IsFree sep segs h.1)

trim_right-join :
    (sep : ℕ) (seg : Str) (segs : List Str)
    → All (IsSegment sep) (seg ∷ segs)
    → trim_right sep (join sep (seg ∷ segs)) ≡ join sep (seg ∷ segs)
unfolding trim_right join
trim_right-join sep seg [] h = trim_right-free sep seg (IsSegment-IsFree sep seg h.0)
trim_right-join sep seg ([] ∷ segs) h = absurd h.1.0
trim_right-join sep seg ((d ∷ next) ∷ segs) h =
    let ih = trim_right-join sep (d ∷ next) segs h.1 in
    let e = join-push sep d next segs in
    trim_right-append sep seg sep (join sep ((d ∷ next) ∷ segs)) (rw ih (rw e refl))

trim_left_rooted : (sep c : ℕ) (t : Str) → (c == sep) ≡ false → trim_left sep (sep ∷ c ∷ t) ≡ c ∷ t
unfolding trim_left
trim_left_rooted sep c t h = rw ((==_iff sep sep).1 refl, h)

-- `Trim` of a rooted path takes the leading separator and nothing else.
pub trim-join :
    (sep : ℕ) (seg : Str) (segs : List Str)
    → All (IsSegment sep) (seg ∷ segs)
    → trim sep (sep ∷ join sep (seg ∷ segs)) ≡ join sep (seg ∷ segs)
unfolding trim
trim-join sep [] segs h = absurd h.0
trim-join sep (c ∷ s) segs h =
    let left : trim_left sep (sep ∷ join sep ((c ∷ s) ∷ segs)) ≡ join sep ((c ∷ s) ∷ segs) =
      rw (join-push sep c s segs) (trim_left_rooted sep c (join sep (s ∷ segs)) h.0.0) in
    ap (trim_right sep) left ∙ trim_right-join sep (c ∷ s) segs h
