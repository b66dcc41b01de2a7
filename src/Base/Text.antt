-- ===== src/Base/Text.antt =====
-- Go strings as lists of bytes, and the functions of package strings that the program calls.
use Prim.Native.Nat.{ℕ, ◌+◌, ◌-◌}
use Prim.Native.Char.{code}
use Prim.Native.String.{String}
use mathlib.Core.Path.{◌≡◌, refl}
use mathlib.Core.Logic.{◌↔◌}
use mathlib.Core.Bool.{Bool, true, false, ◌&&◌, ◌||◌}
use mathlib.Core.Option.{Option, none, some}
use mathlib.Core.List.{List, [], ◌∷◌, ◌++◌, map}
use native.Mathlib.Omega.{arith}
use cynative.Base.Tests.{◌==◌, leb, if◌then◌else◌}
use cynative.Base.Lists.{any}

abbrev pub Str : Type 0
Str = List ℕ

-- The code points of a text: its bytes, since every literal of the program here is ASCII.
abbrev pub codes : String → Str
codes String.[] = []
codes (String.◌∷◌ c s) = code c ∷ codes s

-- `a == b` on strings.
unfoldable pub str_eq : Str → Str → Bool
str_eq [] [] = true
str_eq (a ∷ s) (b ∷ t) = (a == b) && str_eq s t
str_eq _ _ = false

pub str_eq_iff : (s t : Str) → (str_eq s t ≡ true) ↔ (s ≡ t)
unfolding str_eq
str_eq_iff [] [] = (λ _. refl, λ _. refl)
str_eq_iff [] (b ∷ t) = ground arith
str_eq_iff (a ∷ s) [] = ground arith
str_eq_iff (a ∷ s) (b ∷ t) = ground (arith, str_eq_iff s t)

pub str_eq_refl : (s : Str) → str_eq s s ≡ true
str_eq_refl s = (str_eq_iff s s).1 refl

-- `slices.Contains(xs, s)`
unfoldable pub contains : List Str → Str → Bool
unfolding any str_eq
contains xs s = any (λ x. str_eq x s) xs

-- `strings.ToLower` and `strings.ToUpper` on ASCII text
abbrev pub lower_byte : ℕ → ℕ
lower_byte c = if leb b'A' c && leb c b'Z' then c + 32 else c

abbrev pub upper_byte : ℕ → ℕ
upper_byte c = if leb b'a' c && leb c b'z' then c - 32 else c

unfoldable pub to_lower : Str → Str
to_lower = map lower_byte

unfoldable pub to_upper : Str → Str
to_upper = map upper_byte

-- `strings.HasPrefix(s, prefix)`
unfoldable pub has_prefix : Str → Str → Bool
has_prefix s [] = true
has_prefix [] (p ∷ ps) = false
has_prefix (c ∷ s) (p ∷ ps) = (c == p) && has_prefix s ps

-- `strings.TrimLeft(s, cutset)` for the cutset of one byte
unfoldable pub trim_left : ℕ → Str → Str
trim_left sep [] = []
trim_left sep (c ∷ s) = if c == sep then trim_left sep s else c ∷ s

-- `strings.TrimRight(s, cutset)`: a byte stays if something after it stays, or if it is not in
-- the cutset.
abbrev keep_before : ℕ → ℕ → Str → Str
keep_before sep c (d ∷ s) = c ∷ d ∷ s
keep_before sep c [] = if c == sep then [] else c ∷ []

unfoldable pub trim_right : ℕ → Str → Str
trim_right sep [] = []
trim_right sep (c ∷ s) = keep_before sep c (trim_right sep s)

-- `strings.Trim(s, cutset)`
unfoldable pub trim : ℕ → Str → Str
unfolding trim_left trim_right
trim sep s = trim_right sep (trim_left sep s)

-- `strings.Split(s, sep)` for a separator of one byte: never the empty list
abbrev push_head : ℕ → List Str → List Str
push_head c [] = (c ∷ []) ∷ []
push_head c (seg ∷ segs) = (c ∷ seg) ∷ segs

unfoldable pub split : ℕ → Str → List Str
split sep [] = [] ∷ []
split sep (c ∷ s) = let rest = split sep s in if c == sep then [] ∷ rest else push_head c rest

-- `strings.Join(segs, sep)` for a separator of one byte
unfoldable pub join : ℕ → List Str → Str
join sep [] = []
join sep (seg ∷ []) = seg
join sep (seg ∷ next ∷ segs) = seg ++ sep ∷ join sep (next ∷ segs)

-- `strings.TrimPrefix(s, prefix)` for a prefix of one byte
unfoldable pub trim_prefix : ℕ → Str → Str
trim_prefix sep [] = []
trim_prefix sep (c ∷ s) = if c == sep then s else c ∷ s

-- `before` of `strings.Cut(s, sep)` for a separator of one byte
unfoldable pub cut_before : ℕ → Str → Str
cut_before sep [] = []
cut_before sep (c ∷ s) = if c == sep then [] else c ∷ cut_before sep s

-- `slices.Equal` on lists of strings
unfoldable pub strs_eq : List Str → List Str → Bool
unfolding str_eq
strs_eq [] [] = true
strs_eq (s ∷ ss) (t ∷ ts) = str_eq s t && strs_eq ss ts
strs_eq _ _ = false

pub strs_eq_iff : (ss ts : List Str) → (strs_eq ss ts ≡ true) ↔ (ss ≡ ts)
unfolding strs_eq
strs_eq_iff [] [] = (λ _. refl, λ _. refl)
strs_eq_iff [] (t ∷ ts) = ground arith
strs_eq_iff (s ∷ ss) [] = ground arith
strs_eq_iff (s ∷ ss) (t ∷ ts) = ground (arith, str_eq_iff s t, strs_eq_iff ss ts)

-- `strings.TrimSpace` on ASCII text
unfoldable pub is_space : ℕ → Bool
is_space c = (leb 9 c && leb c 13) || c == 32

unfoldable pub trim_space_left : Str → Str
trim_space_left [] = []
trim_space_left (c ∷ s) = if is_space c then trim_space_left s else c ∷ s

abbrev keep_space : ℕ → Str → Str
keep_space c (d ∷ s) = c ∷ d ∷ s
keep_space c [] = if is_space c then [] else c ∷ []

unfoldable pub trim_space_right : Str → Str
trim_space_right [] = []
trim_space_right (c ∷ s) = keep_space c (trim_space_right s)

unfoldable pub trim_space : Str → Str
unfolding trim_space_left trim_space_right is_space
trim_space s = trim_space_right (trim_space_left s)

-- `strings.HasSuffix(s, c)` for one byte
unfoldable pub ends_with : ℕ → Str → Bool
ends_with c [] = false
ends_with c (d ∷ []) = d == c
ends_with c (_ ∷ d ∷ s) = ends_with c (d ∷ s)

-- `strings.HasPrefix(s, c)` for one byte
unfoldable pub starts_with : ℕ → Str → Bool
starts_with c [] = false
starts_with c (d ∷ _) = d == c

-- `before` of `strings.CutLast(s, sep)` for a separator of one byte; `none` if it is not there
cut_at : ℕ → ℕ → Option Str → Option Str
cut_at sep c none = if c == sep then some [] else none
cut_at sep c (some before) = some (c ∷ before)

unfoldable pub cut_last : ℕ → Str → Option Str
unfolding cut_at
cut_last sep [] = none
cut_last sep (c ∷ s) = cut_at sep c (cut_last sep s)

-- `strings.Contains(s, sub)`
unfoldable pub has_infix : Str → Str → Bool
unfolding has_prefix
has_infix [] sub = has_prefix [] sub
has_infix (c ∷ s) sub = has_prefix (c ∷ s) sub || has_infix s sub

-- `strings.TrimSuffix(s, suffix)`
unfoldable pub trim_suffix : Str → Str → Str
unfolding str_eq
trim_suffix [] suffix = []
trim_suffix (c ∷ s) suffix = if str_eq (c ∷ s) suffix then [] else c ∷ trim_suffix s suffix

-- `strings.EqualFold(s, t)` on ASCII text
unfoldable pub equal_fold : Str → Str → Bool
unfolding str_eq to_lower
equal_fold s t = str_eq (to_lower s) (to_lower t)

-- `after` of `strings.Cut(s, sep)` for a separator of one byte
unfoldable pub cut_after : ℕ → Str → Str
cut_after sep [] = []
cut_after sep (c ∷ s) = if c == sep then s else cut_after sep s
