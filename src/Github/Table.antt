-- ===== src/Github/Table.antt =====
-- internal/auth/github/table.go: the routing table, its templates and their segments.
use cynative.Base.{
  starts_with, ends_with, ℕ, suc, Str, Bool, false, ◌&&◌, ◌||◌, not, if◌then◌else◌, List, [], ◌∷◌,
  ◌++◌, Option, none, some, str_eq, any, split, trim_prefix,
}
use cynative.Exposure.{lookup}

-- `Route`
pub record Route : Type 0 where
  pub category : Str
  pub subcategory : Str

-- `Templ`
pub record Templ : Type 0 where
  pub segments : List Str
  pub route : Route

-- `Table`; the two maps are association lists
pub record Table : Type 0 where
  pub by_method : List (Str × List Templ)
  pub multi_segment : List (Str × Bool)

-- `isParam`
unfoldable pub is_param : Str → Bool
unfolding starts_with ends_with
is_param seg = starts_with b'{' seg && ends_with b'}' seg

-- `s[:len(s)-1]`, for a text that is not empty
unfoldable pub drop_last : Str → Str
drop_last [] = []
drop_last (c ∷ []) = []
drop_last (c ∷ d ∷ s) = c ∷ drop_last (d ∷ s)

-- `s[1:]`
unfoldable pub drop_first : Str → Str
drop_first [] = []
drop_first (_ ∷ s) = s

-- a missing key of `map[string]bool` reads as false
unfoldable pub is_set : Str → List (Str × Bool) → Bool
unfolding lookup
is_set k m = elim (lookup k m) [ none ↦ false | some b ↦ b ]

-- `isMultiSegment`
unfoldable pub is_multi_segment : Table → Str → Bool
unfolding is_param drop_last drop_first is_set
is_multi_segment t seg = is_param seg && is_set (drop_last (drop_first seg)) t.multi_segment

-- `splitPath`
abbrev pub split_rooted : Str → List Str
split_rooted [] = []
split_rooted (c ∷ p) = split b'/' (c ∷ p)

unfoldable pub split_path : Str → List Str
unfolding trim_prefix split
split_path p = split_rooted (trim_prefix b'/' p)

-- `literals`
unfoldable pub literals : List Str → ℕ
unfolding is_param
literals [] = 0
literals (s ∷ segs) = let rest = literals segs in if is_param s then rest else suc rest

-- `dropOneTrailingSlash`; `none` is a false second result
unfoldable pub drop_one_trailing_slash : List Str → Option (List Str)
unfolding str_eq
drop_one_trailing_slash [] = none
drop_one_trailing_slash (s ∷ []) = none
drop_one_trailing_slash (prev ∷ last ∷ []) =
    if not (str_eq last []) || str_eq prev [] then none else some (prev ∷ [])
drop_one_trailing_slash (s ∷ s' ∷ s'' ∷ segs) = elim (drop_one_trailing_slash (s' ∷ s'' ∷ segs)) [
  | none ↦ none
  | some rest ↦ some (s ∷ rest)
]

-- `Knows`
knows_route : Str → Templ → Bool
unfolding str_eq
knows_route key tm =
    str_eq tm.route.category key || str_eq (tm.route.category ++ b'/' ∷ tm.route.subcategory) key

unfoldable pub knows : Table → Str → Bool
unfolding any knows_route
knows t key = any (λ (m : Str × List Templ). any (knows_route key) m.1) t.by_method

-- `Routes`
unfoldable pub all_templates : List (Str × List Templ) → List Templ
all_templates [] = []
all_templates ((_, ts) ∷ m) = ts ++ all_templates m

unfoldable pub routes : Table → List Templ
unfolding all_templates
routes t = all_templates t.by_method
