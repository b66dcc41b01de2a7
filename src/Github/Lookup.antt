-- ===== src/Github/Lookup.antt =====
-- internal/auth/github/table.go: `Lookup` and `best`.
use cynative.Base.{
  ℕ, suc, Str, Bool, true, false, ◌&&◌, ◌||◌, if◌then◌else◌, List, [], ◌∷◌, ◌++◌, Option, none,
  some, ◌==◌, ltb, str_eq, to_upper,
}
use cynative.Exposure.{lookup}
use cynative.Github.Table.{Route, Templ, Table, split_path, literals, drop_one_trailing_slash}
use cynative.Github.Match.{match_template}

-- the `switch` of `best`; `none` is the top of -1
unfoldable pub place : ℕ → Route → Option ℕ × List Route → Option ℕ × List Route
place lit r (none, out) = (some lit, r ∷ [])
place lit r (some top, out) =
    if ltb top lit
    then (some lit, r ∷ [])
    else if lit == top
    then (some top, out ++ r ∷ [])
    else (some top, out)

-- the loop of `best`
unfoldable pub best_loop :
    Table → List Str → List Templ → Option ℕ × List Route → Option ℕ × List Route
best_loop t segs [] acc = acc
best_loop t segs (tm ∷ tmpls) acc =
    best_loop t segs tmpls
      (if match_template t tm.segments segs then place (literals tm.segments) tm.route acc else acc)

-- `best`
unfoldable pub best : Table → List Templ → List Str → List Route
unfolding best_loop place match_template literals
best t tmpls segs = (best_loop t segs tmpls (none, [])).1

-- `strings.Compare(a, b) < 0`
unfoldable pub str_lt : Str → Str → Bool
str_lt [] [] = false
str_lt [] (_ ∷ _) = true
str_lt (_ ∷ _) [] = false
str_lt (a ∷ s) (b ∷ t) = ltb a b || (a == b && str_lt s t)

-- `cmp.Or(strings.Compare(...), strings.Compare(...)) < 0`
unfoldable pub route_lt : Route → Route → Bool
unfolding str_lt str_eq
route_lt a b =
    str_lt a.category b.category
    || (str_eq a.category b.category && str_lt a.subcategory b.subcategory)

-- `slices.SortFunc`: two routes that compare as equal are equal, so every sort gives this list.
unfoldable pub insert_route : Route → List Route → List Route
unfolding route_lt
insert_route r [] = r ∷ []
insert_route r (q ∷ out) = if route_lt q r then q ∷ insert_route r out else r ∷ q ∷ out

unfoldable pub sort_routes : List Route → List Route
unfolding insert_route
sort_routes [] = []
sort_routes (r ∷ out) = insert_route r (sort_routes out)

unfoldable pub route_eq : Route → Route → Bool
unfolding str_eq
route_eq a b = str_eq a.category b.category && str_eq a.subcategory b.subcategory

-- `slices.Compact`
unfoldable pub compact : List Route → List Route
unfolding route_eq
compact [] = []
compact (r ∷ []) = r ∷ []
compact (r ∷ q ∷ out) = let rest = compact (q ∷ out) in if route_eq r q then rest else r ∷ rest

-- `strings.Count(path, "/")`
unfoldable pub count_byte : ℕ → Str → ℕ
count_byte c [] = 0
count_byte c (d ∷ s) = let rest = count_byte c s in if d == c then suc rest else rest

-- `maxPathSegments`
abbrev pub max_path_segments : ℕ
max_path_segments = 8192

-- `t.byMethod[method]`
unfoldable pub templates : Table → Str → List Templ
unfolding lookup to_upper
templates t method = elim (lookup (to_upper method) t.by_method) [ none ↦ [] | some ts ↦ ts ]

-- the reading without a single trailing slash in `Lookup`
unfoldable pub trimmed_best : Table → List Templ → Option (List Str) → List Route
unfolding best
trimmed_best t tmpls none = []
trimmed_best t tmpls (some trimmed) = best t tmpls trimmed

-- `Lookup` after the path is split; the empty list is nil
unfoldable pub lookup_segments : Table → List Templ → List Str → List Route → List Route
unfolding compact sort_routes trimmed_best drop_one_trailing_slash
lookup_segments t tmpls segs [] = []
lookup_segments t tmpls segs (r ∷ routes) =
    compact (sort_routes (r ∷ routes ++ trimmed_best t tmpls (drop_one_trailing_slash segs)))

-- `Lookup`
unfoldable pub lookup_routes : Table → Str → Str → List Route
unfolding templates count_byte split_path best lookup_segments
lookup_routes t method path =
    let tmpls = templates t method in
    let segs = split_path path in
    if ltb max_path_segments (count_byte b'/' path)
    then []
    else lookup_segments t tmpls segs (best t tmpls segs)
