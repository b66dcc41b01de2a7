-- ===== src/Gitlab/Table.antt =====
-- internal/auth/gitlab/table.go: the templates and `Lookup`, with the suffix and the segments of
-- classifier.go that it uses.
use cynative.Base.{
  ℕ, suc, Str, codes, Bool, false, ◌&&◌, ◌||◌, if◌then◌else◌, List, [], ◌∷◌, map, Option, none,
  some, ◌==◌, ltb, length, str_eq, any, split, trim_prefix, to_upper, starts_with, ends_with,
  cut_last,
}
use cynative.Authreq.Unescape.{path_unescape}
use cynative.Exposure.{lookup}

-- `Route`
pub record Route : Type 0 where
  pub category : Str

-- `Templ`
pub record Templ : Type 0 where
  pub segments : List Str
  pub route : Route

-- `Table`; the map is an association list
pub record Table : Type 0 where
  pub by_method : List (Str × List Templ)

-- `isParam`
unfoldable pub is_param : Str → Bool
unfolding starts_with ends_with
is_param seg = starts_with b'{' seg && ends_with b'}' seg

-- `splitPathSegs`
abbrev pub split_rooted : Str → List Str
split_rooted [] = []
split_rooted (c ∷ p) = split b'/' (c ∷ p)

unfoldable pub split_path_segs : Str → List Str
unfolding trim_prefix split
split_path_segs p = split_rooted (trim_prefix b'/' p)

-- one round of the loop of `decodeSegs`
unfoldable pub decoded_or : Str → Option Str → Str
decoded_or s none = s
decoded_or s (some d) = d

unfoldable pub decode_seg : Str → Str
unfolding decoded_or path_unescape
decode_seg s = decoded_or s (path_unescape s)

-- `decodeSegs`
unfoldable pub decode_segs : Str → List Str
unfolding split_path_segs decode_seg
decode_segs escaped_path = map decode_seg (split_path_segs escaped_path)

-- `anchorIndex(segs) == 0`
unfoldable pub is_anchored : List Str → Bool
unfolding str_eq
is_anchored (a ∷ b ∷ segs) = str_eq a (codes "api") && str_eq b (codes "v4")
is_anchored _ = false

-- `stripFormatSuffix`
unfoldable pub strip_format_suffix : Str → Str
unfolding cut_last decoded_or
strip_format_suffix seg = decoded_or seg (cut_last b'.' seg)

-- `reqSegs[n-1] = stripFormatSuffix(reqSegs[n-1])`
unfoldable pub strip_last : List Str → List Str
unfolding strip_format_suffix
strip_last [] = []
strip_last (seg ∷ []) = strip_format_suffix seg ∷ []
strip_last (seg ∷ next ∷ segs) = seg ∷ strip_last (next ∷ segs)

-- the loop of `matchTemplate`
abbrev pub bump : Bool → Option ℕ → Option ℕ
bump param none = none
bump param (some score) = if param then some (suc score) else some score

unfoldable pub match_loop : List Str → List Str → Option ℕ
unfolding is_param str_eq
match_loop (seg ∷ tmpl) (x ∷ req) =
    let after = match_loop tmpl req in
    if is_param seg || str_eq x seg then bump (is_param seg) after else none
match_loop _ _ = some 0

-- `matchTemplate`; `none` is a false second result
unfoldable pub match_template : List Str → List Str → Option ℕ
unfolding match_loop
match_template tmpl req = if length tmpl == length req then match_loop tmpl req else none

-- one round of the loop of `Lookup`: the best template so far, with its score, for `bestIdx`
unfoldable pub better : Templ → Option ℕ → Option (Templ × ℕ) → Option (Templ × ℕ)
better tm none best = best
better tm (some score) none = some (tm, score)
better tm (some score) (some (top, low)) =
    if ltb score low then some (tm, score) else some (top, low)

unfoldable pub best_loop : List Str → List Templ → Option (Templ × ℕ) → Option (Templ × ℕ)
unfolding better match_template
best_loop req [] best = best
best_loop req (tm ∷ tmpls) best =
    best_loop req tmpls (better tm (match_template tm.segments req) best)

-- `t.byMethod[strings.ToUpper(method)]`
unfoldable pub templates : Table → Str → List Templ
unfolding lookup to_upper
templates t method = elim (lookup (to_upper method) t.by_method) [ none ↦ [] | some ts ↦ ts ]

unfoldable pub chosen_route : Option (Templ × ℕ) → Option Route
chosen_route none = none
chosen_route (some (tm, score)) = some tm.route

-- `Lookup`; `none` is a false second result
unfoldable pub lookup_route : Table → Str → Str → Option Route
unfolding decode_segs is_anchored strip_last templates best_loop chosen_route
lookup_route t method escaped_path =
    if is_anchored (decode_segs escaped_path)
    then chosen_route (best_loop (strip_last (decode_segs escaped_path)) (templates t method) none)
    else none

-- `Knows`
unfoldable pub knows : Table → Str → Bool
unfolding any str_eq
knows t key =
    any (λ (m : Str × List Templ). any (λ (tm : Templ). str_eq tm.route.category key) m.1)
      t.by_method
