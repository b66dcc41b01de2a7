-- ===== src/Hints/Candidates.antt =====
-- internal/apiref/candidates.go: the routes suggested for a request. `runes` is the conversion of a
-- string to its runes.
use cynative.Base.{
  ℕ, ◌+◌, ◌-◌, Bool, true, false, not, ◌&&◌, ◌||◌, if◌then◌else◌, leb, ltb, ◌==◌, Str, codes, List,
  [], ◌∷◌, ◌++◌, length, get_elem?, Option, none, some, str_eq, split, trim_prefix, cut_before,
  equal_fold, starts_with, ends_with, to_upper,
}
use cynative.Hints.Distance.{edit_distance}

-- `Route`
pub record Route : Type 0 where
  pub operation : Str
  pub method : Str
  pub template : Str

-- `maxEditDistance`
abbrev pub max_edit_distance : ℕ
max_edit_distance = 2

-- `maxHintPathBytes`
abbrev pub max_hint_path_bytes : ℕ
max_hint_path_bytes = 2048

-- `HintPathTooLong`
unfoldable pub hint_path_too_long : Str → Bool
hint_path_too_long escaped_path = ltb max_hint_path_bytes (length escaped_path)

-- `templatePath`
unfoldable pub template_path : Str → Str
unfolding cut_before
template_path tpl = cut_before b'?' tpl

-- `splitPath`
unfoldable pub split_path : Str → List Str
unfolding split trim_prefix
split_path p = split b'/' (trim_prefix b'/' p)

-- `strings.HasSuffix(seg, "}")` after the byte `c`
unfoldable pub ends_label : ℕ → Str → Bool
ends_label c [] = false
ends_label c (a ∷ []) = false
ends_label c (a ∷ b ∷ []) = a == c && b == b'}'
ends_label c (a ∷ b ∷ d ∷ s) = ends_label c (b ∷ d ∷ s)

-- `isLabel`
unfoldable pub is_label : Str → Bool
unfolding starts_with ends_with
is_label seg = starts_with b'{' seg && ends_with b'}' seg

-- `isZeroOrMore`
unfoldable pub is_zero_or_more : Str → Bool
unfolding is_label ends_label
is_zero_or_more seg = is_label seg && ends_label b'*' seg

-- `isGreedy`
unfoldable pub is_greedy : Str → Bool
unfolding is_label ends_label is_zero_or_more
is_greedy seg = is_label seg && (ends_label b'+' seg || is_zero_or_more seg)

-- `segMatches`
unfoldable pub seg_matches : Str → Str → Bool
unfolding is_label str_eq
seg_matches t s = if is_label t then not (str_eq s []) else str_eq t s

-- the test of one segment, false where there is none
unfoldable pub matches_at : Str → ℕ → List Str → Bool
unfolding seg_matches
matches_at t i segs = elim (get_elem? segs i) [ none ↦ false | some s ↦ seg_matches t s ]

-- the loop of `matchGreedy`
unfoldable pub suffix_matches : List Str → ℕ → List Str → Bool
unfolding matches_at
suffix_matches [] at segs = true
suffix_matches (t ∷ suffix) at segs = matches_at t at segs && suffix_matches suffix (at + 1) segs

abbrev is_empty_at : List Str → ℕ → Bool
is_empty_at segs i = elim (get_elem? segs i) [ none ↦ false | some s ↦ str_eq s [] ]

-- `matchGreedy`, where `end < i` is `len(segs) < i + len(suffix)`
unfoldable pub match_greedy : List Str → List Str → ℕ → Bool → Bool
unfolding suffix_matches str_eq
match_greedy suffix segs i zero_ok =
    let end = length segs - length suffix in
    if ltb (length segs) (i + length suffix)
      || (not zero_ok && (end == i || (end == i + 1 && is_empty_at segs i)))
    then false
    else suffix_matches suffix end segs

-- the loop of `matches`
unfoldable pub matches_from : List Str → ℕ → List Str → Bool
unfolding is_greedy is_zero_or_more match_greedy matches_at
matches_from [] i segs = i == length segs
matches_from (t ∷ tpl) i segs =
    if is_greedy t
    then match_greedy tpl segs i (is_zero_or_more t)
    else matches_at t i segs && matches_from tpl (i + 1) segs

-- `matches`
unfoldable pub matches : List Str → List Str → Bool
unfolding matches_from
matches tpl segs = matches_from tpl 0 segs

-- `Match`
unfoldable pub match_path : Str → Str → Bool
unfolding matches split_path template_path
match_path template escaped_path =
    matches (split_path (template_path template)) (split_path escaped_path)

-- `x - y > z` on Go's ints
abbrev exceeds : ℕ → ℕ → ℕ → Bool
exceeds x y z = ltb (y + z) x

module _ (runes : Str → List ℕ) where
  -- `withinEditDistance`
  unfoldable pub within_edit_distance : Str → Str → Bool
  unfolding edit_distance
  within_edit_distance a b =
      let ca = length (runes a) in
      let cb = length (runes b) in
      if exceeds ca cb max_edit_distance || exceeds cb ca max_edit_distance
      then false
      else leb (edit_distance (runes a) (runes b)) max_edit_distance

  -- the loop of `nearMiss`, over lists of one length: the misses, or none where it returns false
  unfoldable pub count_misses : List Str → List Str → ℕ → Option ℕ
  unfolding is_greedy seg_matches is_label within_edit_distance
  count_misses [] segs misses = some misses
  count_misses (t ∷ tpl) [] misses = none
  count_misses (t ∷ tpl) (s ∷ segs) misses =
      if is_greedy t
      then none
      else (if seg_matches t s
          then count_misses tpl segs misses
          else (if is_label t || not (within_edit_distance t s)
              then none
              else count_misses tpl segs (misses + 1)))

  -- `nearMiss`
  unfoldable pub near_miss : List Str → List Str → Bool
  unfolding count_misses
  near_miss tpl segs =
      if length tpl == length segs
      then elim (count_misses tpl segs 0) [ none ↦ false | some misses ↦ misses == 1 ]
      else false

  -- the loop of `candidateRoutes`: the routes of other methods, and the near misses
  unfoldable pub sort_routes : List Str → Str → List Route → List Route × List Route
  unfolding matches near_miss split_path template_path equal_fold
  sort_routes segs method [] = ([], [])
  sort_routes segs method (r ∷ routes) =
      let rest = sort_routes segs method routes in
      let tpl = split_path (template_path r.template) in
      let same_method = equal_fold r.method method in
      if not same_method && matches tpl segs
      then (r ∷ rest.0, rest.1)
      else (if same_method && near_miss tpl segs then (rest.0, r ∷ rest.1) else rest)

  abbrev other_or_near : List Route × List Route → List Route
  other_or_near ([], near) = near
  other_or_near (r ∷ other, near) = r ∷ other

  -- `candidateRoutes`
  unfoldable pub candidate_routes : List Route → Str → Str → List Route
  unfolding hint_path_too_long sort_routes split_path
  candidate_routes routes method escaped_path =
      if hint_path_too_long escaped_path
      then []
      else other_or_near (sort_routes (split_path escaped_path) method routes)

-- `RouteLine`
unfoldable pub route_line : Route → Str
unfolding to_upper
route_line r =
    r.operation ++ codes " (" ++ to_upper r.method ++ codes " " ++ r.template ++ codes ")"
