-- ===== src/Aws/Template.antt =====
-- internal/auth/aws/classifier.go: URI templates against the segments of a path.
use cynative.Base.{
  ℕ, ◌+◌, ◌-◌, Bool, true, false, not, ◌&&◌, ◌||◌, if◌then◌else◌, leb, ◌==◌, Str, codes, List, [],
  ◌∷◌, map, length, get_elem?, none, some, str_eq, split, trim_prefix, ends_with, cut_before,
  cut_after, equal_fold, starts_with,
}

-- `splitSegments`
unfoldable pub split_segments : Str → List Str
unfolding split trim_prefix
split_segments p = elim (trim_prefix b'/' p) [ [] ↦ [] ∷ [] | ◌∷◌ c s ↦ split b'/' (c ∷ s) ]

-- `strings.HasSuffix(seg, "+}")`
unfoldable pub ends_greedy : Str → Bool
ends_greedy [] = false
ends_greedy (a ∷ []) = false
ends_greedy (a ∷ b ∷ []) = a == b'+' && b == b'}'
ends_greedy (a ∷ b ∷ c ∷ s) = ends_greedy (b ∷ c ∷ s)

-- `isSinglePlaceholder`
unfoldable pub is_single_placeholder : Str → Bool
unfolding starts_with ends_with ends_greedy
is_single_placeholder seg = starts_with b'{' seg && ends_with b'}' seg && not (ends_greedy seg)

-- `isGreedyPlaceholder`
unfoldable pub is_greedy_placeholder : Str → Bool
unfolding starts_with ends_greedy
is_greedy_placeholder seg = starts_with b'{' seg && ends_greedy seg

-- the tests of `matchSegment` on a segment that is there
unfoldable pub fits : Str → Str → Bool
unfolding is_single_placeholder str_eq
fits t p = if is_single_placeholder t then not (str_eq p []) else str_eq p t

-- `matchSegment`
unfoldable pub match_segment : Str → ℕ → List Str → Bool
unfolding fits
match_segment t i p_segs = elim (get_elem? p_segs i) [ none ↦ false | some p ↦ fits t p ]

-- the loop of `matchGreedy`, `at` being `end + j`
unfoldable pub match_suffix : List Str → ℕ → List Str → Bool
unfolding match_segment
match_suffix [] at p_segs = true
match_suffix (t ∷ suffix) at p_segs =
    match_segment t at p_segs && match_suffix suffix (at + 1) p_segs

-- whether the segment at `i` is empty
abbrev is_empty_at : List Str → ℕ → Bool
is_empty_at p_segs i = elim (get_elem? p_segs i) [ none ↦ false | some p ↦ str_eq p [] ]

-- `matchGreedy`. Go's `end` can be negative, and is then at most `i` as the 0 here is.
unfoldable pub match_greedy : List Str → List Str → ℕ → Bool
unfolding match_suffix str_eq
match_greedy suffix p_segs i =
    let end = length p_segs - length suffix in
    if leb end i || (end == i + 1 && is_empty_at p_segs i)
    then false
    else match_suffix suffix end p_segs

-- the loop of `matchURITemplate`, from the template segment at `i`
unfoldable pub match_from : List Str → ℕ → List Str → Bool
unfolding is_greedy_placeholder match_greedy match_segment
match_from [] i p_segs = length p_segs == i
match_from (t ∷ t_segs) i p_segs =
    if is_greedy_placeholder t
    then match_greedy t_segs p_segs i
    else match_segment t i p_segs && match_from t_segs (i + 1) p_segs

-- `matchURITemplate`
unfoldable pub match_uri_template : Str → List Str → Bool
unfolding split_segments match_from
match_uri_template template p_segs = match_from (split_segments template) 0 p_segs

-- `segmentKind`, in the order of its values
pub data SegmentKind : Type 0 where
  greedy_label single_label literal_segment : SegmentKind

abbrev kind_of : Str → SegmentKind
kind_of seg =
    if is_greedy_placeholder seg
    then greedy_label
    else (if is_single_placeholder seg then single_label else literal_segment)

-- `templateShape`
unfoldable pub template_shape : Str → List SegmentKind
unfolding split_segments is_greedy_placeholder is_single_placeholder
template_shape tpl_path = map kind_of (split_segments tpl_path)

-- the loop of `splitTemplateQuery`
unfoldable pub query_flags : List Str → List Str
unfolding cut_before str_eq equal_fold
query_flags [] = []
query_flags (kv ∷ kvs) =
    let rest = query_flags kvs in
    let name = cut_before b'=' kv in
    if str_eq name [] || equal_fold name (codes "x-id") then rest else name ∷ rest

-- `splitTemplateQuery`
unfoldable pub split_template_query : Str → Str × List Str
unfolding cut_before cut_after str_eq split query_flags
split_template_query uri =
    let query = cut_after b'?' uri in
    (cut_before b'?' uri, if str_eq query [] then [] else query_flags (split b'&' query))
