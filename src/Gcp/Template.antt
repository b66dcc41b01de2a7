-- ===== src/Gcp/Template.antt =====
-- internal/auth/gcp/classifier.go: path templates, their custom verbs, and how specific they are.
use cynative.Base.{
  Str, Bool, true, false, ◌&&◌, ◌||◌, not, if◌then◌else◌, List, [], ◌∷◌, ◌++◌, ◌==◌, length, str_eq,
  any, split, trim, trim_prefix, trim_suffix, cut_before, cut_after, starts_with, ends_with,
  equal_fold,
}

-- `MethodDescriptor`: the fields that the classifier reads
pub record MethodDescriptor : Type 0 where
  pub id : Str
  pub http_method : Str
  pub service_path : Str
  pub flat_path : Str
  pub path : Str

-- `isPlaceholder`
unfoldable pub is_placeholder : Str → Bool
unfolding starts_with ends_with
is_placeholder seg = starts_with b'{' seg && ends_with b'}' seg

-- `segmentBase`
unfoldable pub segment_base : Str → Str
unfolding cut_before
segment_base seg = cut_before b':' seg

-- `strings.Contains(seg, ":")`
unfoldable pub has_colon : Str → Bool
unfolding any
has_colon seg = any (λ c. c == b':') seg

-- `splitSegments`
unfoldable pub split_segments : Str → List Str
unfolding split
split_segments [] = []
split_segments (c ∷ p) = split b'/' (c ∷ p)

-- `effectiveTemplate`
unfoldable pub relative_path : Str → Str → Str
relative_path [] path = path
relative_path (c ∷ flat) path = c ∷ flat

unfoldable pub effective_template : MethodDescriptor → Str
unfolding relative_path trim trim_suffix trim_prefix
effective_template md = trim b'/' (
    trim_suffix md.service_path (b'/' ∷ [])
    ++ b'/' ∷ trim_prefix b'/' (relative_path md.flat_path md.path))

-- `trimEmptyEdges`
unfoldable pub trim_front : List Str → List Str
trim_front [] = []
trim_front ([] ∷ segs) = trim_front segs
trim_front ((c ∷ s) ∷ segs) = (c ∷ s) ∷ segs

keep_segment : Str → List Str → List Str
keep_segment seg (next ∷ segs) = seg ∷ next ∷ segs
keep_segment [] [] = []
keep_segment (c ∷ s) [] = (c ∷ s) ∷ []

unfoldable pub trim_back : List Str → List Str
unfolding keep_segment
trim_back [] = []
trim_back (seg ∷ segs) = keep_segment seg (trim_back segs)

unfoldable pub trim_empty_edges : List Str → List Str
unfolding trim_front trim_back
trim_empty_edges segs = trim_back (trim_front segs)

-- `segmentEqual`
unfoldable pub segment_equal : Str → Str → Bool
unfolding has_colon cut_before cut_after str_eq is_placeholder equal_fold
segment_equal t r =
    if has_colon t
    then str_eq (cut_after b':' t) (cut_after b':' r)
      && (is_placeholder (cut_before b':' t) || equal_fold (cut_before b':' t) (cut_before b':' r))
    else equal_fold t r

-- the test of one segment in `matchTemplate`
unfoldable pub fits : Str → Str → Bool
unfolding is_placeholder has_colon segment_equal
fits t r = if is_placeholder t then not (has_colon r) else segment_equal t r

-- `matchTemplate`: the test of the lengths, and the loop
unfoldable pub template_loop : List Str → List Str → Bool
unfolding fits
template_loop (t ∷ ts) (r ∷ rs) = fits t r && template_loop ts rs
template_loop _ _ = true

unfoldable pub match_template : List Str → List Str → Bool
unfolding template_loop
match_template ts rs = if length ts == length rs then template_loop ts rs else false

-- `literalsExact`, on lists of one length
unfoldable pub literals_exact : List Str → List Str → Bool
unfolding segment_base is_placeholder str_eq
literals_exact (t ∷ ts) (r ∷ rs) =
    (is_placeholder (segment_base t) || str_eq (segment_base t) (segment_base r))
    && literals_exact ts rs
literals_exact _ _ = true

-- the three answers of `moreSpecific`: 1, -1 and 0
pub data Rank : Type 0 where
  wins loses ties : Rank

unfoldable pub rank_of : Bool → Bool → Rank → Rank
rank_of true false rest = wins
rank_of false true rest = loses
rank_of _ _ rest = rest

-- `moreSpecific`, on lists of one length
unfoldable pub more_specific : List Str → List Str → Rank
unfolding segment_base is_placeholder rank_of
more_specific (a ∷ rest) (b ∷ others) =
    rank_of (not (is_placeholder (segment_base a))) (not (is_placeholder (segment_base b)))
      (more_specific rest others)
more_specific _ _ = ties
