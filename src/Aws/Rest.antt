-- ===== src/Aws/Rest.antt =====
-- internal/auth/aws/classifier.go: the operations of a model that a REST request matches.
use cynative.Base.{
  ℕ, ◌+◌, Bool, not, ◌||◌, if◌then◌else◌, ltb, Str, codes, List, [], ◌∷◌, ◌++◌, Option, none, some,
  str_eq, to_upper, equal_fold,
}
use cynative.Authreq.View.{View}
use cynative.Aws.Model.{Operation, ServiceModel, ParsedHost, has_key}
use cynative.Aws.Template.{
  SegmentKind, greedy_label, single_label, literal_segment, match_uri_template, template_shape,
  split_template_query,
}

-- What the gate reads of a request: the view, `Header.Get`, and `url.ParseQuery`, whose second result
-- says whether it failed.
pub record Request : Type 0 where
  pub view : View
  pub header_get : Str → Str
  pub parse_query : Str → List (Str × List Str) × Bool

-- `vhostBucketPlaceholder`
abbrev pub vhost_bucket_placeholder : Str
vhost_bucket_placeholder = codes "_cynative_vhost_bucket_"

-- `classificationSegments`
abbrev with_bucket : List Str → List Str
with_bucket ([] ∷ []) = vhost_bucket_placeholder ∷ []
with_bucket segs = vhost_bucket_placeholder ∷ segs

unfoldable pub classification_segments : ParsedHost → List Str → List Str
classification_segments parsed segs = if parsed.bucket_in_host then with_bucket segs else segs

-- `candidate`
pub record Candidate : Type 0 where
  pub name : Str
  pub shape : List SegmentKind
  pub score : ℕ

abbrev rank_of : SegmentKind → ℕ
rank_of greedy_label = 0
rank_of single_label = 1
rank_of literal_segment = 2

-- The result of a comparison: below, at or above 0.
pub data Order : Type 0 where
  below same above : Order

abbrev pub compare_nat : ℕ → ℕ → Order
compare_nat a b = if ltb a b then below else (if ltb b a then above else same)

abbrev or_else : Order → Order → Order
or_else same o = o
or_else below o = below
or_else above o = above

-- `slices.Compare`
unfoldable pub compare_shapes : List SegmentKind → List SegmentKind → Order
compare_shapes [] [] = same
compare_shapes [] (b ∷ bs) = below
compare_shapes (a ∷ as') [] = above
compare_shapes (a ∷ as') (b ∷ bs) =
    or_else (compare_nat (rank_of a) (rank_of b)) (compare_shapes as' bs)

-- `compareCandidates`
unfoldable pub compare_candidates : Candidate → Candidate → Order
unfolding compare_shapes
compare_candidates a b = or_else (compare_shapes a.shape b.shape) (compare_nat a.score b.score)

-- one round of the loop of `topCandidates`
abbrev pub keep_top : Candidate → Candidate → List Str → Order → Candidate × List Str
keep_top h best ops above = (h, h.name ∷ [])
keep_top h best ops same = (best, ops ++ h.name ∷ [])
keep_top h best ops below = (best, ops)

unfoldable pub top_loop : List Candidate → Candidate → List Str → List Str
unfolding compare_candidates
top_loop [] best ops = ops
top_loop (h ∷ hits) best ops =
    let next = keep_top h best ops (compare_candidates h best) in top_loop hits next.0 next.1

-- `topCandidates`, on the first hit and the others
unfoldable pub top_candidates : Candidate → List Candidate → List Str
unfolding top_loop
top_candidates first rest = top_loop rest first (first.name ∷ [])

-- the loops of `scoreDiscriminators`: none where one returns false
unfoldable pub count_query : List (Str × List Str) → List Str → ℕ → Option ℕ
count_query q [] score = some score
count_query q (flag ∷ flags) score =
    let rest = count_query q flags (score + 1) in if has_key q flag then rest else none

unfoldable pub count_header : (Str → Str) → List Str → ℕ → Option ℕ
unfolding str_eq
count_header get [] score = some score
count_header get (h ∷ hs) score =
    let rest = count_header get hs (score + 1) in if str_eq (get h) [] then none else rest

-- `scoreDiscriminators`
unfoldable pub score_discriminators :
    Operation → List Str → List (Str × List Str) → (Str → Str) → Option ℕ
unfolding count_query count_header
score_discriminators op tpl_query req_query get = elim (count_query req_query tpl_query 0) [
  | none ↦ none
  | some a ↦ elim (count_query req_query op.required_query a) [
    | none ↦ none
    | some b ↦ count_header get op.required_header b
  ]
]

-- the body of the loop of `classifyREST` on one operation: none where it continues
unfoldable pub hit_of : Request → Str → List Str → Str × Operation → Option Candidate
unfolding str_eq equal_fold split_template_query match_uri_template score_discriminators
    template_shape
hit_of r method p_segs entry =
    let op = entry.1 in
    let tpl = split_template_query op.uri_template in
    if str_eq op.http_method [] || not (equal_fold op.http_method method)
    then none
    else (if match_uri_template tpl.0 p_segs
        then elim (score_discriminators op tpl.1 (r.parse_query r.view.raw_query).0 r.header_get) [
          | none ↦ none
          | some n ↦ some (record { name = entry.0; shape = template_shape tpl.0; score = n })
        ]
        else none)

abbrev add_hit : Option Candidate → List Candidate → List Candidate
add_hit none hits = hits
add_hit (some c) hits = c ∷ hits

unfoldable pub hits_of : Request → Str → List Str → List (Str × Operation) → List Candidate
unfolding hit_of
hits_of r method p_segs [] = []
hits_of r method p_segs (entry ∷ ops) =
    add_hit (hit_of r method p_segs entry) (hits_of r method p_segs ops)

abbrev pub top_of : List Candidate → Option (List Str)
top_of [] = none
top_of (first ∷ rest) = some (top_candidates first rest)

-- `classifyREST`: none for its one error
unfoldable pub classify_rest : ServiceModel → Request → List Str → Option (List Str)
unfolding to_upper hits_of top_candidates
classify_rest model r p_segs = top_of (hits_of r (to_upper r.view.method) p_segs model.operations)
