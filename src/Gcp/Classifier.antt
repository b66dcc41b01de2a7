-- ===== src/Gcp/Classifier.antt =====
-- internal/auth/gcp/classifier.go: `Classify` and `ClassifyAsSent`. The index is the list of its
-- descriptors in the order of its sorted keys.
use cynative.Base.{
  Str, Bool, false, ◌||◌, not, if◌then◌else◌, List, [], ◌∷◌, ◌++◌, contains, to_upper, equal_fold,
  Result, ok, err,
}
use cynative.Authreq.View.{View}
use cynative.Authreq.Path.{path_readings, wire_readings}
use cynative.Gcp.Template.{
  MethodDescriptor, split_segments, effective_template, trim_empty_edges, match_template,
  literals_exact, Rank, wins, loses, ties, more_specific,
}

-- the errors under `ErrClassifierUnknownOp`; `unmatched` is an `UnmatchedRequestError`
pub data ClassifyError : Type 0 where
  unmatched ambiguous : ClassifyError

-- the variables of the first loop of `appendSurvivors`
pub record Tally : Type 0 where
  pub best : List Str
  pub winners : List Str
  pub matched : List Str
  pub folded : Bool

abbrev pub empty_tally : Tally
empty_tally = record { best = []; winners = []; matched = []; folded = false }

-- the segments of the template
unfoldable pub template_of : MethodDescriptor → List Str
unfolding split_segments effective_template
template_of md = split_segments (effective_template md)

-- the two tests that skip a method
unfoldable pub is_candidate : Str → List Str → MethodDescriptor → Bool
unfolding equal_fold template_of match_template
is_candidate method req md =
    if equal_fold md.http_method method then match_template (template_of md) req else false

-- `rank`: `winners` is nil until the first match
unfoldable pub rank : List Str → List Str → List Str → Rank
unfolding more_specific
rank ts best [] = wins
rank ts best (_ ∷ _) = more_specific ts best

-- the `switch`
unfoldable pub tally_match : List Str → Bool → Str → Rank → Tally → Tally
tally_match ts exact id wins tally = record {
  best = ts;
  winners = id ∷ [];
  matched = tally.matched ++ id ∷ [];
  folded = tally.folded || not exact;
}
tally_match ts exact id ties tally = record {
  best = tally.best;
  winners = tally.winners ++ id ∷ [];
  matched = tally.matched ++ id ∷ [];
  folded = tally.folded || not exact;
}
tally_match ts exact id loses tally = record {
  best = tally.best;
  winners = tally.winners;
  matched = tally.matched ++ id ∷ [];
  folded = tally.folded || not exact;
}

-- the first loop of `appendSurvivors`
unfoldable pub tally_loop : Str → List Str → List MethodDescriptor → Tally → Tally
unfolding is_candidate tally_match rank literals_exact template_of
tally_loop method req [] tally = tally
tally_loop method req (md ∷ methods) tally = tally_loop method req methods (
    if is_candidate method req md
    then tally_match (template_of md) (literals_exact (template_of md) req) md.id
        (rank (template_of md) tally.best tally.winners) tally
    else tally)

-- the methods that one reading names
unfoldable pub chosen : Tally → List Str
chosen tally = if tally.folded then tally.matched else tally.winners

unfoldable pub winners_of : List MethodDescriptor → Str → List Str → List Str
unfolding tally_loop chosen
winners_of methods method req = chosen (tally_loop method req methods empty_tally)

-- the second loop of `appendSurvivors`; `seen` holds exactly the survivors so far
unfoldable pub append_new : List Str → List Str → List Str
unfolding contains
append_new survivors [] = survivors
append_new survivors (id ∷ ids) =
    append_new (if contains survivors id then survivors else survivors ++ id ∷ []) ids

-- `appendSurvivors`
unfoldable pub append_survivors : List MethodDescriptor → Str → List Str → List Str → List Str
unfolding append_new winners_of
append_survivors methods method req survivors = append_new survivors (winners_of methods method req)

-- the loop of `classify`
unfoldable pub readings_loop : List MethodDescriptor → Str → List (List Str) → List Str → List Str
unfolding append_survivors trim_empty_edges
readings_loop methods method [] survivors = survivors
readings_loop methods method (segs ∷ readings) survivors =
    readings_loop methods method readings
      (append_survivors methods method (trim_empty_edges segs) survivors)

-- the `switch` of `classify`
unfoldable pub sole : List Str → Result ClassifyError Str
sole [] = err unmatched
sole (id ∷ []) = ok id
sole (_ ∷ _ ∷ _) = err ambiguous

-- `classify`
unfoldable pub classify_readings :
    List MethodDescriptor → View → List (List Str) → Result ClassifyError Str
unfolding to_upper readings_loop sole
classify_readings methods v readings = sole (readings_loop methods (to_upper v.method) readings [])

-- `Classify`
unfoldable pub classify : List MethodDescriptor → View → Result ClassifyError Str
unfolding classify_readings path_readings
classify methods v = classify_readings methods v (path_readings v)

-- `ClassifyAsSent`
unfoldable pub classify_as_sent : List MethodDescriptor → View → Result ClassifyError Str
unfolding classify_readings wire_readings
classify_as_sent methods v = classify_readings methods v (wire_readings v)
