-- ===== src/Azure/Types.antt =====
-- internal/auth/azure/classifier.go: `resolveResourceType`, the walk over the segments at even
-- positions.
use cynative.Base.{
  ℕ, ◌+◌, ◌-◌, ◌/◌, Str, codes, Bool, if◌then◌else◌, List, [], ◌∷◌, ◌++◌, leb, any, str_eq, join,
  equal_fold, Result, ok, err,
}
use cynative.Azure.Path.{ActionError, structural_miss}

-- the variables of the loop of `resolveResourceType`
pub record Walk : Type 0 where
  pub type_parts : List Str
  pub matched : Str
  pub last_type_token : Str
  pub matched_idx : ℕ
  pub last_even_idx : ℕ

-- `known[strings.ToLower(cand)]`
unfoldable pub is_known : List Str → Str → Bool
unfolding any equal_fold
is_known types cand = any (λ t. equal_fold t cand) types

-- one round of the loop
unfoldable pub walk_step : List Str → ℕ → Str → Walk → Walk
unfolding join is_known
walk_step types i s w =
    let parts = w.type_parts ++ s ∷ [] in
    let found = is_known types (join b'/' parts) in
    record {
      type_parts = parts;
      matched = if found then join b'/' parts else w.matched;
      last_type_token = s;
      matched_idx = if found then i else w.matched_idx;
      last_even_idx = i;
    }

unfoldable pub walk : List Str → ℕ → List Str → Walk → Walk
unfolding walk_step
walk types i [] w = w
walk types i (s ∷ []) w = walk_step types i s w
walk types i (s ∷ _ ∷ rest) w = walk types (i + 2) rest (walk_step types i s w)

-- The indices start at -1 in the source, and are read only after a match has set both.
abbrev pub start : Walk
start = record {
  type_parts = [];
  matched = [];
  last_type_token = [];
  matched_idx = 0;
  last_even_idx = 0;
}

unfoldable pub max_trailing : Str → ℕ
unfolding str_eq
max_trailing method = if str_eq method (codes "POST") then 1 else 0

-- the tests after the loop
unfoldable pub check_walk : Str → Str → Walk → Result ActionError (Str × Str)
unfolding str_eq max_trailing
check_walk method namespace w =
    if str_eq w.matched []
    then err (structural_miss namespace)
    else if leb ((w.last_even_idx - w.matched_idx) / 2) (max_trailing method)
    then ok (w.matched, w.last_type_token)
    else err (structural_miss namespace)

-- `resolveResourceType` once the catalog has given the types of the namespace
unfoldable pub resolve_resource_type :
    Str → Str → List Str → List Str → Result ActionError (Str × Str)
unfolding walk check_walk
resolve_resource_type method namespace types rest =
    check_walk method namespace (walk types 0 rest start)
