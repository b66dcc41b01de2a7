-- ===== src/Github/Policy.antt =====
-- internal/auth/github/policy.go and sensitive.go: the ceilings of the categories, and the
-- admission of a table.
use cynative.Base.{
  Str, codes, Bool, true, ◌&&◌, ◌||◌, not, if◌then◌else◌, List, [], ◌∷◌, ◌++◌, none, some, any, all,
  str_eq, contains, join,
}
use cynative.Exposure.{
  Level, level_none, level_read, Exposure, default_key, lookup, level_at, build_exposure,
}
use cynative.Github.Table.{Templ, Table, split_path, knows, routes}

-- `secretScanningKey`
abbrev pub secret_scanning_key : Str
secret_scanning_key = codes "secret-scanning"

-- `BaselineExposure`
abbrev pub baseline_exposure : Exposure
baseline_exposure = (default_key, level_read) ∷ (secret_scanning_key, level_none) ∷ []

-- `BuildExposure` of the package
unfoldable pub build_github_exposure : List (Str × Str) → Exposure
unfolding build_exposure
build_github_exposure operator = build_exposure baseline_exposure operator

-- the last two lookups of `Resolve`
unfoldable pub resolve_category : Exposure → Str → Level
unfolding lookup level_at
resolve_category e category = elim (lookup category e) [
  | none ↦ level_at e default_key
  | some l ↦ l
]

-- `Resolve`
unfoldable pub resolve : Exposure → Str → Str → Level
unfolding resolve_category lookup
resolve e category [] = resolve_category e category
resolve e category (c ∷ sub) = elim (lookup (category ++ b'/' ∷ c ∷ sub) e) [
  | none ↦ resolve_category e category
  | some l ↦ l
]

-- `ValidateExposureKeys`: the loop over the keys
valid_key : Table → Str → Bool
unfolding str_eq knows
valid_key t key =
    if str_eq key default_key || str_eq key secret_scanning_key then true else knows t key

unfoldable pub valid_keys : Exposure → Table → Bool
unfolding all valid_key
valid_keys e t = all (λ (entry : Str × Level). valid_key t entry.0) e

-- `hasSegment`
unfoldable pub has_segment : Str → Str → Bool
unfolding contains split_path
has_segment path seg = contains (split_path path) seg

-- the test of one template and one pattern in `AdmitTable`; the one sensitive pattern is the
-- secret-scanning family
unfoldable pub downgrades : Templ → Bool
unfolding has_segment join str_eq
downgrades tm =
    has_segment (b'/' ∷ join b'/' tm.segments) secret_scanning_key
    && not (str_eq tm.route.category secret_scanning_key)

-- `AdmitTable`; false is `ErrTableRejected`
unfoldable pub admit_table : Table → Bool
unfolding any downgrades routes
admit_table t = not (any downgrades (routes t))
