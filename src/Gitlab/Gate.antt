-- ===== src/Gitlab/Gate.antt =====
-- internal/auth/gitlab/policy.go, and `AuthorizeAction` of internal/auth/gitlab.go from the fetched
-- table on. The checks for smuggled credentials that precede it read headers and bodies with
-- parsers of the Go library, and are not modelled.
use cynative.Base.{
  Str, codes, Bool, true, false, ◌||◌, if◌then◌else◌, List, [], ◌∷◌, Option, none, some, all,
  str_eq, Result, ok, err, ◌>>=◌, ◌>>◌,
}
use cynative.Authreq.View.{View}
use cynative.Exposure.{
  Level, level_none, level_read, level_allows, Exposure, default_key, lookup, level_at,
  build_exposure,
}
use cynative.Gitlab.Table.{Table, knows}
use cynative.Gitlab.Classifier.{ClassifyError, classify_request}

-- the errors that this part of `AuthorizeAction` returns
pub data GateError : Type 0 where
  table_not_ready unknown_key exposure_exceeded : GateError
  unclassifiable : ClassifyError → GateError

-- `ciVariablesKey`
abbrev pub ci_variables_key : Str
ci_variables_key = codes "ci-variables"

-- `BaselineExposure`
abbrev pub baseline_exposure : Exposure
baseline_exposure = (default_key, level_read) ∷ (ci_variables_key, level_none) ∷ []

-- `BuildExposure` of the package
unfoldable pub build_gitlab_exposure : List (Str × Str) → Exposure
unfolding build_exposure
build_gitlab_exposure operator = build_exposure baseline_exposure operator

-- `Resolve`
unfoldable pub resolve : Exposure → Str → Level
unfolding lookup level_at
resolve e category = elim (lookup category e) [ none ↦ level_at e default_key | some l ↦ l ]

-- `ValidateExposureKeys`: the loop over the keys
unfoldable pub valid_key : Table → Str → Bool
unfolding str_eq knows
valid_key t key =
    if str_eq key default_key || str_eq key ci_variables_key then true else knows t key

unfoldable pub valid_keys : Exposure → Table → Bool
unfolding all valid_key
valid_keys e t = all (λ (entry : Str × Level). valid_key t entry.0) e

unfoldable pub or_unclassifiable {ℓ} : {A : Type ℓ} → Result ClassifyError A → Result GateError A
or_unclassifiable (ok a) = ok a
or_unclassifiable (err e) = err (unclassifiable e)

unfoldable pub require : Bool → GateError → Result GateError (Unit {0})
require true e = ok tt
require false e = err e

unfoldable pub ready : Option Table → Result GateError Table
ready none = err table_not_ready
ready (some t) = ok t

-- `AuthorizeAction`, from the fetched table on
unfoldable pub authorize_table : Exposure → Option Table → View → Result GateError (Unit {0})
unfolding ready require valid_keys or_unclassifiable classify_request resolve level_allows
authorize_table e tables v = do
  t ← ready tables
  require (valid_keys e t) unknown_key
  access ← or_unclassifiable (classify_request t v.method v.escaped_path)
  require (level_allows (resolve e access.category) access.level) exposure_exceeded
