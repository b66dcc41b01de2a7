-- ===== src/Exposure.antt =====
-- internal/auth/exposure/exposure.go: the access levels and the map of ceilings that the GitHub and
-- GitLab gates share.
pub mod Merge
mod Tests
use cynative.Base.{
  ℕ, Str, codes, Bool, if◌then◌else◌, List, [], ◌∷◌, Option, none, some, str_eq, leb,
}

-- `Level`
pub data Level : Type 0 where
  level_none level_read level_write : Level

-- the `iota` values
abbrev pub rank : Level → ℕ
rank level_none = 0
rank level_read = 1
rank level_write = 2

-- `DefaultKey`
abbrev pub default_key : Str
default_key = codes "default"

-- `LevelName`
unfoldable pub level_name : Level → Str
level_name level_write = codes "write"
level_name level_read = codes "read"
level_name level_none = codes "none"

-- `ParseLevel`; `none` is `ErrInvalidLevel`
unfoldable pub parse_level : Str → Option Level
unfolding str_eq
parse_level s =
    if str_eq s (codes "none")
    then some level_none
    else if str_eq s (codes "read")
    then some level_read
    else if str_eq s (codes "write")
    then some level_write
    else none

-- `Allows`
unfoldable pub level_allows : Level → Level → Bool
level_allows ceiling required = leb (rank required) (rank ceiling)

-- A Go map as an association list: the first entry of a key counts.
module _ {ℓ} {V : Type ℓ} where
  unfoldable pub lookup : Str → List (Str × V) → Option V
  lookup k [] = none
  lookup k ((j, v) ∷ m) = if str_eq j k then some v else lookup k m

  -- `m[k] = v`
  unfoldable pub insert : Str → V → List (Str × V) → List (Str × V)
  insert k v [] = (k, v) ∷ []
  insert k v ((j, w) ∷ m) = if str_eq j k then (k, v) ∷ m else (j, w) ∷ insert k v m

  -- `maps.Copy(dst, src)`
  unfoldable pub copy : List (Str × V) → List (Str × V) → List (Str × V)
  unfolding insert
  copy dst [] = dst
  copy dst ((k, v) ∷ src) = insert k v (copy dst src)

-- `Exposure`
abbrev pub Exposure : Type 0
Exposure = List (Str × Level)

-- `e[key]`: a missing key reads as the zero value
unfoldable pub level_at : Exposure → Str → Level
unfolding lookup
level_at e key = elim (lookup key e) [ none ↦ level_none | some l ↦ l ]

-- `MergeExposure`
unfoldable pub merge_exposure : Exposure → Exposure → Exposure
unfolding copy
merge_exposure baseline operator = copy (copy [] baseline) operator

-- the loop of `BuildExposure`: a value that does not parse is skipped
unfoldable pub add_parsed : Str → Option Level → Exposure → Exposure
unfolding insert
add_parsed k none parsed = parsed
add_parsed k (some l) parsed = insert k l parsed

unfoldable pub parse_values : List (Str × Str) → Exposure
unfolding add_parsed
parse_values [] = []
parse_values ((k, v) ∷ operator) = add_parsed k (parse_level v) (parse_values operator)

-- `BuildExposure`
unfoldable pub build_exposure : Exposure → List (Str × Str) → Exposure
unfolding parse_values merge_exposure parse_level
build_exposure baseline operator = merge_exposure baseline (parse_values operator)
