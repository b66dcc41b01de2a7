-- ===== src/Exposure/Tests.antt =====
-- An operator's settings over a baseline.
use cynative.Base.{arith, Str, codes, ◌≡◌, refl, List, [], ◌∷◌, some, str_eq}
use cynative.Exposure.{level_none, level_read, level_write, Exposure, lookup, build_exposure}
use cynative.Exposure.Merge.{or_else, parsed_value, HasUniqueKeys, build_exposure_lem}

abbrev baseline : Exposure
baseline = (codes "default", level_read) ∷ (codes "secret-scanning", level_none) ∷ []

abbrev settings : List (Str × Str)
settings =
    (codes "repos", codes "write")
    ∷ (codes "default", codes "admin")
    ∷ (codes "secret-scanning", codes "read")
    ∷ []

settings-HasUniqueKeys : HasUniqueKeys settings
unfolding lookup str_eq
settings-HasUniqueKeys = ground arith

merged :
    (lookup (codes "repos") (build_exposure baseline settings) ≡ some level_write)
    × (lookup (codes "default") (build_exposure baseline settings) ≡ some level_read)
    × (lookup (codes "secret-scanning") (build_exposure baseline settings) ≡ some level_read)
unfolding build_exposure lookup
merged = (refl, refl, refl)

build_exposure_lem_example :
    lookup (codes "default") (build_exposure baseline settings)
    ≡ or_else (parsed_value (lookup (codes "default") settings)) (lookup (codes "default") baseline)
build_exposure_lem_example =
    build_exposure_lem (codes "default") baseline settings settings-HasUniqueKeys
