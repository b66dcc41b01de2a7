-- ===== src/Exposure/Merge.antt =====
-- The laws of the ceilings: what a merged map holds, and the words of the levels.
use cynative.Base.{
  Str, codes, ◌≡◌, refl, sym, ◌∙◌, ap, ap₂, ◌↔◌, Bool, true, false, if◌then◌else◌, List, [], ◌∷◌,
  Option, none, some, str_eq, str_eq_iff, Bool-cases, arith, inl, inr,
}
use cynative.Exposure.{
  Level, level_name, parse_level, lookup, insert, copy, Exposure, merge_exposure, add_parsed,
  parse_values, build_exposure,
}

module _ {ℓ} {V : Type ℓ} where
  pub lookup-insert :
      (k j : Str) (v : V) (m : List (Str × V))
      → lookup j (insert k v m) ≡ (if str_eq k j then some v else lookup j m)
  unfolding lookup insert
  lookup-insert k j v [] = refl
  lookup-insert k j v ((i, w) ∷ m) =
      ground (arith, str_eq_iff k j, str_eq_iff i k, str_eq_iff i j, lookup-insert k j v m)

  abbrev pub or_else : Option V → Option V → Option V
  or_else none d = d
  or_else (some v) d = some v

  -- The source wins, the rest of the destination stays.
  pub lookup-copy :
      (k : Str) (dst src : List (Str × V))
      → lookup k (copy dst src) ≡ or_else (lookup k src) (lookup k dst)
  unfolding lookup copy
  lookup-copy k dst [] = refl
  lookup-copy k dst ((j, v) ∷ src) = elim (Bool-cases (str_eq j k)) [
    | inl e ↦ rw (lookup-insert j k v (copy dst src)) (rw e)
    | inr e ↦ rw (lookup-insert j k v (copy dst src)) (rw e (lookup-copy k dst src))
  ]

or_else-none {ℓ} : {V : Type ℓ} (o : Option V) → or_else o none ≡ o
or_else-none none = refl
or_else-none (some v) = refl

if_same {ℓ} : {A : Type ℓ} (b : Bool) (x : A) → x ≡ (if b then x else x)
if_same true x = refl
if_same false x = refl

-- No key stands twice, as in every Go map.
abbrev pub HasUniqueKeys {ℓ} : {V : Type ℓ} → List (Str × V) → Type ℓ
HasUniqueKeys [] = Unit
HasUniqueKeys ((k, v) ∷ m) = (lookup k m ≡ none) × HasUniqueKeys m

abbrev pub parsed_value : Option Str → Option Level
parsed_value none = none
parsed_value (some v) = parse_level v

lookup-add_parsed :
    (j k : Str) (p : Option Level) (m : Exposure)
    → lookup k (add_parsed j p m) ≡ (if str_eq j k then or_else p (lookup k m) else lookup k m)
unfolding add_parsed
lookup-add_parsed j k none m = if_same (str_eq j k) (lookup k m)
lookup-add_parsed j k (some l) m = lookup-insert j k l m

lookup-parse_values :
    (k : Str) (operator : List (Str × Str))
    → HasUniqueKeys operator
    → lookup k (parse_values operator) ≡ parsed_value (lookup k operator)
unfolding parse_values lookup
lookup-parse_values k [] h = refl
lookup-parse_values k ((j, v) ∷ operator) h =
    rw (lookup-add_parsed j k (parse_level v) (parse_values operator))
      (elim (Bool-cases (str_eq j k)) [
        | inl e ↦
            let same : j ≡ k = (str_eq_iff j k).0 e in
            let gone : lookup k (parse_values operator) ≡ none =
              lookup-parse_values k operator h.1
              ∙ ap parsed_value (ap (λ i. lookup i operator) (sym same) ∙ h.0) in
            rw (e, gone) (or_else-none (parse_level v))
        | inr e ↦ rw e (lookup-parse_values k operator h.1)
      ])

-- What `BuildExposure` resolves a key to: the operator's value if it names a level, else the
-- baseline's entry.
pub build_exposure_lem :
    (k : Str) (baseline : Exposure) (operator : List (Str × Str))
    → HasUniqueKeys operator
    → lookup k (build_exposure baseline operator)
      ≡ or_else (parsed_value (lookup k operator)) (lookup k baseline)
unfolding build_exposure merge_exposure lookup
build_exposure_lem k baseline operator h =
    lookup-copy k (copy [] baseline) (parse_values operator)
    ∙ ap₂ or_else (lookup-parse_values k operator h)
        (lookup-copy k [] baseline ∙ or_else-none (lookup k baseline))

-- The words of the levels: a text parses to a level exactly when it is the name of that level.
pub parse_level_iff : (s : Str) (l : Level) → (parse_level s ≡ some l) ↔ (s ≡ level_name l)
unfolding parse_level level_name
parse_level_iff s l =
    ground (
      arith,
      str_eq_iff s (codes "none"),
      str_eq_iff s (codes "read"),
      str_eq_iff s (codes "write"),
    )
