-- ===== src/Azure/Namespace.antt =====
-- The namespace that `resolveNamespace` selects.
use cynative.Base.{
  Str, ◌≡◌, refl, ap, ◌∙◌, ◌↔◌, inl, inr, true, false, if◌then◌else◌, List, [], ◌∷◌, ◌++◌, Option,
  none, some, All, Bool-cases, equal_fold, subst,
}
use cynative.Azure.Path.{seg_providers, after_last, with_resource, resolve_namespace}

-- No segment of the list reads providers.
abbrev pub HasNoProviders : List Str → Type 0
HasNoProviders = All (λ s. equal_fold s seg_providers ≡ false)

abbrev Marked : List Str → List Str → Type 0
Marked segs rest =
    (before : List Str) × (p : Str) × (segs ≡ before ++ p ∷ rest)
    × (equal_fold p seg_providers ≡ true)
    × HasNoProviders rest

after_last-none : (segs : List Str) → after_last segs ≡ none → HasNoProviders segs
unfolding after_last
after_last-none [] h = tt
after_last-none (s ∷ segs) h = go (after_last segs) (after_last-none segs) h
  where
    go :
        (o : Option (List Str))
        → (o ≡ none → HasNoProviders segs)
        → (elim o [
          | none ↦ if equal_fold s seg_providers then some segs else none
          | some rest ↦ some rest
        ])
          ≡ none
        → HasNoProviders (s ∷ segs)
    go (some r) e k = cc k
    go none e k = elim (Bool-cases (equal_fold s seg_providers)) [
      | inl f ↦ cc (rw f at k)
      | inr f ↦ (f, e refl)
    ]

after_last-Marked : (segs rest : List Str) → after_last segs ≡ some rest → Marked segs rest
unfolding after_last
after_last-Marked [] rest h = cc h
after_last-Marked (s ∷ segs) rest h = go (after_last segs) refl (after_last-Marked segs rest) h
  where
    go :
        (o : Option (List Str))
        → after_last segs ≡ o
        → (after_last segs ≡ some rest → Marked segs rest)
        → (elim o [
          | none ↦ if equal_fold s seg_providers then some segs else none
          | some r ↦ some r
        ])
          ≡ some rest
        → Marked (s ∷ segs) rest
    go (some r) e ih k =
        let (before, p, q, f, n) = ih (e ∙ k) in (s ∷ before, p, ap (λ l. s ∷ l) q, f, n)
    go none e ih k = elim (Bool-cases (equal_fold s seg_providers)) [
      | inr f ↦ cc (rw f at k)
      | inl f ↦
          let same : segs ≡ rest = cc (rw f at k) in
          ([], s, ap (λ l. s ∷ l) same, f, subst HasNoProviders same (after_last-none segs e))
    ]

none-after_last : (segs : List Str) → HasNoProviders segs → after_last segs ≡ none
unfolding after_last
none-after_last [] h = refl
none-after_last (s ∷ segs) h = rw (none-after_last segs h.1, h.0)

marked-after_last :
    (before rest : List Str) (p : Str)
    → equal_fold p seg_providers ≡ true
    → HasNoProviders rest
    → after_last (before ++ p ∷ rest) ≡ some rest
unfolding after_last
marked-after_last [] rest p f n = rw (none-after_last rest n, f)
marked-after_last (s ∷ before) rest p f n = rw (marked-after_last before rest p f n)

with_resource_iff :
    (o : Option (List Str)) (namespace r : Str) (rest : List Str)
    → (with_resource o ≡ some (namespace, r ∷ rest)) ↔ (o ≡ some (namespace ∷ r ∷ rest))
unfolding with_resource
with_resource_iff none ns r rest = (λ h. cc h, λ h. cc h)
with_resource_iff (some []) ns r rest = (λ h. cc h, λ h. cc h)
with_resource_iff (some (a ∷ [])) ns r rest = (λ h. cc h, λ h. cc h)
with_resource_iff (some (a ∷ b ∷ l)) ns r rest = (λ h. cc h, λ h. cc h)

-- A path has a namespace and a resource exactly if they follow a segment that reads providers, and
-- no segment from there on reads providers again.
pub resolve_namespace_iff :
    (segs : List Str) (namespace r : Str) (rest : List Str)
    → (resolve_namespace segs ≡ some (namespace, r ∷ rest)) ↔ (
        (before : List Str) × (p : Str) × (segs ≡ before ++ p ∷ namespace ∷ r ∷ rest)
        × (equal_fold p seg_providers ≡ true)
        × HasNoProviders (namespace ∷ r ∷ rest))
unfolding resolve_namespace
resolve_namespace_iff segs ns r rest =
    let e = with_resource_iff (after_last segs) ns r rest in
    (
      λ h. after_last-Marked segs (ns ∷ r ∷ rest) (e.0 h),
      λ (before, p, q, f, n).
          e.1 (ap after_last q ∙ marked-after_last before (ns ∷ r ∷ rest) p f n),
    )
