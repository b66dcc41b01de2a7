-- ===== src/Gcp/Sound.antt =====
-- A method that the classifier answers with is one whose template matches the request.
use mathlib.Core.List.Memᴰ
use cynative.Base.{
  Str, ◌≡◌, refl, sym, ◌⊎◌, inl, inr, Bool, true, false, if◌then◌else◌, List, [], ◌∷◌, ◌++◌, Memᴰ,
  to_upper, equal_fold, Bool-cases, ok, subst,
}
use cynative.Authreq.View.{View}
use cynative.Authreq.Path.{path_readings}
use cynative.Gcp.Template.{
  MethodDescriptor, trim_empty_edges, match_template, literals_exact, Rank, wins, loses, ties,
}
use cynative.Gcp.Classifier.{
  Tally, empty_tally, template_of, is_candidate, rank, tally_match, tally_loop, chosen, winners_of,
  classify,
}
use cynative.Gcp.Cuts.{IsSameFold, equal_fold_iff, IsSameFold-to_upper}
use cynative.Gcp.Fitting.{Matches, match_template_iff}
use cynative.Gcp.Survivors.{classify_readings_iff}

-- Every identifier that the tally holds has the property.
abbrev AllTallied : (Str → Type 0) → Tally → Type 0
AllTallied P tally = (q : Str) → Memᴰ q tally.winners ⊎ Memᴰ q tally.matched → P q

added :
    (P : Str → Type 0) (id q : Str) (ids : List Str)
    → P id
    → (Memᴰ q ids → P q)
    → Memᴰ q (ids ++ id ∷ [])
    → P q
added P id q ids p f m = elim (Memᴰ.append_cases ids m) [
  | inl k ↦ f k
  | inr k ↦ subst P (sym (Memᴰ.eq_of_singleton k)) p
]

tally_match-AllTallied :
    (P : Str → Type 0) (ts : List Str) (exact : Bool) (id : Str) (r : Rank) (tally : Tally)
    → P id
    → AllTallied P tally
    → AllTallied P (tally_match ts exact id r tally)
unfolding tally_match
tally_match-AllTallied P ts exact id wins tally p a q (inl m) =
    subst P (sym (Memᴰ.eq_of_singleton m)) p
tally_match-AllTallied P ts exact id wins tally p a q (inr m) =
    added P id q tally.matched p (λ k. a q (inr k)) m
tally_match-AllTallied P ts exact id ties tally p a q (inl m) =
    added P id q tally.winners p (λ k. a q (inl k)) m
tally_match-AllTallied P ts exact id ties tally p a q (inr m) =
    added P id q tally.matched p (λ k. a q (inr k)) m
tally_match-AllTallied P ts exact id loses tally p a q (inl m) = a q (inl m)
tally_match-AllTallied P ts exact id loses tally p a q (inr m) =
    added P id q tally.matched p (λ k. a q (inr k)) m

either-AllTallied :
    (P : Str → Type 0) (b : Bool) (x y : Tally)
    → (b ≡ true → AllTallied P x)
    → AllTallied P y
    → AllTallied P (if b then x else y)
either-AllTallied P true x y f a = f refl
either-AllTallied P false x y f a = a

tally_loop-AllTallied :
    (P : Str → Type 0) (method : Str) (req : List Str) (methods : List MethodDescriptor)
    (tally : Tally)
    → ((md : MethodDescriptor) → Memᴰ md methods → is_candidate method req md ≡ true → P md.id)
    → AllTallied P tally
    → AllTallied P (tally_loop method req methods tally)
unfolding tally_loop
tally_loop-AllTallied P method req [] tally c a = a
tally_loop-AllTallied P method req (md ∷ methods) tally c a =
    let r = rank (template_of md) tally.best tally.winners in
    let exact = literals_exact (template_of md) req in
    tally_loop-AllTallied P method req methods _ (λ x m. c x (Memᴰ.tail m))
      (either-AllTallied P (is_candidate method req md)
        (tally_match (template_of md) exact md.id r tally) tally
        (λ e.
          tally_match-AllTallied P (template_of md) exact md.id r tally (c md (Memᴰ.head refl) e) a)
        a)

-- The method `q` of the index takes the request: its descriptor has the request's HTTP method, in
-- any case, and as many segments as this reading, each of which fits.
abbrev pub Takes : List MethodDescriptor → Str → List Str → Str → Type 0
Takes methods method req q =
    (md : MethodDescriptor) × Memᴰ md methods
    × IsSameFold md.http_method method
    × Matches (template_of md) req
    × (md.id ≡ q)

if_both : (a b : Bool) → (if a then b else false) ≡ true → (a ≡ true) × (b ≡ true)
if_both true b h = (refl, h)
if_both false b h = cc h

is_candidate-both :
    (method : Str) (req : List Str) (md : MethodDescriptor)
    → is_candidate method req md ≡ true
    → (equal_fold md.http_method method ≡ true) × (match_template (template_of md) req ≡ true)
unfolding is_candidate
is_candidate-both method req md h =
    if_both (equal_fold md.http_method method) (match_template (template_of md) req) h

is_candidate-Takes :
    (method : Str) (req : List Str) (md : MethodDescriptor)
    → is_candidate method req md ≡ true
    → IsSameFold md.http_method method × Matches (template_of md) req
is_candidate-Takes method req md h =
    let (a, b) = is_candidate-both method req md h in
    ((equal_fold_iff md.http_method method).0 a, (match_template_iff (template_of md) req).0 b)

winners_of-Takes :
    (methods : List MethodDescriptor) (method : Str) (req : List Str) (q : Str)
    → Memᴰ q (winners_of methods method req)
    → Takes methods method req q
unfolding winners_of chosen
winners_of-Takes methods method req q m =
    go (tally_loop method req methods empty_tally)
      (tally_loop-AllTallied (Takes methods method req) method req methods empty_tally
        (λ md k c. let (a, b) = is_candidate-Takes method req md c in (md, k, a, b, refl))
        (λ x d. elim d [ inl k ↦ absurd (Memᴰ.not-nil k) | inr k ↦ absurd (Memᴰ.not-nil k) ]))
      m
  where
    go :
        (tally : Tally)
        → AllTallied (Takes methods method req) tally
        → Memᴰ q (if tally.folded then tally.matched else tally.winners)
        → Takes methods method req q
    go tally a k = elim (Bool-cases tally.folded) [
      | inl e ↦ a q (inr (simp e at k))
      | inr e ↦ a q (inl (simp e at k))
    ]

-- The method that `Classify` answers with is in the index. Its HTTP method is the request's, but for
-- the case of letters. Its template has as many segments as some reading of the request's path, less
-- empty ones at either end, and each fits: a placeholder takes a segment without a colon, a literal
-- takes itself in any case, and `base:verb` takes the same verb after what fits the base.
pub classify-Takes :
    (methods : List MethodDescriptor) (v : View) (id : Str)
    → classify methods v ≡ ok id
    → (segs : List Str) × Memᴰ segs (path_readings v)
      × Takes methods v.method (trim_empty_edges segs) id
unfolding classify
classify-Takes methods v id h =
    let (segs, m, k) = ((classify_readings_iff methods v (path_readings v) id).0 h).0 in
    let (md, d, a, b, e) =
      winners_of-Takes methods (to_upper v.method) (trim_empty_edges segs) id k in
    (segs, m, (md, d, IsSameFold-to_upper md.http_method v.method a, b, e))
