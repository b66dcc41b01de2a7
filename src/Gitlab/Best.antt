-- ===== src/Gitlab/Best.antt =====
-- The loop of `Lookup` in internal/auth/gitlab/table.go finds the first best template.
use mathlib.Core.List.Memᴰ
use cynative.Base.{
  ℕ, ◌≤◌, ◌<◌, Str, ◌≡◌, refl, sym, ap, ◌∙◌, ◌↔◌, inl, inr, true, false, List, [], ◌∷◌, ◌++◌,
  append_assoc, append-nil, Option, none, some, ltb, arith, Bool-cases, Option-cases, subst, Memᴰ,
}
use cynative.Gitlab.Table.{
  Route, Templ, Table, match_template, better, best_loop, chosen_route, templates, lookup_route,
  decode_segs, strip_last, is_anchored,
}
use cynative.Gitlab.Matching.{
  Fits, params, match_score_iff, IsFirstBest, Inv, IsFirstBest-more, IsFirstBest-new,
  IsFirstBest-least,
}

misses :
    (req : List Str) (tm : Templ) → match_template tm.segments req ≡ none → ¬ Fits tm.segments req
misses req tm e f =
    let q = (match_score_iff tm.segments req (params tm.segments)).1 (f, refl) in cc (e, q)

Inv-misses :
    (req : List Str) (seen : List Templ) (tm : Templ) (best : Option (Templ × ℕ))
    → ¬ Fits tm.segments req
    → Inv req seen best
    → Inv req (seen ++ tm ∷ []) best
Inv-misses req seen tm none n i = λ y m f. elim (Memᴰ.append_cases seen m) [
  | inl k ↦ i y k f
  | inr k ↦ n (subst (λ z. Fits z.segments req) (Memᴰ.eq_of_singleton k) f)
]
Inv-misses req seen tm (some (x, low)) n (b, s) =
    (IsFirstBest-more req seen x tm b (λ f. absurd (n f)), s)

Inv-fits :
    (req : List Str) (seen : List Templ) (tm : Templ) (score : ℕ) (best : Option (Templ × ℕ))
    → Fits tm.segments req
    → params tm.segments ≡ score
    → Inv req seen best
    → Inv req (seen ++ tm ∷ []) (better tm (some score) best)
unfolding better
Inv-fits req seen tm score none f p i =
    (IsFirstBest-new req seen tm f (λ y m g. absurd (i y m g)), sym p)
Inv-fits req seen tm score (some (x, low)) f p (b, s) = elim (Bool-cases (ltb score low)) [
  | inl e ↦ rw e (
    IsFirstBest-new req seen tm f
        (λ y m g. omega (arith, IsFirstBest-least req seen x b y m g, below score low e)),
    sym p,
  )
  | inr e ↦ rw e (IsFirstBest-more req seen x tm b (λ _. omega (arith, above score low e)), s)
]
  where
    below : (m n : ℕ) → ltb m n ≡ true → m < n
    below m n h = ground arith

    above : (m n : ℕ) → ltb m n ≡ false → n ≤ m
    above m n h = ground arith

Inv-better :
    (req : List Str) (seen : List Templ) (tm : Templ) (best : Option (Templ × ℕ))
    → Inv req seen best
    → Inv req (seen ++ tm ∷ []) (better tm (match_template tm.segments req) best)
unfolding better
Inv-better req seen tm best i = elim (Option-cases (match_template tm.segments req)) [
  | inl e ↦ rw e (Inv-misses req seen tm best (misses req tm e) i)
  | inr (score, e) ↦
      let (f, p) = (match_score_iff tm.segments req score).0 e in
      rw e (Inv-fits req seen tm score best f p i)
]

Inv-loop :
    (req : List Str) (seen tmpls : List Templ) (best : Option (Templ × ℕ))
    → Inv req seen best
    → Inv req (seen ++ tmpls) (best_loop req tmpls best)
unfolding best_loop
Inv-loop req seen [] best i = subst (λ s. Inv req s best) (sym (append-nil seen)) i
Inv-loop req seen (tm ∷ tmpls) best i =
    subst (λ s. Inv req s (best_loop req tmpls (better tm (match_template tm.segments req) best)))
      (append_assoc seen (tm ∷ []) tmpls)
      (Inv-loop req (seen ++ tm ∷ []) tmpls (better tm (match_template tm.segments req) best)
        (Inv-better req seen tm best i))

-- Two first best templates are the same.
first_unique :
    (b a b' a' : List Templ) (x x' : Templ)
    → b ++ x ∷ a ≡ b' ++ x' ∷ a'
    → ((y : Templ) → Memᴰ y (b ++ x ∷ a) → y ≡ x' → params x.segments ≤ params y.segments)
    → ((y : Templ) → Memᴰ y (b' ++ x' ∷ a') → y ≡ x → params x'.segments ≤ params y.segments)
    → ((y : Templ) → Memᴰ y b → y ≡ x' → params x.segments < params y.segments)
    → ((y : Templ) → Memᴰ y b' → y ≡ x → params x'.segments < params y.segments)
    → x ≡ x'
first_unique [] a [] a' x x' e l l' s s' = cc e
first_unique [] a (c ∷ b') a' x x' e l l' s s' =
    let head : c ≡ x = cc e in
    let tail : Memᴰ x' (x ∷ a) =
      subst (Memᴰ x') (sym e) (Memᴰ.tail (Memᴰ.append_right b' (Memᴰ.head refl))) in
    let p = l x' tail refl in
    let q = s' c (Memᴰ.head refl) head in
    absurd (omega (arith, p, q, ap (λ z. params z.segments) head))
first_unique (c ∷ b) a [] a' x x' e l l' s s' =
    let head : c ≡ x' = cc e in
    let tail : Memᴰ x (x' ∷ a') =
      subst (Memᴰ x) e (Memᴰ.tail (Memᴰ.append_right b (Memᴰ.head refl))) in
    let p = l' x tail refl in
    let q = s c (Memᴰ.head refl) head in
    absurd (omega (arith, p, q, ap (λ z. params z.segments) head))
first_unique (c ∷ b) a (c' ∷ b') a' x x' e l l' s s' =
    first_unique b a b' a' x x' (cc e) (λ y m. l y (Memᴰ.tail m)) (λ y m. l' y (Memᴰ.tail m))
      (λ y m. s y (Memᴰ.tail m)) (λ y m. s' y (Memᴰ.tail m))

IsFirstBest-unique :
    (tmpls : List Templ) (req : List Str) (x x' : Templ)
    → IsFirstBest tmpls req x
    → IsFirstBest tmpls req x'
    → x ≡ x'
IsFirstBest-unique tmpls req x x' b b' =
    first_unique b.before b.after b'.before b'.after x x' (sym b.listed ∙ b'.listed)
      (λ y m e.
        IsFirstBest-least req tmpls x b y (subst (Memᴰ y) (sym b.listed) m)
          (subst (λ z. Fits z.segments req) (sym e) b'.fits))
      (λ y m e.
        IsFirstBest-least req tmpls x' b' y (subst (Memᴰ y) (sym b'.listed) m)
          (subst (λ z. Fits z.segments req) (sym e) b.fits))
      (λ y m e. b.least_before y m (subst (λ z. Fits z.segments req) (sym e) b'.fits))
      (λ y m e. b'.least_before y m (subst (λ z. Fits z.segments req) (sym e) b.fits))

-- The route of the first best template.
abbrev pub IsChosen : List Templ → List Str → Route → Type 0
IsChosen tmpls req r = (x : Templ) × IsFirstBest tmpls req x × (x.route ≡ r)

chosen_route_iff :
    (tmpls : List Templ) (req : List Str) (best : Option (Templ × ℕ)) (r : Route)
    → Inv req tmpls best
    → (chosen_route best ≡ some r) ↔ IsChosen tmpls req r
unfolding chosen_route
chosen_route_iff tmpls req none r i = (
  λ h. cc h,
  λ (x, b, e).
      absurd
        (i x (subst (Memᴰ x) (sym b.listed) (Memᴰ.append_right b.before (Memᴰ.head refl))) b.fits),
)
chosen_route_iff tmpls req (some (top, low)) r (b, s) = (
  λ h. (top, b, cc h),
  λ (x, c, e). ap some (ap (λ z. z.route) (IsFirstBest-unique tmpls req top x b c) ∙ e),
)

-- `Lookup` finds a route exactly if the first two segments of the decoded path are api and v4 and
-- a template fits the segments, with the format suffix off the last one; the route is that of the
-- template with the fewest parameters, the first of several.
pub lookup_route_iff :
    (t : Table) (method escaped_path : Str) (r : Route)
    → (lookup_route t method escaped_path ≡ some r) ↔ (
        (is_anchored (decode_segs escaped_path) ≡ true)
        × IsChosen (templates t method) (strip_last (decode_segs escaped_path)) r)
unfolding lookup_route
lookup_route_iff t method escaped_path r =
    let req = strip_last (decode_segs escaped_path) in
    let tmpls = templates t method in
    let i = Inv-loop req [] tmpls none (λ y m. absurd (Memᴰ.not-nil m)) in
    let c = chosen_route_iff tmpls req (best_loop req tmpls none) r i in
    elim (Bool-cases (is_anchored (decode_segs escaped_path))) [
      | inl e ↦ rw e (λ h. (refl, c.0 h), λ w. c.1 w.1)
      | inr e ↦ rw e (λ h. cc h, λ w. cc (w.0))
    ]
