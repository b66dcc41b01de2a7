-- ===== src/Gitlab/Matching.antt =====
-- What it means for a request to match a GitLab template, and which template `Lookup` picks.
use mathlib.Core.List.Memᴰ
use cynative.Base.{
  ||_iff, Memᴰ, ℕ, suc, ◌≤◌, ◌<◌, Str, ◌≡◌, refl, sym, ap, ◌∙◌, ◌↔◌, ◌⊎◌, inl, inr, Bool, true,
  false, ◌||◌, if◌then◌else◌, List, [], ◌∷◌, ◌++◌, append_assoc, Option, none, some, ◌==◌, ==_iff,
  str_eq, str_eq_iff, length, arith, Bool-cases, eq-false_iff, subst,
}
use cynative.Gitlab.Table.{Templ, is_param, bump, match_loop, match_template}

-- A parameter takes any one segment, a literal an equal one.
pub data Fits : List Str → List Str → Type 0 where
  done : Fits [] []
  one :
      {seg x : Str} {tmpl req : List Str}
      → (is_param seg ≡ true) ⊎ (x ≡ seg)
      → Fits tmpl req
      → Fits (seg ∷ tmpl) (x ∷ req)

-- The number of parameters of a template.
unfoldable pub params : List Str → ℕ
params [] = 0
params (seg ∷ tmpl) = let rest = params tmpl in if is_param seg then suc rest else rest

fits-inv :
    {seg x : Str} {tmpl req : List Str}
    → Fits (seg ∷ tmpl) (x ∷ req)
    → ((is_param seg ≡ true) ⊎ (x ≡ seg)) × Fits tmpl req
fits-inv (one s f) = (s, f)

Fits-length : {tmpl req : List Str} → Fits tmpl req → length tmpl ≡ length req
Fits-length done = refl
Fits-length (one s f) = ap suc (Fits-length f)

bump_iff :
    (b : Bool) (o : Option ℕ) (n : ℕ)
    → (bump b o ≡ some n) ↔ ((m : ℕ) × (o ≡ some m) × ((if b then suc m else m) ≡ n))
bump_iff b none n = (λ h. cc h, λ w. cc (w.1))
bump_iff true (some m) n = (λ h. (m, refl, ground (arith, h)), λ (k, e, q). ground (arith, e, q))
bump_iff false (some m) n = (λ h. (m, refl, ground (arith, h)), λ (k, e, q). ground (arith, e, q))

match_loop_iff :
    (tmpl req : List Str) (n : ℕ)
    → length tmpl ≡ length req
    → (match_loop tmpl req ≡ some n) ↔ (Fits tmpl req × (params tmpl ≡ n))
unfolding match_loop params
match_loop_iff [] [] n l = (λ h. (done, ground (arith, h)), λ (f, e). ap some e)
match_loop_iff [] (x ∷ req) n l = absurd (omega arith)
match_loop_iff (seg ∷ tmpl) [] n l = absurd (omega arith)
match_loop_iff (seg ∷ tmpl) (x ∷ req) n l =
    let test = ||_iff (is_param seg) (str_eq x seg) (λ h. h, λ h. h) (str_eq_iff x seg) in
    let ih = λ (m : ℕ). match_loop_iff tmpl req m (omega arith) in
    let b = bump_iff (is_param seg) (match_loop tmpl req) n in
    elim (Bool-cases (is_param seg || str_eq x seg)) [
      | inl e ↦ rw e (
        λ h. let (m, p, q) = b.0 h in let (f, k) = (ih m).0 p in (one (test.0 e) f, rw k q),
        λ (f, k). b.1 (params tmpl, (ih (params tmpl)).1 ((fits-inv f).1, refl), k),
      )
      | inr e ↦ rw e (λ h. cc h, λ (f, k). absurd ((eq-false_iff _ test).0 e (fits-inv f).0))
    ]

-- `matchTemplate` accepts exactly the requests that the template fits segment by segment, and its
-- score is the number of parameters.
pub match_score_iff :
    (tmpl req : List Str) (n : ℕ)
    → (match_template tmpl req ≡ some n) ↔ (Fits tmpl req × (params tmpl ≡ n))
unfolding match_template
match_score_iff tmpl req n = elim (Bool-cases (length tmpl == length req)) [
  | inl e ↦ rw e (match_loop_iff tmpl req n ((==_iff _ _).0 e))
  | inr e ↦ rw e (λ h. cc h, λ (f, k). cc (e, (==_iff _ _).1 (Fits-length f)))
]

-- The template fits the request and has the fewest parameters of those that do; of several such
-- templates it is the first.
pub record IsFirstBest (tmpls : List Templ) (req : List Str) (x : Templ) : Type 0 where
  pub before : List Templ
  pub after : List Templ
  pub listed : tmpls ≡ before ++ x ∷ after
  pub fits : Fits x.segments req
  pub least_before :
      (y : Templ) → Memᴰ y before → Fits y.segments req → params x.segments < params y.segments
  pub least_after :
      (y : Templ) → Memᴰ y after → Fits y.segments req → params x.segments ≤ params y.segments

-- The best template of those that the loop has seen.
abbrev pub Inv : List Str → List Templ → Option (Templ × ℕ) → Type 0
Inv req seen none = (y : Templ) → Memᴰ y seen → ¬ Fits y.segments req
Inv req seen (some (x, score)) = IsFirstBest seen req x × (score ≡ params x.segments)

-- One more template that does not win.
pub IsFirstBest-more :
    (req : List Str) (seen : List Templ) (x tm : Templ)
    → IsFirstBest seen req x
    → (Fits tm.segments req → params x.segments ≤ params tm.segments)
    → IsFirstBest (seen ++ tm ∷ []) req x
IsFirstBest-more req seen x tm b worse = record {
  before = b.before;
  after = b.after ++ tm ∷ [];
  listed = ap (λ s. s ++ tm ∷ []) b.listed ∙ append_assoc b.before (x ∷ b.after) (tm ∷ []);
  fits = b.fits;
  least_before = b.least_before;
  least_after = λ y m f. elim (Memᴰ.append_cases b.after m) [
    | inl k ↦ b.least_after y k f
    | inr k ↦
        let same = Memᴰ.eq_of_singleton k in
        subst (λ z. params x.segments ≤ params z.segments) (sym same)
          (worse (subst (λ z. Fits z.segments req) same f))
  ];
}

-- One more template that beats all before it.
pub IsFirstBest-new :
    (req : List Str) (seen : List Templ) (tm : Templ)
    → Fits tm.segments req
    → ((y : Templ) → Memᴰ y seen → Fits y.segments req → params tm.segments < params y.segments)
    → IsFirstBest (seen ++ tm ∷ []) req tm
IsFirstBest-new req seen tm f less = record {
  before = seen;
  after = [];
  listed = refl;
  fits = f;
  least_before = less;
  least_after = λ y m g. absurd (Memᴰ.not-nil m);
}

-- All that were seen have at least as many parameters as the best.
pub IsFirstBest-least :
    (req : List Str) (seen : List Templ) (x : Templ)
    → IsFirstBest seen req x
    → (y : Templ) → Memᴰ y seen
    → Fits y.segments req
    → params x.segments ≤ params y.segments
IsFirstBest-least req seen x b y m f =
    elim (Memᴰ.append_cases b.before (subst (Memᴰ y) b.listed m)) [
      | inl k ↦ omega (arith, b.least_before y k f)
      | inr k ↦ elim (Memᴰ.cases_cons k) [
        | inl e ↦ rw e (omega arith)
        | inr j ↦ b.least_after y j f
      ]
    ]
