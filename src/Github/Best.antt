-- ===== src/Github/Best.antt =====
-- What `best` returns: the routes of the matching templates with the most literal segments.
use mathlib.Core.List.Memᴰ
use cynative.Base.{
  ℕ, ◌≤◌, ◌<◌, Str, ◌≡◌, refl, sym, ap, ◌∙◌, ◌↔◌, ◌⊎◌, inl, inr, subst, if◌then◌else◌, List, [],
  ◌∷◌, Memᴰ, Option, none, some, ◌==◌, ltb, arith, Bool-cases,
}
use cynative.Github.Table.{Route, Templ, Table, literals}
use cynative.Github.Match.{match_template}
use cynative.Github.Matching.{Matches}
use cynative.Github.Template.{match_template_iff}
use cynative.Github.Lookup.{place, best_loop, best}

abbrev Acc : Type 0
Acc = Option ℕ × List Route

-- The number of literal segments of a template.
abbrev pub lits : Templ → ℕ
lits x = literals x.segments

-- A candidate that no candidate beats.
abbrev IsBest : (Templ → Type 0) → Templ → Type 0
IsBest C x = C x × ((y : Templ) → C y → lits y ≤ lits x)

-- The accumulator holds the routes of the best candidates seen so far.
abbrev Inv : (Templ → Type 0) → Acc → Type 0
Inv C (none, out) = (out ≡ []) × ((x : Templ) → ¬ C x)
Inv C (some top, out) =
    ((x : Templ) × C x × (lits x ≡ top))
    × ((x : Templ) → C x → lits x ≤ top)
    × ((r : Route) → Memᴰ r out ↔ ((x : Templ) × C x × (lits x ≡ top) × (x.route ≡ r)))

Inv-iff : (C D : Templ → Type 0) (acc : Acc) → ((x : Templ) → C x ↔ D x) → Inv C acc → Inv D acc
Inv-iff C D (none, out) e (a, b) = (a, λ x d. b x ((e x).1 d))
Inv-iff C D (some top, out) e (a, b, c) = (
  (a.0, (e a.0).0 a.1, a.2),
  λ x d. b x ((e x).1 d),
  λ r. (
    λ m. let (x, k, l, q) = (c r).0 m in (x, (e x).0 k, l, q),
    λ w. (c r).1 (w.0, (e w.0).1 w.1, w.2, w.3),
  ),
)

singleton_iff :
    (C : Templ → Type 0) (tm : Templ)
    → ((x : Templ) → C x → lits x < lits tm)
    → (r : Route)
    → Memᴰ r (tm.route ∷ []) ↔ ((x : Templ) × (C x ⊎ (x ≡ tm)) × (lits x ≡ lits tm) × (x.route ≡ r))
singleton_iff C tm below r = (
  λ m. (tm, inr refl, refl, sym (Memᴰ.eq_of_singleton m)),
  λ w. elim w.1 [
    | inl c ↦ absurd (omega (arith, below w.0 c, w.2))
    | inr e ↦ Memᴰ.head (sym w.3 ∙ ap (λ (x : Templ). x.route) e)
  ],
)

-- A matching template is one more candidate.
place-Inv :
    (C : Templ → Type 0) (tm : Templ) (acc : Acc)
    → Inv C acc
    → Inv (λ x. C x ⊎ (x ≡ tm)) (place (lits tm) tm.route acc)
unfolding place
place-Inv C tm (none, out) (a, b) = (
  (tm, inr refl, refl),
  λ x d. elim d [ inl c ↦ absurd (b x c) | inr e ↦ rw e (omega arith) ],
  singleton_iff C tm (λ x c. absurd (b x c)),
)
place-Inv C tm (some top, out) (a, b, c) = elim (Bool-cases (ltb top (lits tm))) [
  | inl e ↦
      let lt : top < lits tm = ground arith in
      rw e (
        (tm, inr refl, refl),
        λ x d. elim d [ inl k ↦ omega (arith, b x k, lt) | inr q ↦ rw q (omega arith) ],
        singleton_iff C tm (λ x k. omega (arith, b x k, lt)),
      )
  | inr e ↦ rw e (elim (Bool-cases (lits tm == top)) [
    | inl f ↦
        let same : lits tm ≡ top = ground arith in
        rw f (
          (a.0, inl a.1, a.2),
          λ x d. elim d [ inl k ↦ b x k | inr q ↦ rw q (omega arith) ],
          λ r. (
            λ m. elim (Memᴰ.append_cases out m) [
              | inl k ↦ let (x, k', l, q) = (c r).0 k in (x, inl k', l, q)
              | inr k ↦ (tm, inr refl, same, sym (Memᴰ.eq_of_singleton k))
            ],
            λ w. elim w.1 [
              | inl k ↦ Memᴰ.append_left (tm.route ∷ []) ((c r).1 (w.0, k, w.2, w.3))
              | inr q ↦ Memᴰ.append_right out (Memᴰ.head (sym w.3 ∙ ap (λ (x : Templ). x.route) q))
            ],
          ),
        )
    | inr f ↦
        let lt : lits tm < top = ground arith in
        rw f (
          (a.0, inl a.1, a.2),
          λ x d. elim d [ inl k ↦ b x k | inr q ↦ rw q (omega arith) ],
          λ r. (
            λ m. let (x, k, l, q) = (c r).0 m in (x, inl k, l, q),
            λ w. elim w.1 [
              | inl k ↦ (c r).1 (w.0, k, w.2, w.3)
              | inr q ↦ absurd (omega (arith, lt, sym w.2 ∙ ap lits q))
            ],
          ),
        )
  ])
]

module _ (t : Table) (segs : List Str) where
  abbrev MatchesReq : Templ → Type 0
  MatchesReq x = Matches t x.segments segs

  -- The candidates after one more template.
  step-Inv :
      (C : Templ → Type 0) (tm : Templ) (acc : Acc)
      → Inv C acc
      → Inv
          (λ x. C x ⊎ ((x ≡ tm) × MatchesReq x))
          (if match_template t tm.segments segs then place (lits tm) tm.route acc else acc)
  step-Inv C tm acc i = elim (Bool-cases (match_template t tm.segments segs)) [
    | inl e ↦ rw e (
        Inv-iff _ _ _
          (λ x. (
            λ d. elim d [
              | inl c ↦ inl c
              | inr q ↦
                  inr (q, subst MatchesReq (sym q) ((match_template_iff t tm.segments segs).0 e))
            ],
            λ d. elim d [ inl c ↦ inl c | inr q ↦ inr q.0 ],
          ))
          (place-Inv C tm acc i))
    | inr e ↦ rw e (
        Inv-iff C _ acc
          (λ x. (
            λ c. inl c,
            λ d. elim d [
              | inl c ↦ c
              | inr q ↦ cc ((match_template_iff t tm.segments segs).1 (subst MatchesReq q.0 q.1))
            ],
          ))
          i)
  ]

  loop-Inv :
      (C : Templ → Type 0) (tmpls : List Templ) (acc : Acc)
      → Inv C acc
      → Inv (λ x. C x ⊎ (Memᴰ x tmpls × MatchesReq x)) (best_loop t segs tmpls acc)
  unfolding best_loop
  loop-Inv C [] acc i =
      Inv-iff C _ acc
        (λ x. (λ c. inl c, λ d. elim d [ inl c ↦ c | inr m ↦ absurd (Memᴰ.not-nil m.0) ])) i
  loop-Inv C (tm ∷ tmpls) acc i =
      Inv-iff _ _ _ (λ x. (λ d. regroup x d, λ d. ungroup x d))
        (loop-Inv (λ x. C x ⊎ ((x ≡ tm) × MatchesReq x)) tmpls _ (step-Inv C tm acc i))
    where
      regroup :
          (x : Templ)
          → (C x ⊎ ((x ≡ tm) × MatchesReq x)) ⊎ (Memᴰ x tmpls × MatchesReq x)
          → C x ⊎ (Memᴰ x (tm ∷ tmpls) × MatchesReq x)
      regroup x (inl (inl c)) = inl c
      regroup x (inl (inr q)) = inr (Memᴰ.head q.0, q.1)
      regroup x (inr m) = inr (Memᴰ.tail m.0, m.1)

      ungroup :
          (x : Templ)
          → C x ⊎ (Memᴰ x (tm ∷ tmpls) × MatchesReq x)
          → (C x ⊎ ((x ≡ tm) × MatchesReq x)) ⊎ (Memᴰ x tmpls × MatchesReq x)
      ungroup x (inl c) = inl (inl c)
      ungroup x (inr m) = elim (Memᴰ.cases_cons m.0) [
        | inl q ↦ inl (inr (q, m.1))
        | inr k ↦ inr (k, m.1)
      ]

Inv-IsBest :
    (C : Templ → Type 0) (acc : Acc)
    → Inv C acc
    → (r : Route) → Memᴰ r acc.1 ↔ ((x : Templ) × IsBest C x × (x.route ≡ r))
Inv-IsBest C (none, out) (a, b) r =
    (λ m. absurd (Memᴰ.not-nil (subst (Memᴰ r) a m)), λ w. absurd (b w.0 w.1.0))
Inv-IsBest C (some top, out) (a, b, c) r = (
  λ m. let (x, k, l, q) = (c r).0 m in (x, (k, λ y d. omega (arith, b y d, l)), q),
  λ w. (c r).1 (w.0, w.1.0, omega (arith, b w.0 w.1.0, w.1.1 a.0 a.1, a.2), w.2),
)

-- A template of the list that matches the request, with no other that matches and has more
-- literal segments.
pub record IsWinner (t : Table) (tmpls : List Templ) (segs : List Str) (x : Templ) : Type 0 where
  pub listed : Memᴰ x tmpls
  pub matches : Matches t x.segments segs
  pub most : (y : Templ) → Memᴰ y tmpls → Matches t y.segments segs → lits y ≤ lits x

-- `best` returns exactly the routes of the winners.
pub best_iff :
    (t : Table) (tmpls : List Templ) (segs : List Str) (r : Route)
    → Memᴰ r (best t tmpls segs) ↔ ((x : Templ) × IsWinner t tmpls segs x × (x.route ≡ r))
unfolding best
best_iff t tmpls segs r =
    let inv = loop-Inv t segs (λ _. ⊥) tmpls (none, []) (refl, λ x c. c) in
    let e = Inv-IsBest _ _ inv r in
    (λ m. let (x, k, q) = e.0 m in (x, to x k, q), λ w. e.1 (w.0, from w.0 w.1, w.2))
  where
    Found : Templ → Type 0
    Found x = ⊥ ⊎ (Memᴰ x tmpls × Matches t x.segments segs)

    found : (x : Templ) → Found x → Memᴰ x tmpls × Matches t x.segments segs
    found x (inl b) = absurd b
    found x (inr m) = m

    to : (x : Templ) → IsBest Found x → IsWinner t tmpls segs x
    to x k = record {
      listed = (found x k.0).0;
      matches = (found x k.0).1;
      most = λ y m n. k.1 y (inr (m, n));
    }

    from : (x : Templ) → IsWinner t tmpls segs x → IsBest Found x
    from x w = (inr (w.listed, w.matches), λ y f. w.most y (found y f).0 (found y f).1)
