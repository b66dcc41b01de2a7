-- ===== src/Github/Routing.antt =====
-- What `Lookup` returns: every route that the request may run as, and no other.
use mathlib.Core.List.Memᴰ
use cynative.Base.{
  ◌≤◌, Str, ◌≡◌, refl, ◌∙◌, ◌↔◌, ◌⊎◌, inl, inr, subst, true, List, [], ◌∷◌, ◌++◌, Memᴰ, Option,
  none, some, ltb, str_eq_iff, arith, Bool-cases,
}
use cynative.Github.Table.{Route, Templ, Table, split_path, drop_one_trailing_slash}
use cynative.Github.Lookup.{
  best, route_lt, insert_route, sort_routes, route_eq, compact, count_byte, max_path_segments,
  templates, trimmed_best, lookup_segments, lookup_routes,
}
use cynative.Github.Best.{IsWinner, best_iff}

route_eq→eq : (a b : Route) → route_eq a b ≡ true → a ≡ b
unfolding route_eq
route_eq→eq a b h =
    ground (arith, str_eq_iff a.category b.category, str_eq_iff a.subcategory b.subcategory)

mem-insert_route :
    (q r : Route) (out : List Route) → Memᴰ q (insert_route r out) ↔ ((q ≡ r) ⊎ Memᴰ q out)
unfolding insert_route
mem-insert_route q r [] =
    (λ m. Memᴰ.cases_cons m, λ s. elim s [ inl e ↦ Memᴰ.head e | inr m ↦ Memᴰ.tail m ])
mem-insert_route q r (p ∷ out) =
    let ih = mem-insert_route q r out in
    elim (Bool-cases (route_lt p r)) [
      | inl e ↦ rw e (
        λ m. elim (Memᴰ.cases_cons m) [
          | inl h ↦ inr (Memᴰ.head h)
          | inr k ↦ elim (ih.0 k) [ inl h ↦ inl h | inr l ↦ inr (Memᴰ.tail l) ]
        ],
        λ s. elim s [
          | inl h ↦ Memᴰ.tail (ih.1 (inl h))
          | inr m ↦ elim (Memᴰ.cases_cons m) [
            | inl h ↦ Memᴰ.head h
            | inr k ↦ Memᴰ.tail (ih.1 (inr k))
          ]
        ],
      )
      | inr e ↦
          rw e (λ m. Memᴰ.cases_cons m, λ s. elim s [ inl h ↦ Memᴰ.head h | inr m ↦ Memᴰ.tail m ])
    ]

mem-sort_routes : (q : Route) (out : List Route) → Memᴰ q (sort_routes out) ↔ Memᴰ q out
unfolding sort_routes
mem-sort_routes q [] = (λ m. m, λ m. m)
mem-sort_routes q (r ∷ out) =
    let ih = mem-sort_routes q out in
    let e = mem-insert_route q r (sort_routes out) in
    (
      λ m. elim (e.0 m) [ inl h ↦ Memᴰ.head h | inr k ↦ Memᴰ.tail (ih.0 k) ],
      λ m. elim (Memᴰ.cases_cons m) [ inl h ↦ e.1 (inl h) | inr k ↦ e.1 (inr (ih.1 k)) ],
    )

mem-compact : (q : Route) (out : List Route) → Memᴰ q (compact out) ↔ Memᴰ q out
unfolding compact
mem-compact q [] = (λ m. m, λ m. m)
mem-compact q (r ∷ []) = (λ m. m, λ m. m)
mem-compact q (r ∷ p ∷ out) =
    let ih = mem-compact q (p ∷ out) in
    elim (Bool-cases (route_eq r p)) [
      | inl e ↦ rw e (
        λ m. Memᴰ.tail (ih.0 m),
        λ m.
            ih.1
              (elim (Memᴰ.cases_cons m) [ inl h ↦ Memᴰ.head (h ∙ route_eq→eq r p e) | inr k ↦ k ]),
      )
      | inr e ↦ rw e (
        λ m. elim (Memᴰ.cases_cons m) [ inl h ↦ Memᴰ.head h | inr k ↦ Memᴰ.tail (ih.0 k) ],
        λ m. elim (Memᴰ.cases_cons m) [ inl h ↦ Memᴰ.head h | inr k ↦ Memᴰ.tail (ih.1 k) ],
      )
    ]

-- A winner among the templates has this route.
abbrev pub Wins : Table → List Templ → List Str → Route → Type 0
Wins t tmpls segs r = (x : Templ) × IsWinner t tmpls segs x × (x.route ≡ r)

-- The reading without one trailing slash wins with this route, and the full reading has a winner.
abbrev pub WinsTrimmed : Table → List Templ → List Str → Route → Type 0
WinsTrimmed t tmpls segs r =
    ((r' : Route) × Wins t tmpls segs r')
    × ((trimmed : List Str) × (drop_one_trailing_slash segs ≡ some trimmed)
        × Wins t tmpls trimmed r)

trimmed_best_iff :
    (t : Table) (tmpls : List Templ) (o : Option (List Str)) (r : Route)
    → Memᴰ r (trimmed_best t tmpls o)
      ↔ ((trimmed : List Str) × (o ≡ some trimmed) × Wins t tmpls trimmed r)
unfolding trimmed_best
trimmed_best_iff t tmpls none r = (λ m. absurd (Memᴰ.not-nil m), λ w. cc w.1)
trimmed_best_iff t tmpls (some s) r = (
  λ m. (s, refl, (best_iff t tmpls s r).0 m),
  λ w.
      let same : w.0 ≡ s = cc w.1 in
      (best_iff t tmpls s r).1 (subst (λ k. Wins t tmpls k r) same w.2),
)

lookup_segments_iff :
    (t : Table) (tmpls : List Templ) (segs : List Str) (r : Route)
    → Memᴰ r (lookup_segments t tmpls segs (best t tmpls segs))
      ↔ (Wins t tmpls segs r ⊎ WinsTrimmed t tmpls segs r)
unfolding lookup_segments
lookup_segments_iff t tmpls segs r = go (best t tmpls segs) (best_iff t tmpls segs)
  where
    go :
        (found : List Route)
        → ((r : Route) → Memᴰ r found ↔ Wins t tmpls segs r)
        → Memᴰ r (lookup_segments t tmpls segs found)
          ↔ (Wins t tmpls segs r ⊎ WinsTrimmed t tmpls segs r)
    go [] e = (
      λ m. absurd (Memᴰ.not-nil m),
      λ s. elim s [
        | inl w ↦ absurd (Memᴰ.not-nil ((e r).1 w))
        | inr w ↦ absurd (Memᴰ.not-nil ((e w.0.0).1 w.0.1))
      ],
    )
    go (q ∷ found) e =
        let extra = drop_one_trailing_slash segs in
        let all = q ∷ found ++ trimmed_best t tmpls extra in
        let c = mem-compact r (sort_routes all) in
        let s = mem-sort_routes r all in
        let x = trimmed_best_iff t tmpls extra r in
        let first = (e q).0 (Memᴰ.head refl) in
        (
          λ m. elim (Memᴰ.append_cases (q ∷ found) (s.0 (c.0 m))) [
            | inl k ↦ inl ((e r).0 k)
            | inr k ↦ inr ((q, first), x.0 k)
          ],
          λ w. c.1 (
              s.1 (elim w [
                | inl k ↦ Memᴰ.append_left (trimmed_best t tmpls extra) ((e r).1 k)
                | inr k ↦ Memᴰ.append_right (q ∷ found) (x.1 k.1)
              ])),
        )

-- `Lookup` returns, for a path of at most 8192 slashes, exactly the routes of the templates that
-- match the request with the most literal segments, and those of its reading without a single
-- trailing slash if the request as sent has a match.
pub lookup_routes_iff :
    (t : Table) (method path : Str) (r : Route)
    → count_byte b'/' path ≤ max_path_segments
    → Memᴰ r (lookup_routes t method path) ↔ (
        Wins t (templates t method) (split_path path) r
        ⊎ WinsTrimmed t (templates t method) (split_path path) r)
unfolding lookup_routes
lookup_routes_iff t method path r h =
    elim (Bool-cases (ltb max_path_segments (count_byte b'/' path))) [
      | inl e ↦ absurd (ground arith)
      | inr e ↦ simp e (lookup_segments_iff t (templates t method) (split_path path) r)
    ]
