-- ===== src/Authreq/Readings.antt =====
-- Which readings `PathReadings` returns.
use mathlib.Core.List.Memᴰ
use cynative.Base.{
  Str, ◌≡◌, refl, sym, ap, ◌∙◌, ◌↔◌, ◌⊎◌, inl, inr, true, List, [], ◌∷◌, ◌++◌, Memᴰ, Option, none,
  some, any, any_iff, strs_eq, strs_eq_iff, Bool-cases, eq-false_iff,
}
use cynative.Authreq.View.{View}
use cynative.Authreq.Path.{
  path_segments, append_reading, drop_trailing_empty, append_trimmed, drops_loop,
  with_trailing_drops, path_readings, wire_readings,
}

known_iff : (rs : List (List Str)) (s : List Str) → (any (λ r. strs_eq r s) rs ≡ true) ↔ Memᴰ s rs
known_iff rs s = (
  λ h. let (x, m, e) = (any_iff _ rs).0 h in Memᴰ.cast (sym ((strs_eq_iff x s).0 e)) m,
  λ m. (any_iff _ rs).1 (s, m, (strs_eq_iff s s).1 refl),
)

mem-append_reading :
    (rs : List (List Str)) (s q : List Str) → Memᴰ q (append_reading rs s) ↔ (Memᴰ q rs ⊎ (q ≡ s))
unfolding append_reading
mem-append_reading rs s q = elim (Bool-cases (any (λ r. strs_eq r s) rs)) [
  | inl e ↦
      rw e (λ m. inl m, λ d. elim d [ inl m ↦ m | inr h ↦ Memᴰ.cast h ((known_iff rs s).0 e) ])
  | inr e ↦ rw e (
    λ m. elim (Memᴰ.append_cases rs m) [ inl k ↦ inl k | inr k ↦ inr (Memᴰ.eq_of_singleton k) ],
    λ d. elim d [
      | inl m ↦ Memᴰ.append_left (s ∷ []) m
      | inr h ↦ Memᴰ.append_right rs (Memᴰ.head h)
    ],
  )
]

-- No reading stands twice.
abbrev pub IsDistinct : List (List Str) → Type 0
IsDistinct [] = Unit
IsDistinct (r ∷ rs) = (¬ Memᴰ r rs) × IsDistinct rs

IsDistinct-append :
    (rs : List (List Str)) (s : List Str) → IsDistinct rs → ¬ Memᴰ s rs → IsDistinct (rs ++ s ∷ [])
IsDistinct-append [] s d n = (λ m. Memᴰ.not-nil m, tt)
IsDistinct-append (r ∷ rs) s d n = (
  λ m. elim (Memᴰ.append_cases rs m) [
    | inl k ↦ d.0 k
    | inr k ↦ n (Memᴰ.head (sym (Memᴰ.eq_of_singleton k)))
  ],
  IsDistinct-append rs s d.1 (λ m. n (Memᴰ.tail m)),
)

append_reading-IsDistinct :
    (rs : List (List Str)) (s : List Str) → IsDistinct rs → IsDistinct (append_reading rs s)
unfolding append_reading
append_reading-IsDistinct rs s d = elim (Bool-cases (any (λ r. strs_eq r s) rs)) [
  | inl e ↦ rw e d
  | inr e ↦ rw e (IsDistinct-append rs s d ((eq-false_iff _ (known_iff rs s)).0 e))
]

append_trimmed-IsDistinct :
    (rs : List (List Str)) (o : Option (List Str))
    → IsDistinct rs
    → IsDistinct (append_trimmed rs o)
unfolding append_trimmed
append_trimmed-IsDistinct rs none d = d
append_trimmed-IsDistinct rs (some s) d = append_reading-IsDistinct rs s d

mem-append_trimmed :
    (rs : List (List Str)) (o : Option (List Str)) (q : List Str)
    → Memᴰ q (append_trimmed rs o) ↔ (Memᴰ q rs ⊎ (o ≡ some q))
unfolding append_trimmed
mem-append_trimmed rs none q = (λ m. inl m, λ d. elim d [ inl m ↦ m | inr e ↦ cc e ])
mem-append_trimmed rs (some s) q =
    let e = mem-append_reading rs s q in
    (
      λ m. elim (e.0 m) [ inl k ↦ inl k | inr h ↦ inr (ap some (sym h)) ],
      λ d. e.1 (elim d [ inl k ↦ inl k | inr h ↦ let q : q ≡ s = cc h in inr q ]),
    )

drops_loop-IsDistinct :
    (rs original : List (List Str)) → IsDistinct rs → IsDistinct (drops_loop rs original)
unfolding drops_loop
drops_loop-IsDistinct rs [] d = d
drops_loop-IsDistinct rs (r ∷ original) d =
    drops_loop-IsDistinct (append_trimmed rs (drop_trailing_empty r)) original
      (append_trimmed-IsDistinct rs (drop_trailing_empty r) d)

-- A reading that was there, or the trimmed form of one of the list.
abbrev Dropped : List (List Str) → List Str → Type 0
Dropped original q = (r : List Str) × Memᴰ r original × (drop_trailing_empty r ≡ some q)

mem-drops_loop :
    (rs original : List (List Str)) (q : List Str)
    → Memᴰ q (drops_loop rs original) ↔ (Memᴰ q rs ⊎ Dropped original q)
unfolding drops_loop
mem-drops_loop rs [] q = (λ m. inl m, λ d. elim d [ inl m ↦ m | inr w ↦ absurd (Memᴰ.not-nil w.1) ])
mem-drops_loop rs (r ∷ original) q =
    let ih = mem-drops_loop (append_trimmed rs (drop_trailing_empty r)) original q in
    let e = mem-append_trimmed rs (drop_trailing_empty r) q in
    (
      λ m. elim (ih.0 m) [
        | inl k ↦ elim (e.0 k) [ inl l ↦ inl l | inr h ↦ inr (r, Memᴰ.head refl, h) ]
        | inr w ↦ inr (w.0, Memᴰ.tail w.1, w.2)
      ],
      λ d. ih.1 (elim d [
        | inl k ↦ inl (e.1 (inl k))
        | inr w ↦ elim (Memᴰ.cases_cons w.1) [
          | inl h ↦ inl (e.1 (inr (ap drop_trailing_empty (sym h) ∙ w.2)))
          | inr k ↦ inr (w.0, k, w.2)
        ]
      ]),
    )

abbrev sent : View → List (List Str)
sent v = append_reading [] (path_segments v.escaped_path)

abbrev both : View → List (List Str)
both v = append_reading (sent v) (path_segments v.path)

-- `PathReadings` never returns the same reading twice.
pub path_readings-IsDistinct : (v : View) → IsDistinct (path_readings v)
unfolding path_readings with_trailing_drops
path_readings-IsDistinct v = drops_loop-IsDistinct (both v) (both v) (
    append_reading-IsDistinct (sent v) (path_segments v.path)
      (append_reading-IsDistinct [] (path_segments v.escaped_path) tt))

-- The path as sent, the decoded path, and either of them without one trailing slash.
abbrev pub IsReading : View → List Str → Type 0
IsReading v q =
    (q ≡ path_segments v.escaped_path)
    ⊎ (q ≡ path_segments v.path)
    ⊎ (drop_trailing_empty (path_segments v.escaped_path) ≡ some q)
    ⊎ (drop_trailing_empty (path_segments v.path) ≡ some q)

mem-sent : (v : View) (q : List Str) → Memᴰ q (sent v) ↔ (q ≡ path_segments v.escaped_path)
mem-sent v q =
    let e = mem-append_reading [] (path_segments v.escaped_path) q in
    (λ m. elim (e.0 m) [ inl k ↦ absurd (Memᴰ.not-nil k) | inr h ↦ h ], λ h. e.1 (inr h))

mem-both :
    (v : View) (q : List Str)
    → Memᴰ q (both v) ↔ ((q ≡ path_segments v.escaped_path) ⊎ (q ≡ path_segments v.path))
mem-both v q =
    let e = mem-append_reading (sent v) (path_segments v.path) q in
    let s = mem-sent v q in
    (
      λ m. elim (e.0 m) [ inl k ↦ inl (s.0 k) | inr h ↦ inr h ],
      λ d. e.1 (elim d [ inl h ↦ inl (s.1 h) | inr h ↦ inr h ]),
    )

-- `PathReadings` returns exactly the path as sent, the decoded path, and the form of either
-- without its one trailing slash where `dropTrailingEmpty` offers it.
pub path_readings_iff : (v : View) (q : List Str) → Memᴰ q (path_readings v) ↔ IsReading v q
unfolding path_readings with_trailing_drops
path_readings_iff v q =
    let e = mem-drops_loop (both v) (both v) q in
    let b = mem-both v in
    (
      λ m. elim (e.0 m) [
        | inl k ↦ elim ((b q).0 k) [ inl h ↦ inl h | inr h ↦ inr (inl h) ]
        | inr w ↦ elim ((b w.0).0 w.1) [
          | inl h ↦ inr (inr (inl (ap drop_trailing_empty (sym h) ∙ w.2)))
          | inr h ↦ inr (inr (inr (ap drop_trailing_empty (sym h) ∙ w.2)))
        ]
      ],
      λ r. e.1 (elim r [
        | inl h ↦ inl ((b q).1 (inl h))
        | inr (inl h) ↦ inl ((b q).1 (inr h))
        | inr (inr (inl h)) ↦ inr (path_segments v.escaped_path, (b _).1 (inl refl), h)
        | inr (inr (inr h)) ↦ inr (path_segments v.path, (b _).1 (inr refl), h)
      ]),
    )

-- The wire readings are the path as sent and its form without one trailing slash.
pub wire_readings_iff :
    (v : View) (q : List Str)
    → Memᴰ q (wire_readings v) ↔ (
        (q ≡ path_segments v.escaped_path)
        ⊎ (drop_trailing_empty (path_segments v.escaped_path) ≡ some q))
unfolding wire_readings with_trailing_drops
wire_readings_iff v q =
    let e = mem-drops_loop (sent v) (sent v) q in
    let s = mem-sent v in
    (
      λ m. elim (e.0 m) [
        | inl k ↦ inl ((s q).0 k)
        | inr w ↦ inr (ap drop_trailing_empty (sym ((s w.0).0 w.1)) ∙ w.2)
      ],
      λ r. e.1 (elim r [
        | inl h ↦ inl ((s q).1 h)
        | inr h ↦ inr (path_segments v.escaped_path, (s _).1 refl, h)
      ]),
    )
