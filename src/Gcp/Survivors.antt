-- ===== src/Gcp/Survivors.antt =====
-- The classifier answers with a method exactly if it is the only one that any reading names.
use mathlib.Core.List.Memᴰ
use cynative.Base.{
  Str, ◌≡◌, refl, sym, ap, ◌∙◌, ◌↔◌, ◌⊎◌, inl, inr, List, [], ◌∷◌, ◌++◌, Memᴰ, contains, to_upper,
  Bool-cases, eq-false_iff, ok, subst,
}
use cynative.Base.TextLaws.{contains_iff}
use cynative.Authreq.View.{View}
use cynative.Gcp.Template.{MethodDescriptor, trim_empty_edges}
use cynative.Gcp.Classifier.{
  winners_of, append_new, append_survivors, readings_loop, sole, classify_readings,
}

-- No entry stands twice.
abbrev pub IsDistinct : List Str → Type 0
IsDistinct [] = Unit
IsDistinct (x ∷ xs) = (¬ Memᴰ x xs) × IsDistinct xs

IsDistinct-snoc :
    (x : Str) (xs : List Str) → IsDistinct xs → ¬ Memᴰ x xs → IsDistinct (xs ++ x ∷ [])
IsDistinct-snoc x [] d n = (λ m. Memᴰ.not-nil m, tt)
IsDistinct-snoc x (y ∷ xs) d n = (
  λ m. elim (Memᴰ.append_cases xs m) [
    | inl k ↦ d.0 k
    | inr k ↦ n (Memᴰ.head (sym (Memᴰ.eq_of_singleton k)))
  ],
  IsDistinct-snoc x xs d.1 (λ m. n (Memᴰ.tail m)),
)

IsDistinct-append_new : (ids xs : List Str) → IsDistinct xs → IsDistinct (append_new xs ids)
unfolding append_new
IsDistinct-append_new [] xs d = d
IsDistinct-append_new (id ∷ ids) xs d = elim (Bool-cases (contains xs id)) [
  | inl e ↦ rw e (IsDistinct-append_new ids xs d)
  | inr e ↦ rw e (
      IsDistinct-append_new ids (xs ++ id ∷ [])
        (IsDistinct-snoc id xs d ((eq-false_iff _ (contains_iff xs id)).0 e)))
]

mem-append_new :
    (q : Str) (ids xs : List Str) → Memᴰ q (append_new xs ids) ↔ (Memᴰ q xs ⊎ Memᴰ q ids)
unfolding append_new
mem-append_new q [] xs = (λ m. inl m, λ d. elim d [ inl m ↦ m | inr m ↦ absurd (Memᴰ.not-nil m) ])
mem-append_new q (id ∷ ids) xs = elim (Bool-cases (contains xs id)) [
  | inl e ↦
      let ih = mem-append_new q ids xs in
      let old = (contains_iff xs id).0 e in
      rw e (
        λ m. elim (ih.0 m) [ inl k ↦ inl k | inr k ↦ inr (Memᴰ.tail k) ],
        λ d. ih.1 (elim d [
          | inl k ↦ inl k
          | inr k ↦ elim (Memᴰ.cases_cons k) [
            | inl s ↦ inl (subst (λ y. Memᴰ y xs) (sym s) old)
            | inr j ↦ inr j
          ]
        ]),
      )
  | inr e ↦
      let ih = mem-append_new q ids (xs ++ id ∷ []) in
      rw e (
        λ m. elim (ih.0 m) [
          | inl k ↦ elim (Memᴰ.append_cases xs k) [
            | inl j ↦ inl j
            | inr j ↦ inr (Memᴰ.head (Memᴰ.eq_of_singleton j))
          ]
          | inr k ↦ inr (Memᴰ.tail k)
        ],
        λ d. ih.1 (elim d [
          | inl k ↦ inl (Memᴰ.append_left (id ∷ []) k)
          | inr k ↦ elim (Memᴰ.cases_cons k) [
            | inl s ↦ inl (Memᴰ.append_right xs (Memᴰ.head s))
            | inr j ↦ inr j
          ]
        ]),
      )
]

module _ (methods : List MethodDescriptor) (method : Str) where
  -- One of the readings names the method.
  abbrev pub Named : List (List Str) → Str → Type 0
  Named readings q =
      (segs : List Str) × Memᴰ segs readings
      × Memᴰ q (winners_of methods method (trim_empty_edges segs))

  IsDistinct-readings_loop :
      (readings : List (List Str)) (xs : List Str)
      → IsDistinct xs
      → IsDistinct (readings_loop methods method readings xs)
  unfolding readings_loop append_survivors
  IsDistinct-readings_loop [] xs d = d
  IsDistinct-readings_loop (segs ∷ readings) xs d =
      IsDistinct-readings_loop readings
        (append_new xs (winners_of methods method (trim_empty_edges segs)))
        (IsDistinct-append_new (winners_of methods method (trim_empty_edges segs)) xs d)

  mem-readings_loop :
      (q : Str) (readings : List (List Str)) (xs : List Str)
      → Memᴰ q (readings_loop methods method readings xs) ↔ (Memᴰ q xs ⊎ Named readings q)
  unfolding readings_loop append_survivors
  mem-readings_loop q [] xs =
      (λ m. inl m, λ d. elim d [ inl m ↦ m | inr w ↦ absurd (Memᴰ.not-nil w.1) ])
  mem-readings_loop q (segs ∷ readings) xs =
      let found = winners_of methods method (trim_empty_edges segs) in
      let ih = mem-readings_loop q readings (append_new xs found) in
      let e = mem-append_new q found xs in
      (
        λ m. elim (ih.0 m) [
          | inl k ↦ elim (e.0 k) [ inl j ↦ inl j | inr j ↦ inr (segs, Memᴰ.head refl, j) ]
          | inr (s, k, j) ↦ inr (s, Memᴰ.tail k, j)
        ],
        λ d. ih.1 (elim d [
          | inl k ↦ inl (e.1 (inl k))
          | inr (s, k, j) ↦ elim (Memᴰ.cases_cons k) [
            | inl same ↦ inl (
                e.1 (
                  inr
                    (subst (λ y. Memᴰ q (winners_of methods method (trim_empty_edges y))) same j)))
            | inr i ↦ inr (s, i, j)
          ]
        ]),
      )

sole_iff :
    (l : List Str) (id : Str)
    → IsDistinct l
    → (sole l ≡ ok id) ↔ (Memᴰ id l × ((q : Str) → Memᴰ q l → q ≡ id))
unfolding sole
sole_iff [] id d = (λ h. cc h, λ w. absurd (Memᴰ.not-nil (w.0)))
sole_iff (a ∷ []) id d = (
  λ h. let same : a ≡ id = cc h in (Memᴰ.head (sym same), λ q m. Memᴰ.eq_of_singleton m ∙ same),
  λ w. ap ok (w.1 a (Memᴰ.head refl)),
)
sole_iff (a ∷ b ∷ l) id d = (
  λ h. cc h,
  λ w.
      let same = w.1 a (Memᴰ.head refl) ∙ sym (w.1 b (Memᴰ.tail (Memᴰ.head refl))) in
      absurd (d.0 (Memᴰ.head same)),
)

-- A request is classified as a method exactly if one of its readings names the method and none
-- names another.
pub classify_readings_iff :
    (methods : List MethodDescriptor) (v : View) (readings : List (List Str)) (id : Str)
    → (classify_readings methods v readings ≡ ok id) ↔ (
        Named methods (to_upper v.method) readings id
        × ((q : Str) → Named methods (to_upper v.method) readings q → q ≡ id))
unfolding classify_readings
classify_readings_iff methods v readings id =
    let m = λ (q : Str). mem-readings_loop methods (to_upper v.method) q readings [] in
    let s =
      sole_iff (readings_loop methods (to_upper v.method) readings []) id
        (IsDistinct-readings_loop methods (to_upper v.method) readings [] tt) in
    (
      λ h. let (i, u) = s.0 h in (named ((m id).0 i), λ q n. u q ((m q).1 (inr n))),
      λ (n, u). s.1 ((m id).1 (inr n), λ q k. u q (named ((m q).0 k))),
    )
  where
    named :
        {q : Str}
        → Memᴰ q [] ⊎ Named methods (to_upper v.method) readings q
        → Named methods (to_upper v.method) readings q
    named (inl k) = absurd (Memᴰ.not-nil k)
    named (inr n) = n
