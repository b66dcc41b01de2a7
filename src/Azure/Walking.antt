-- ===== src/Azure/Walking.antt =====
-- The resource type that `resolveResourceType` settles on.
use cynative.Base.{
  codes, ◌≢◌, ℕ, ◌+◌, ◌-◌, ◌*◌, ◌/◌, ◌≤◌, Str, ◌≡◌, refl, sym, ap, ◌∙◌, ◌⊎◌, inl, inr, Bool, true,
  false, if◌then◌else◌, List, [], ◌∷◌, ◌++◌, append_assoc, append-nil, leb, leb_iff, length,
  length-append, str_eq, str_eq_iff, join, Bool-cases, ok, arith, subst,
}
use cynative.Azure.Types.{
  Walk, is_known, walk_step, walk, start, max_trailing, check_walk, resolve_resource_type,
}

-- The segments at even positions, which name types.
unfoldable pub evens : List Str → List Str
evens [] = []
evens (s ∷ []) = s ∷ []
evens (s ∷ _ ∷ rest) = s ∷ evens rest

-- The matched type is known and stands at the front of the parts; `back` is what trails it.
pub record IsMatch (types : List Str) (i : ℕ) (w : Walk) : Type 0 where
  pub front : List Str
  pub back : List Str
  pub parts : w.type_parts ≡ front ++ back
  pub joined : w.matched ≡ join b'/' front
  pub known : is_known types w.matched ≡ true
  pub trailing : i ≡ w.matched_idx + 2 * length back + 2
  pub last : i ≡ w.last_even_idx + 2

abbrev Inv : List Str → ℕ → Walk → Type 0
Inv types i w = (w.matched ≡ []) ⊎ IsMatch types i w

walk_step-parts :
    (types : List Str) (i : ℕ) (s : Str) (w : Walk)
    → (walk_step types i s w).type_parts ≡ w.type_parts ++ s ∷ []
unfolding walk_step
walk_step-parts types i s w = refl

if-true {ℓ} : {A : Type ℓ} {b : Bool} (x y : A) → b ≡ true → (if b then x else y) ≡ x
if-true {b = true} x y h = refl
if-true {b = false} x y h = cc h

if-false {ℓ} : {A : Type ℓ} {b : Bool} (x y : A) → b ≡ false → (if b then x else y) ≡ y
if-false {b = true} x y h = cc h
if-false {b = false} x y h = refl

Inv-walk_step :
    (types : List Str) (i : ℕ) (s : Str) (w : Walk)
    → Inv types i w
    → Inv types (i + 2) (walk_step types i s w)
unfolding walk_step
Inv-walk_step types i s w inv =
    elim (Bool-cases (is_known types (join b'/' (w.type_parts ++ s ∷ [])))) [
      | inl e ↦
          let cand = join b'/' (w.type_parts ++ s ∷ []) in
          let m : (if is_known types cand then cand else w.matched) ≡ cand =
            if-true cand w.matched e in
          let x : (if is_known types cand then i else w.matched_idx) ≡ i =
            if-true i w.matched_idx e in
          inr (record {
            front = w.type_parts ++ s ∷ [];
            back = [];
            parts = sym (append-nil (w.type_parts ++ s ∷ []));
            joined = m;
            known = ap (is_known types) m ∙ e;
            trailing = omega (arith, x);
            last = refl;
          })
      | inr e ↦
          let cand = join b'/' (w.type_parts ++ s ∷ []) in
          let m : (if is_known types cand then cand else w.matched) ≡ w.matched =
            if-false cand w.matched e in
          let x : (if is_known types cand then i else w.matched_idx) ≡ w.matched_idx =
            if-false i w.matched_idx e in
          elim inv [
            | inl n ↦ inl (m ∙ n)
            | inr k ↦ inr (record {
              front = k.front;
              back = k.back ++ s ∷ [];
              parts = ap (λ l. l ++ s ∷ []) k.parts ∙ append_assoc k.front k.back (s ∷ []);
              joined = m ∙ k.joined;
              known = ap (is_known types) m ∙ k.known;
              trailing = omega (arith, x, k.trailing, length-append k.back (s ∷ []));
              last = refl;
            })
          ]
    ]

walk-parts :
    (types : List Str) (i : ℕ) (rest : List Str) (w : Walk)
    → (walk types i rest w).type_parts ≡ w.type_parts ++ evens rest
unfolding walk evens
walk-parts types i [] w = sym (append-nil w.type_parts)
walk-parts types i (s ∷ []) w = walk_step-parts types i s w
walk-parts types i (s ∷ x ∷ rest) w =
    walk-parts types (i + 2) rest (walk_step types i s w)
    ∙ ap (λ l. l ++ evens rest) (walk_step-parts types i s w)
    ∙ append_assoc w.type_parts (s ∷ []) (evens rest)

Inv-walk :
    (types : List Str) (i : ℕ) (rest : List Str) (w : Walk)
    → Inv types i w
    → (j : ℕ) × Inv types j (walk types i rest w)
unfolding walk
Inv-walk types i [] w inv = (i, inv)
Inv-walk types i (s ∷ []) w inv = (i + 2, Inv-walk_step types i s w inv)
Inv-walk types i (s ∷ x ∷ rest) w inv =
    Inv-walk types (i + 2) rest (walk_step types i s w) (Inv-walk_step types i s w inv)

-- The type is known to the catalog, and is all of the type segments, or for a POST perhaps all but
-- the last.
abbrev pub IsResolved : Str → List Str → List Str → Str → Type 0
IsResolved method types rest found =
    (is_known types found ≡ true)
    × (back : List Str) × (front : List Str) × (evens rest ≡ front ++ back)
    × (found ≡ join b'/' front)
    × (length back ≤ 1)
    × (method ≢ codes "POST" → back ≡ [])

empty_back : (back : List Str) → length back ≤ 0 → back ≡ []
empty_back [] h = refl
empty_back (s ∷ back) h = absurd (omega arith)

max_trailing-post : (method : Str) → max_trailing method ≤ 1
unfolding max_trailing
max_trailing-post method = elim (Bool-cases (str_eq method (codes "POST"))) [
  | inl e ↦ rw e (omega arith)
  | inr e ↦ rw e (omega arith)
]

max_trailing-other : (method : Str) → method ≢ codes "POST" → max_trailing method ≡ 0
unfolding max_trailing
max_trailing-other method n = elim (Bool-cases (str_eq method (codes "POST"))) [
  | inl e ↦ absurd (n ((str_eq_iff method (codes "POST")).0 e))
  | inr e ↦ rw e refl
]

trailing_count : (i m l b n : ℕ) → i ≡ m + 2 * b + 2 → i ≡ l + 2 → (l - m) / 2 ≤ n → b ≤ n
trailing_count i m l b n t e h = omega arith

-- For a request other than a POST the type takes in every type segment of the path, so no such
-- request is authorised as a read or write of a shorter type; a POST leaves out one segment at
-- most. The type is one that the catalog knows.
pub resolve_resource_type-IsResolved :
    (method namespace : Str) (types rest : List Str) (found token : Str)
    → resolve_resource_type method namespace types rest ≡ ok (found, token)
    → IsResolved method types rest found
unfolding resolve_resource_type check_walk
resolve_resource_type-IsResolved method namespace types rest found token h =
    go (walk types 0 rest start) (Inv-walk types 0 rest start (inl refl)).1
      (walk-parts types 0 rest start) h
  where
    short :
        {w : Walk} {j : ℕ} (m : IsMatch types j w)
        → leb ((w.last_even_idx - w.matched_idx) / 2) (max_trailing method) ≡ true
        → length m.back ≤ max_trailing method
    short {w = w} m f =
        trailing_count _ w.matched_idx w.last_even_idx (length m.back) (max_trailing method)
          m.trailing m.last ((leb_iff _ _).0 f)

    go :
        (w : Walk) {j : ℕ}
        → Inv types j w
        → w.type_parts ≡ evens rest
        → check_walk method namespace w ≡ ok (found, token)
        → IsResolved method types rest found
    go w inv p k = elim (Bool-cases (str_eq w.matched [])) [
      | inl e ↦ cc (simp e at k)
      | inr e ↦
          elim (Bool-cases (leb ((w.last_even_idx - w.matched_idx) / 2) (max_trailing method))) [
            | inr f ↦ cc (simp (e, f) at k)
            | inl f ↦
                let q : w.matched ≡ found = cc (simp (e, f) at k) in
                elim inv [
                  | inl n ↦ cc (e, (str_eq_iff w.matched []).1 n)
                  | inr m ↦ (
                    subst (λ s. is_known types s ≡ true) q m.known,
                    m.back,
                    m.front,
                    sym p ∙ m.parts,
                    sym q ∙ m.joined,
                    omega (arith, short m f, max_trailing-post method),
                    λ n. empty_back m.back (omega (arith, short m f, max_trailing-other method n)),
                  )
                ]
          ]
    ]
