-- ===== src/Verify/Keys.antt =====
-- The walk over a reply's tokens finds the repeated keys of its documents, and only those.
use cynative.Base.{
  ◌≡◌, ◌≢◌, refl, ◌↔◌, inl, inr, Bool, true, false, not, ◌&&◌, if◌then◌else◌, none, some, List, [],
  ◌∷◌, Memᴰ, Memᴰ-cons, Str, contains, Bool-cases, eq-false_iff, subst, arith,
}
use cynative.Base.TextLaws.{contains_iff}
use cynative.Verify.Walk.{
  Token, close_object, close_array, End, eof, broken, Verdict, clean, duplicate, malformed, panics,
  Stack, Frame, top_frame, after_value, pop, step_delim, step_value, step, walk,
  ensure_no_duplicate_keys,
}
use cynative.Verify.Documents.{
  Json, word, atom, array, object, Items, end, item, Members, done, member, emit, emit_items,
  emit_members, Distinct, keys, HasNoRepeat, HasNoRepeatItems, HasNoRepeatMembers,
}

module _ (lower : Str → Str) where
  -- The same as a test, in the order of the walk.
  unfoldable mutual
    distinct : Json → Bool
    distinct (word _) = true
    distinct atom = true
    distinct (array js) = distinct_items js
    distinct (object ms) = distinct_members [] ms

    distinct_items : Items → Bool
    distinct_items end = true
    distinct_items (item j js) = distinct j && distinct_items js

    distinct_members : List Str → Members → Bool
    distinct_members seen done = true
    distinct_members seen (member k j ms) =
        not (contains seen (lower k)) && distinct j && distinct_members (lower k ∷ seen) ms

  abbrev or_duplicate : Bool → Verdict → Verdict
  or_duplicate ok v = if ok then v else duplicate

  or_duplicate-&& :
      (a b : Bool) (v : Verdict) → or_duplicate (a && b) v ≡ or_duplicate a (or_duplicate b v)
  or_duplicate-&& true b v = refl
  or_duplicate-&& false b v = refl

  -- The next token is read as a value.
  abbrev ExpectsValue : Stack → Type 0
  ExpectsValue (some f ∷ st) = f.expect_key ≡ false
  ExpectsValue _ = Unit

  abbrev object_frame : List Str → Bool → Frame
  object_frame seen expect = record { seen = seen; expect_key = expect }

  after-none : (st : Stack) → top_frame st ≡ none → (after_value st ≡ st) × ExpectsValue st
  unfolding top_frame after_value
  after-none [] h = (refl, tt)
  after-none (none ∷ st) h = (refl, tt)
  after-none (some f ∷ st) h = cc

  mutual
    unfolding emit walk step step_value step_delim distinct pop top_frame after_value

    walk-emit :
        (j : Json) (ts : List Token) (e : End) (st : Stack)
        → ExpectsValue st
        → walk lower (emit j ts) e st ≡ or_duplicate (distinct j) (walk lower ts e (after_value st))
    walk-emit (word s) ts e [] h = refl
    walk-emit (word s) ts e (none ∷ st) h = refl
    walk-emit (word s) ts e (some f ∷ st) h = rw h
    walk-emit atom ts e [] h = refl
    walk-emit atom ts e (none ∷ st) h = refl
    walk-emit atom ts e (some f ∷ st) h = rw h
    walk-emit (array js) ts e st h = walk-items js (close_array ∷ ts) e (none ∷ after_value st) refl
    walk-emit (object ms) ts e st h = walk-members ms ts e (after_value st) []

    walk-items :
        (js : Items) (ts : List Token) (e : End) (st : Stack)
        → top_frame st ≡ none
        → walk lower (emit_items js ts) e st ≡ or_duplicate (distinct_items js) (walk lower ts e st)
    walk-items end ts e st h = refl
    walk-items (item j js) ts e st h =
        let (a, v) = after-none st h in
        rw (
          walk-emit j (emit_items js ts) e st v,
          a,
          walk-items js ts e st h,
          or_duplicate-&& (distinct j) (distinct_items js) (walk lower ts e st),
        )

    walk-members :
        (ms : Members) (ts : List Token) (e : End) (st : Stack) (seen : List Str)
        → walk lower (emit_members ms (close_object ∷ ts)) e (some (object_frame seen true) ∷ st)
          ≡ or_duplicate (distinct_members seen ms) (walk lower ts e st)
    walk-members done ts e st seen = refl
    walk-members (member k j ms) ts e st seen = elim (Bool-cases (contains seen (lower k))) [
      | inl h ↦ rw h
      | inr h ↦ rw (
        h,
        walk-emit j (emit_members ms (close_object ∷ ts)) e
            (some (object_frame (lower k ∷ seen) false) ∷ st) refl,
        walk-members ms ts e st (lower k ∷ seen),
        or_duplicate-&& (distinct j) (distinct_members (lower k ∷ seen) ms) (walk lower ts e st),
      )
    ]

  -- `seen` has none of `ks`.
  abbrev Avoids : List Str → List Str → Type 0
  Avoids seen ks = (s : Str) → Memᴰ s ks → ¬ Memᴰ s seen

  contains-false : (seen : List Str) (k : Str) → (contains seen k ≡ false) ↔ ¬ Memᴰ k seen
  contains-false seen k = eq-false_iff (contains seen k) (contains_iff seen k)

  Avoids-cons :
      (seen : List Str) (k : Str) (ks : List Str)
      → (Avoids seen (k ∷ ks) × Distinct (k ∷ ks))
        ↔ ((contains seen k ≡ false) × Avoids (k ∷ seen) ks × Distinct ks)
  Avoids-cons seen k ks = (
    λ h.
        let (a, (n, d)) = h in
        (
          (contains-false seen k).1 (a k (Memᴰ.head refl)),
          λ s m x. elim (Memᴰ-cons x) [
            | inl e ↦ n (subst (λ y. Memᴰ y ks) e m)
            | inr y ↦ a s (Memᴰ.tail m) y
          ],
          d,
        ),
    λ h.
        let (c, b, d) = h in
        (
          λ s m x. elim (Memᴰ-cons m) [
            | inl e ↦ (contains-false seen k).0 c (subst (λ y. Memᴰ y seen) e x)
            | inr y ↦ b s y (Memᴰ.tail x)
          ],
          (λ m. b k m (Memᴰ.head refl), d),
        ),
  )

  mutual
    unfolding distinct HasNoRepeat keys

    distinct_iff : (j : Json) → (distinct j ≡ true) ↔ HasNoRepeat lower j
    distinct_iff (word s) = (λ _. tt, λ _. refl)
    distinct_iff atom = (λ _. tt, λ _. refl)
    distinct_iff (array js) = distinct_items_iff js
    distinct_iff (object ms) =
        let (to, from) = distinct_members_iff [] ms in
        (λ h. let (_, d, m) = to h in (d, m), λ h. from (λ s _ x. elim x [ ], h.0, h.1))

    distinct_items_iff : (js : Items) → (distinct_items js ≡ true) ↔ HasNoRepeatItems lower js
    distinct_items_iff end = (λ _. tt, λ _. refl)
    distinct_items_iff (item j js) = ground (arith, distinct_iff j, distinct_items_iff js)

    distinct_members_iff :
        (seen : List Str) (ms : Members)
        → (distinct_members seen ms ≡ true)
          ↔ (Avoids seen (keys lower ms) × Distinct (keys lower ms) × HasNoRepeatMembers lower ms)
    distinct_members_iff seen done = (λ _. (λ s m. elim m [ ], tt, tt), λ _. refl)
    distinct_members_iff seen (member k j ms) = ground (
      arith,
      distinct_iff j,
      distinct_members_iff (lower k ∷ seen) ms,
      Avoids-cons seen (lower k) (keys lower ms),
    )

  abbrev end_verdict : End → Verdict
  end_verdict eof = clean
  end_verdict (broken e) = malformed e

  end-or :
      (b : Bool) (e : End)
      → ((or_duplicate b (end_verdict e) ≡ clean) ↔ ((b ≡ true) × (e ≡ eof)))
        × ((or_duplicate b (end_verdict e) ≡ duplicate) ↔ (b ≡ false))
        × (or_duplicate b (end_verdict e) ≢ panics)
  end-or true eof = ground arith
  end-or true (broken e) = ground arith
  end-or false e = ground arith

  ensure_lem :
      (docs : Items) (e : End)
      → ensure_no_duplicate_keys lower (emit_items docs []) e
        ≡ or_duplicate (distinct_items docs) (end_verdict e)
  unfolding ensure_no_duplicate_keys walk top_frame
  ensure_lem docs eof = walk-items docs [] eof [] refl
  ensure_lem docs (broken e) = walk-items docs [] (broken e) [] refl

  -- Of the tokens of any documents, in a row, the walk says clean just when the tokens end with the
  -- input and no object at any depth has two keys that differ by case alone; it says duplicate just
  -- when one has; and it never takes a frame off an empty stack.
  pub ensure_no_duplicate_keys_iff :
      (docs : Items) (e : End)
      → ((ensure_no_duplicate_keys lower (emit_items docs []) e ≡ clean)
          ↔ (HasNoRepeatItems lower docs × (e ≡ eof)))
        × ((ensure_no_duplicate_keys lower (emit_items docs []) e ≡ duplicate)
            ↔ ¬ HasNoRepeatItems lower docs)
        × (ensure_no_duplicate_keys lower (emit_items docs []) e ≢ panics)
  ensure_no_duplicate_keys_iff docs e =
      let (c, d, p) = end-or (distinct_items docs) e in
      let i = distinct_items_iff docs in
      let n = eq-false_iff (distinct_items docs) i in
      rw (ensure_lem docs e) (ground (arith, c, d, p, i, n))
