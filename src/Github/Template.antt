-- ===== src/Github/Template.antt =====
-- `matchTemplate` decides `Matches`: its two short cuts lose nothing.
use cynative.Base.{
  suc, Str, ◌≡◌, refl, ap, ◌↔◌, Bool, true, false, if◌then◌else◌, List, [], ◌∷◌, ◌==◌, ==_iff, any,
  length, arith, Bool-cases, inl, inr,
}
use cynative.Github.Table.{Table, is_multi_segment}
use cynative.Github.Match.{
  fixed_loop, match_fixed, multi_prefix, prefix_loop, prefix_matches, match_template,
}
use cynative.Github.Matching.{Matches, done, one, rest, last, more}
use cynative.Github.Memo.{nil_inv, single_inv, match_iff}

module _ (t : Table) where
  fixed→Matches :
      (tmpl req : List Str)
      → any (is_multi_segment t) tmpl ≡ false
      → length tmpl ≡ length req
      → fixed_loop tmpl req ≡ true
      → Matches t tmpl req
  unfolding fixed_loop any
  fixed→Matches [] [] n e h = done
  fixed→Matches [] (x ∷ req) n e h = absurd (omega arith)
  fixed→Matches (seg ∷ tmpl) [] n e h = absurd (omega arith)
  fixed→Matches (seg ∷ tmpl) (x ∷ req) n e h =
      one (ground arith) (ground arith)
        (fixed→Matches tmpl req (ground arith) (omega arith) (ground arith))

  Matches→fixed :
      (tmpl req : List Str)
      → any (is_multi_segment t) tmpl ≡ false
      → Matches t tmpl req
      → (length tmpl ≡ length req) × (fixed_loop tmpl req ≡ true)
  unfolding fixed_loop any
  Matches→fixed [] [] n m = (refl, refl)
  Matches→fixed [] (x ∷ req) n m = absurd (nil_inv t m)
  Matches→fixed (seg ∷ tmpl) [] n (rest h _) = ground arith
  Matches→fixed (seg ∷ tmpl) (x ∷ req) n m =
      let (f, k) = single_inv t (ground arith) m in
      let (e, l) = Matches→fixed tmpl req (ground arith) k in (ap suc e, rw (f, l))

  match_fixed_iff :
      (tmpl req : List Str)
      → any (is_multi_segment t) tmpl ≡ false
      → (match_fixed tmpl req ≡ true) ↔ Matches t tmpl req
  unfolding match_fixed
  match_fixed_iff tmpl req n = elim (Bool-cases (length tmpl == length req)) [
    | inl e ↦
        rw e (fixed→Matches tmpl req n ((==_iff _ _).0 e), λ m. (Matches→fixed tmpl req n m).1)
    | inr e ↦ rw e (λ h. cc h, λ m. cc ((==_iff _ _).1 (Matches→fixed tmpl req n m).0))
  ]

  Matches-prefix : (tmpl req : List Str) → Matches t tmpl req → prefix_matches t tmpl req ≡ true
  unfolding prefix_matches multi_prefix prefix_loop
  Matches-prefix tmpl req done = refl
  Matches-prefix (seg ∷ tmpl) (x ∷ req) (one h f m) = rw (h, f) (Matches-prefix tmpl req m)
  Matches-prefix (seg ∷ tmpl) req (rest h e) = rw h
  Matches-prefix (seg ∷ tmpl) req (last h m) = rw h
  Matches-prefix (seg ∷ tmpl) req (more h m) = rw h

short_cuts :
    (multi prefix walk fixed : Bool) {M : Type 0}
    → (M → prefix ≡ true)
    → (walk ≡ true) ↔ M
    → (multi ≡ false → (fixed ≡ true) ↔ M)
    → ((if multi then (if prefix then walk else false) else fixed) ≡ true) ↔ M
short_cuts true true walk fixed p w f = w
short_cuts true false walk fixed p w f = (λ h. cc h, λ m. cc (p m))
short_cuts false prefix walk fixed p w f = f refl

-- `matchTemplate` answers true exactly when the request matches the template: the length test, the
-- test of the literal prefix and the memo of failed states change no answer.
pub match_template_iff :
    (t : Table) (tmpl req : List Str) → (match_template t tmpl req ≡ true) ↔ Matches t tmpl req
unfolding match_template
match_template_iff t tmpl req =
    short_cuts (any (is_multi_segment t) tmpl) _ _ _ (Matches-prefix t tmpl req)
      (match_iff t tmpl req) (match_fixed_iff t tmpl req)
