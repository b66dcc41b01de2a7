-- ===== src/Azure/Patterns.antt =====
-- What a role definition grants, said with the texts that its patterns stand for.
use cynative.Base.{
  ℕ, Str, ◌≡◌, refl, sym, ap, ◌↔◌, ◌⊎◌, inl, inr, Bool, true, false, ◌&&◌, not, List, [], ◌∷◌, ◌++◌,
  Memᴰ, ◌==◌, any_iff, All, Bool-cases, &&_iff, ||_iff, eq-false_iff, subst,
}
use cynative.Azure.Path.{Action}
use cynative.Azure.Roles.{RolePermissions, same_letter, star, match_pattern, match_any, allowed}

-- A text on one line.
abbrev pub IsLine : Str → Type 0
IsLine = All (λ c. (c == 10) ≡ false)

-- The pattern stands for the text: a `*` for any text on one line, any other byte for itself in
-- either case.
pub data Globs : Str → Str → Type 0 where
  done : Globs [] []
  letter :
      {p c : ℕ} {pattern s : Str}
      → (p == b'*') ≡ false
      → same_letter p c ≡ true
      → Globs pattern s
      → Globs (p ∷ pattern) (c ∷ s)
  wildcard :
      {p : ℕ} {pattern s : Str} (run rest : Str)
      → (p == b'*') ≡ true
      → s ≡ run ++ rest
      → IsLine run
      → Globs pattern rest
      → Globs (p ∷ pattern) s

abbrev Splits : (Str → Type 0) → Str → Type 0
Splits P s = (run : Str) × (rest : Str) × (s ≡ run ++ rest) × IsLine run × P rest

false_of_not : (b : Bool) → not b ≡ true → b ≡ false
false_of_not true h = cc h
false_of_not false h = refl

star_iff :
    (f : Str → Bool) (P : Str → Type 0) (s : Str)
    → ((t : Str) → (f t ≡ true) ↔ P t)
    → (star f s ≡ true) ↔ Splits P s
unfolding star
star_iff f P [] e = (λ h. ([], [], refl, tt, (e []).0 h), λ w. go w)
  where
    go : Splits P [] → f [] ≡ true
    go ([], rest, q, l, p) = (e []).1 (subst P (sym q) p)
    go (c ∷ r, rest, q, l, p) = cc q
star_iff f P (c ∷ s) e = (
  λ h.
      elim ((||_iff (f (c ∷ s)) (not (c == 10) && star f s) (e (c ∷ s)) (
          &&_iff (not (c == 10)) (star f s) (false_of_not (c == 10), λ k. rw k refl)
            (star_iff f P s e))).0
        h) [
          | inl p ↦ ([], c ∷ s, refl, tt, p)
          | inr (n, (run, rest, q, l, p)) ↦ (c ∷ run, rest, ap (λ t. c ∷ t) q, (n, l), p)
        ],
  λ w.
      (||_iff (f (c ∷ s)) (not (c == 10) && star f s) (e (c ∷ s)) (
          &&_iff (not (c == 10)) (star f s) (false_of_not (c == 10), λ k. rw k refl)
            (star_iff f P s e))).1
        (split w),
)
  where
    split : Splits P (c ∷ s) → P (c ∷ s) ⊎ (((c == 10) ≡ false) × Splits P s)
    split ([], rest, q, l, p) = inl (subst P (sym q) p)
    split (d ∷ run, rest, q, l, p) =
        let head : d ≡ c = cc q in
        inr (subst (λ x. (x == 10) ≡ false) head l.0, (run, rest, cc q, l.1, p))

wild_iff :
    {p : ℕ} (pattern s : Str)
    → (p == b'*') ≡ true
    → Globs (p ∷ pattern) s ↔ Splits (Globs pattern) s
wild_iff {p} pattern s w = (λ g. out g, λ (run, rest, q, l, g). wildcard run rest w q l g)
  where
    out : {s' : Str} → Globs (p ∷ pattern) s' → Splits (Globs pattern) s'
    out (letter n _ _) = cc (w, n)
    out (wildcard run rest _ q l g) = (run, rest, q, l, g)

letter_iff :
    {p c : ℕ} (pattern s : Str)
    → (p == b'*') ≡ false
    → Globs (p ∷ pattern) (c ∷ s) ↔ ((same_letter p c ≡ true) × Globs pattern s)
letter_iff {p} {c} pattern s n = (λ g. out g, λ (e, g). letter n e g)
  where
    out : Globs (p ∷ pattern) (c ∷ s) → (same_letter p c ≡ true) × Globs pattern s
    out (letter _ e g) = (e, g)
    out (wildcard _ _ w _ _ _) = cc (w, n)

empty_iff : (p : ℕ) (pattern : Str) → (p == b'*') ≡ false → ¬ Globs (p ∷ pattern) []
empty_iff p pattern n (wildcard _ _ w _ _ _) = cc (w, n)

-- `matchPattern` accepts exactly the texts that the pattern stands for.
pub match_pattern_iff : (pattern s : Str) → (match_pattern pattern s ≡ true) ↔ Globs pattern s
unfolding match_pattern star
match_pattern_iff [] [] = (λ _. done, λ _. refl)
match_pattern_iff [] (c ∷ s) = (λ h. cc h, λ g. absurd (none g))
  where
    none : {t : Str} → Globs [] (c ∷ t) → ⊥
    none g = elim g [ ]
match_pattern_iff (p ∷ pattern) [] = elim (Bool-cases (p == b'*')) [
  | inl e ↦
      let i = star_iff (match_pattern pattern) (Globs pattern) [] (match_pattern_iff pattern) in
      let w = wild_iff {p = p} pattern [] e in rw e (λ h. w.1 (i.0 h), λ g. i.1 (w.0 g))
  | inr e ↦ rw e (λ h. cc h, λ g. absurd (empty_iff p pattern e g))
]
match_pattern_iff (p ∷ pattern) (c ∷ s) = elim (Bool-cases (p == b'*')) [
  | inl e ↦
      let i =
        star_iff (match_pattern pattern) (Globs pattern) (c ∷ s) (match_pattern_iff pattern) in
      let w = wild_iff {p = p} pattern (c ∷ s) e in rw e (λ h. w.1 (i.0 h), λ g. i.1 (w.0 g))
  | inr e ↦
      let b =
        &&_iff (same_letter p c) (match_pattern pattern s) (λ h. h, λ h. h)
          (match_pattern_iff pattern s) in
      let l = letter_iff {p = p} {c = c} pattern s e in rw e (λ h. l.1 (b.0 h), λ g. b.1 (l.0 g))
]

-- Some pattern of the list stands for the action.
abbrev pub Covers : List Str → Str → Type 0
Covers patterns action = (p : Str) × Memᴰ p patterns × Globs p action

match_any_iff :
    (patterns : List Str) (action : Str)
    → (match_any patterns action ≡ true) ↔ Covers patterns action
unfolding match_any
match_any_iff patterns action =
    let e = any_iff (λ p. match_pattern p action) patterns in
    (
      λ h. let (p, m, q) = e.0 h in (p, m, (match_pattern_iff p action).0 q),
      λ (p, m, g). e.1 (p, m, (match_pattern_iff p action).1 g),
    )

not_iff : (b : Bool) → (not b ≡ true) ↔ (b ≡ false)
not_iff true = (λ h. cc h, λ h. cc h)
not_iff false = (λ _. refl, λ _. refl)

-- An action is allowed exactly if a pattern of the role's actions stands for it and none of its
-- excluded actions does.
pub allowed_iff :
    (role : RolePermissions) (a : Action)
    → (allowed role a ≡ true) ↔ (Covers role.actions a.full × ¬ Covers role.not_actions a.full)
unfolding allowed
allowed_iff role a =
    let no =
      eq-false_iff (match_any role.not_actions a.full) (match_any_iff role.not_actions a.full) in
    let n = not_iff (match_any role.not_actions a.full) in
    &&_iff (match_any role.actions a.full) (not (match_any role.not_actions a.full))
      (match_any_iff role.actions a.full) (λ h. no.0 (n.0 h), λ h. n.1 (no.1 h))
