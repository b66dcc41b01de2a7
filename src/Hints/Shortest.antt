-- ===== src/Hints/Shortest.antt =====
-- `edit_distance` is the length of the shortest edit script.
use cynative.Base.{
  ℕ, ◌+◌, ◌≤◌, ◌≡◌, refl, ◌∙◌, subst, inl, inr, leb, ◌==◌, List, [], ◌∷◌, ◌++◌, append-nil, length,
  Bool-cases, arith,
}
use cynative.Hints.Distance.{least, cost, edit_distance}
use cynative.Hints.Edits.{
  Edits, done, keep, change, insert, delete, lev_cons, lev, rev_onto, edit_distance-lev,
}

least-either : (P : ℕ → Type 0) (a b : ℕ) → P a → P b → P (least a b)
least-either P a b p q = elim (Bool-cases (leb a b)) [ inl e ↦ rw e p | inr e ↦ rw e q ]

least_le : (a b : ℕ) → (least a b ≤ a) × (least a b ≤ b)
least_le a b = ground arith

keep_or_change :
    {s t : List ℕ} {n : ℕ} (c d : ℕ) → Edits s t n → Edits (c ∷ s) (d ∷ t) (n + cost c d)
keep_or_change {s} {t} {n} c d e = elim (Bool-cases (c == d)) [
  | inl q ↦
      let same : c ≡ d = ground arith in
      rw q (
        subst (λ x. Edits (c ∷ s) (x ∷ t) (n + 0)) same
          (subst (Edits (c ∷ s) (c ∷ t)) (omega arith) (keep c e)))
  | inr q ↦ rw q (subst (Edits (c ∷ s) (d ∷ t)) (omega arith) (change c d e))
]

insert_all : (t : List ℕ) → Edits [] t (length t)
insert_all [] = done
insert_all (d ∷ t) = insert d (insert_all t)

delete_all : (s : List ℕ) → Edits s [] (length s)
delete_all [] = done
delete_all (c ∷ s) = delete c (delete_all s)

lev_cons-Edits :
    (c : ℕ) (s : List ℕ) (shorter : List ℕ → ℕ)
    → ((t : List ℕ) → Edits s t (shorter t))
    → (t : List ℕ) → Edits (c ∷ s) t (lev_cons c (length s) shorter t)
unfolding lev_cons
lev_cons-Edits c s shorter h [] = delete c (delete_all s)
lev_cons-Edits c s shorter h (d ∷ t) =
    least-either (Edits (c ∷ s) (d ∷ t)) _ _
      (subst (Edits (c ∷ s) (d ∷ t)) (omega arith) (delete c (h (d ∷ t))))
      (least-either (Edits (c ∷ s) (d ∷ t)) _ _
        (subst (Edits (c ∷ s) (d ∷ t)) (omega arith) (insert d (lev_cons-Edits c s shorter h t)))
        (keep_or_change c d (h t)))

lev-Edits : (s t : List ℕ) → Edits s t (lev s t)
unfolding lev
lev-Edits [] t = insert_all t
lev-Edits (c ∷ s) t = lev_cons-Edits c s (lev s) (lev-Edits s) t

lev-nil : (s : List ℕ) → lev s [] ≡ length s
unfolding lev lev_cons
lev-nil [] = refl
lev-nil (c ∷ s) = refl

cost_le : (c d : ℕ) → (cost c d ≤ 1) × (cost c c ≡ 0)
cost_le c d = ground arith

lev_le : {s t : List ℕ} {n : ℕ} → Edits s t n → lev s t ≤ n
unfolding lev lev_cons
lev_le done = omega arith
lev_le (keep {s = s} {t = t} c e) =
    let h = lev_le e in
    let (_, z) = cost_le c c in
    let (_, k) = least_le (lev s (c ∷ t) + 1) (least (lev (c ∷ s) t + 1) (lev s t + cost c c)) in
    let (_, j) = least_le (lev (c ∷ s) t + 1) (lev s t + cost c c) in omega (arith, h, z, k, j)
lev_le (change {s = s} {t = t} c d e) =
    let h = lev_le e in
    let (z, _) = cost_le c d in
    let (_, k) = least_le (lev s (d ∷ t) + 1) (least (lev (c ∷ s) t + 1) (lev s t + cost c d)) in
    let (_, j) = least_le (lev (c ∷ s) t + 1) (lev s t + cost c d) in omega (arith, h, z, k, j)
lev_le (insert {s = []} {t = t} d e) = omega (arith, lev_le e)
lev_le (insert {s = c ∷ s} {t = t} d e) =
    let h = lev_le e in
    let (_, k) = least_le (lev s (d ∷ t) + 1) (least (lev (c ∷ s) t + 1) (lev s t + cost c d)) in
    let (j, _) = least_le (lev (c ∷ s) t + 1) (lev s t + cost c d) in omega (arith, h, k, j)
lev_le (delete {s = s} {t = []} c e) = omega (arith, lev_le e, lev-nil s)
lev_le (delete {s = s} {t = d ∷ t} c e) =
    let h = lev_le e in
    let (k, _) = least_le (lev s (d ∷ t) + 1) (least (lev (c ∷ s) t + 1) (lev s t + cost c d)) in
    omega (arith, h, k)

rev_onto-Edits :
    {s t u v : List ℕ} {n m : ℕ}
    → Edits s t n
    → Edits u v m
    → Edits (rev_onto s u) (rev_onto t v) (n + m)
unfolding rev_onto
rev_onto-Edits {m = m} done f = subst (Edits _ _) (omega arith) f
rev_onto-Edits (keep c e) f = rev_onto-Edits e (keep c f)
rev_onto-Edits (change c d e) f = subst (Edits _ _) (omega arith) (rev_onto-Edits e (change c d f))
rev_onto-Edits (insert d e) f = subst (Edits _ _) (omega arith) (rev_onto-Edits e (insert d f))
rev_onto-Edits (delete c e) f = subst (Edits _ _) (omega arith) (rev_onto-Edits e (delete c f))

rev_onto-rev_onto : (s u v : List ℕ) → rev_onto (rev_onto s u) v ≡ rev_onto u (s ++ v)
unfolding rev_onto
rev_onto-rev_onto [] u v = refl
rev_onto-rev_onto (c ∷ s) u v = rev_onto-rev_onto s (c ∷ u) v

twice : (s : List ℕ) → rev_onto (rev_onto s []) [] ≡ s
unfolding rev_onto
twice s = rev_onto-rev_onto s [] [] ∙ append-nil s

-- The distance is the length of a script of kept, changed, inserted and deleted runes that turns the
-- first text into the second, and no such script has fewer edits.
pub edit_distance-shortest :
    (s t : List ℕ) → Edits s t (edit_distance s t) × ((n : ℕ) → Edits s t n → edit_distance s t ≤ n)
edit_distance-shortest s t =
    let e = edit_distance-lev s t in
    let n' = lev (rev_onto s []) (rev_onto t []) in
    (
      rw e (
          subst (λ x. Edits x t n') (twice s)
            (subst (λ y. Edits (rev_onto (rev_onto s []) []) y n') (twice t)
              (subst (Edits _ _) (omega arith)
                (rev_onto-Edits (lev-Edits (rev_onto s []) (rev_onto t [])) done)))),
      λ n f. rw e (lev_le (subst (Edits _ _) (omega arith) (rev_onto-Edits f done))),
    )
