-- ===== src/Hints/Near.antt =====
-- The early rejection by the number of runes loses no near miss.
use cynative.Base.{
  ℕ, ◌+◌, ◌≤◌, ◌≡◌, ◌↔◌, true, false, ◌||◌, ltb, leb, if◌then◌else◌, Str, List, length, arith,
}
use cynative.Hints.Distance.{edit_distance}
use cynative.Hints.Edits.{Edits, done, keep, change, insert, delete}
use cynative.Hints.Shortest.{edit_distance-shortest}
use cynative.Hints.Candidates.{within_edit_distance}

length-Edits :
    {s t : List ℕ} {n : ℕ} → Edits s t n → (length s ≤ length t + n) × (length t ≤ length s + n)
length-Edits done = (omega arith, omega arith)
length-Edits (keep c e) = let (a, b) = length-Edits e in (omega (arith, a), omega (arith, b))
length-Edits (change c d e) = let (a, b) = length-Edits e in (omega (arith, a), omega (arith, b))
length-Edits (insert d e) = let (a, b) = length-Edits e in (omega (arith, a), omega (arith, b))
length-Edits (delete c e) = let (a, b) = length-Edits e in (omega (arith, a), omega (arith, b))

within_cases :
    (a b d : ℕ) {P : Type 0}
    → (P → (d ≤ 2) × (a ≤ b + 2) × (b ≤ a + 2))
    → (d ≤ 2 → P)
    → ((if ltb (b + 2) a || ltb (a + 2) b then false else leb d 2) ≡ true) ↔ P
within_cases a b d h k = ground (arith, h, k)

-- Two segments count as near just when some script of at most two edits turns the runes of one into
-- those of the other.
pub within_edit_distance_iff :
    (runes : Str → List ℕ) (a b : Str)
    → (within_edit_distance runes a b ≡ true) ↔ ((n : ℕ) × (n ≤ 2) × Edits (runes a) (runes b) n)
unfolding within_edit_distance
within_edit_distance_iff runes a b =
    let (e, f) = edit_distance-shortest (runes a) (runes b) in
    within_cases (length (runes a)) (length (runes b)) (edit_distance (runes a) (runes b))
      (λ h.
        let (n, l, x) = h in
        let (p, q) = length-Edits x in
        let g = f n x in (omega (arith, g, l), omega (arith, p, l), omega (arith, q, l)))
      (λ l. (edit_distance (runes a) (runes b), l, e))
