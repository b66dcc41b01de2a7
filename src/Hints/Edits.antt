-- ===== src/Hints/Edits.antt =====
-- The distance is that of the shortest edit script.
use cynative.Base.{ℕ, suc, ◌+◌, ◌≡◌, refl, ◌∙◌, ap, List, [], ◌∷◌, length}
use cynative.Hints.Distance.{
  least, cost, next_cells, next_row, rows, first_row, last_cell, edit_distance,
}

-- A script of `n` edits from one text to another: it keeps, changes, inserts or deletes runes from the
-- front on.
pub data Edits : List ℕ → List ℕ → ℕ → Type 0 where
  done : Edits [] [] 0
  keep : {s t : List ℕ} {n : ℕ} (c : ℕ) → Edits s t n → Edits (c ∷ s) (c ∷ t) n
  change : {s t : List ℕ} {n : ℕ} (c d : ℕ) → Edits s t n → Edits (c ∷ s) (d ∷ t) (suc n)
  insert : {s t : List ℕ} {n : ℕ} (d : ℕ) → Edits s t n → Edits s (d ∷ t) (suc n)
  delete : {s t : List ℕ} {n : ℕ} (c : ℕ) → Edits s t n → Edits (c ∷ s) t (suc n)

-- The distances from `c ∷ s`, given those from `s`.
unfoldable pub lev_cons : ℕ → ℕ → (List ℕ → ℕ) → List ℕ → ℕ
lev_cons c n shorter [] = suc n
lev_cons c n shorter (d ∷ t) =
    least (shorter (d ∷ t) + 1) (least (lev_cons c n shorter t + 1) (shorter t + cost c d))

-- Levenshtein's recursion.
unfoldable pub lev : List ℕ → List ℕ → ℕ
unfolding lev_cons
lev [] t = length t
lev (c ∷ s) t = lev_cons c (length s) (lev s) t

-- The row of the distances from `s` to the prefixes of a text, all read backwards: `acc` is the
-- prefix so far, the list the rest.
unfoldable row_of : List ℕ → List ℕ → List ℕ → List ℕ
unfolding lev
row_of s acc [] = lev s acc ∷ []
row_of s acc (d ∷ b) = lev s acc ∷ row_of s (d ∷ acc) b

-- `row_of` less its first cell
unfoldable cells_of : List ℕ → List ℕ → List ℕ → List ℕ
unfolding row_of
cells_of s acc [] = []
cells_of s acc (d ∷ b) = row_of s (d ∷ acc) b

row_of-cells : (s acc b : List ℕ) → row_of s acc b ≡ lev s acc ∷ cells_of s acc b
unfolding row_of cells_of
row_of-cells s acc [] = refl
row_of-cells s acc (d ∷ b) = refl

next_cells_lem :
    (a : ℕ) (s acc b : List ℕ)
    → next_cells a b (lev s acc) (lev (a ∷ s) acc) (cells_of s acc b) ≡ cells_of (a ∷ s) acc b
unfolding next_cells cells_of row_of
next_cells_lem a s acc [] = refl
next_cells_lem a s acc (d ∷ b) =
    rw (row_of-cells s (d ∷ acc) b, row_of-cells (a ∷ s) (d ∷ acc) b)
      (ap (λ x. lev (a ∷ s) (d ∷ acc) ∷ x) (next_cells_lem a s (d ∷ acc) b))

first_row_lem : (acc b : List ℕ) → first_row (length acc) b ≡ row_of [] acc b
unfolding first_row row_of lev
first_row_lem acc [] = refl
first_row_lem acc (d ∷ b) = ap (λ x. length acc ∷ x) (first_row_lem (d ∷ acc) b)

next_row_lem :
    (a : ℕ) (s b : List ℕ) → next_row (suc (length s)) a b (row_of s [] b) ≡ row_of (a ∷ s) [] b
unfolding next_row lev
next_row_lem a s b =
    rw (row_of-cells s [] b, row_of-cells (a ∷ s) [] b)
      (ap (λ x. suc (length s) ∷ x) (next_cells_lem a s [] b))

-- a text read backwards, before another
unfoldable pub rev_onto : List ℕ → List ℕ → List ℕ
rev_onto [] acc = acc
rev_onto (c ∷ s) acc = rev_onto s (c ∷ acc)

rows_lem :
    (as' s b : List ℕ) → rows (suc (length s)) as' b (row_of s [] b) ≡ row_of (rev_onto as' s) [] b
unfolding rows rev_onto
rows_lem [] s b = refl
rows_lem (a ∷ as') s b = rw (next_row_lem a s b) (rows_lem as' (a ∷ s) b)

last_cell-row_of : (s acc b : List ℕ) → last_cell (row_of s acc b) ≡ lev s (rev_onto b acc)
unfolding last_cell row_of rev_onto
last_cell-row_of s acc [] = refl
last_cell-row_of s acc (d ∷ b) =
    last-cons (lev s acc) (row_of s (d ∷ acc) b) (row_of-cells s (d ∷ acc) b)
    ∙ last_cell-row_of s (d ∷ acc) b
  where
    last-cons :
        (x : ℕ) (xs : List ℕ) {y : ℕ} {ys : List ℕ}
        → xs ≡ y ∷ ys
        → last_cell (x ∷ xs) ≡ last_cell xs
    last-cons x [] e = cc e
    last-cons x (y ∷ ys) e = refl

pub edit_distance-lev : (s t : List ℕ) → edit_distance s t ≡ lev (rev_onto s []) (rev_onto t [])
unfolding edit_distance
edit_distance-lev s t =
    ap (λ r. last_cell (rows 1 s t r)) (first_row_lem [] t)
    ∙ ap last_cell (rows_lem s [] t)
    ∙ last_cell-row_of (rev_onto s []) [] t
