-- ===== src/Hints/Distance.antt =====
-- internal/apiref/candidates.go: `EditDistance`, on the runes of its arguments.
use cynative.Base.{ℕ, suc, ◌+◌, if◌then◌else◌, leb, ◌==◌, List, [], ◌∷◌}

abbrev pub least : ℕ → ℕ → ℕ
least a b = if leb a b then a else b

-- `cost`
abbrev pub cost : ℕ → ℕ → ℕ
cost a b = if a == b then 0 else 1

-- the loop over `j`: `diagonal` is `prev[j-1]`, `left` is `cur[j-1]`, and the list is `prev[j:]`
unfoldable pub next_cells : ℕ → List ℕ → ℕ → ℕ → List ℕ → List ℕ
next_cells a [] diagonal left prev = []
next_cells a (b ∷ bs) diagonal left [] = []
next_cells a (b ∷ bs) diagonal left (above ∷ prev) =
    let cell = least (above + 1) (least (left + 1) (diagonal + cost a b)) in
    cell ∷ next_cells a bs above cell prev

-- one round of the loop over `i`: the row `cur` from the row `prev`
unfoldable pub next_row : ℕ → ℕ → List ℕ → List ℕ → List ℕ
unfolding next_cells
next_row i a bs [] = []
next_row i a bs (first ∷ prev) = i ∷ next_cells a bs first i prev

-- the loop over `i`, the first row being done
unfoldable pub rows : ℕ → List ℕ → List ℕ → List ℕ → List ℕ
unfolding next_row
rows i [] bs prev = prev
rows i (a ∷ as') bs prev = rows (suc i) as' bs (next_row i a bs prev)

-- `prev[j] = j` for each cell
unfoldable pub first_row : ℕ → List ℕ → List ℕ
first_row j [] = j ∷ []
first_row j (b ∷ bs) = j ∷ first_row (suc j) bs

-- `prev[len(rb)]`; a row is never empty
unfoldable pub last_cell : List ℕ → ℕ
last_cell [] = 0
last_cell (x ∷ []) = x
last_cell (x ∷ y ∷ xs) = last_cell (y ∷ xs)

-- `EditDistance`
unfoldable pub edit_distance : List ℕ → List ℕ → ℕ
unfolding rows first_row last_cell
edit_distance as' bs = last_cell (rows 1 as' bs (first_row 0 bs))
