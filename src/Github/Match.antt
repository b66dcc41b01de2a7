-- ===== src/Github/Match.antt =====
-- internal/auth/github/table.go: `matchTemplate`, a walk over (template, request) states whose memo
-- holds the states that failed.
use cynative.Base.{
  ℕ, ◌+◌, ◌*◌, ◌-◌, Str, Bool, true, false, ◌&&◌, ◌||◌, if◌then◌else◌, List, [], ◌∷◌, ◌==◌, str_eq,
  any, length,
}
use cynative.Github.Table.{Table, is_param, is_multi_segment}

abbrev pub is_empty {ℓ} : {A : Type ℓ} → List A → Bool
is_empty [] = true
is_empty (_ ∷ _) = false

-- the test of one segment in `matchFixed`, `prefixMatches` and `step`
unfoldable pub fits : Str → Str → Bool
unfolding is_param str_eq
fits seg req = is_param seg || str_eq req seg

-- `matchFixed`: the test of the lengths, and the loop
unfoldable pub fixed_loop : List Str → List Str → Bool
fixed_loop (seg ∷ tmpl) (x ∷ req) = fits seg x && fixed_loop tmpl req
fixed_loop _ _ = true

unfoldable pub match_fixed : List Str → List Str → Bool
unfolding fixed_loop
match_fixed tmpl req = if length tmpl == length req then fixed_loop tmpl req else false

module _ (t : Table) where
  -- `tmpl[:slices.IndexFunc(tmpl, t.isMultiSegment)]`
  unfoldable pub multi_prefix : List Str → List Str
  multi_prefix [] = []
  multi_prefix (seg ∷ tmpl) = if is_multi_segment t seg then [] else seg ∷ multi_prefix tmpl

  -- `prefixMatches`: the request is long enough, and its start fits
  unfoldable pub prefix_loop : List Str → List Str → Bool
  unfolding fits
  prefix_loop [] req = true
  prefix_loop (seg ∷ tmpl) [] = false
  prefix_loop (seg ∷ tmpl) (x ∷ req) = fits seg x && prefix_loop tmpl req

  unfoldable pub prefix_matches : List Str → List Str → Bool
  unfolding multi_prefix prefix_loop
  prefix_matches tmpl req = prefix_loop (multi_prefix tmpl) req

-- The indices at which `failed` is true.
abbrev pub Memo : Type 0
Memo = List ℕ

-- `m.failed[k]`
unfoldable pub has_failed : ℕ → Memo → Bool
unfolding any
has_failed k memo = any (λ j. j == k) memo

-- `m.failed[k] = true` after a step that failed
unfoldable pub record_failure : ℕ → Bool × Memo → Bool × Memo
record_failure k (found, memo) = if found then (true, memo) else (false, k ∷ memo)

-- `matcher`: `tmpl_len` and `req_len` are the lengths of the whole template and request, and the
-- state (ti, ri) is given by what is left of both.
module _ (t : Table) (tmpl_len req_len : ℕ) where
  -- `k := ti*(len(m.req)+1) + ri`
  abbrev pub key : List Str → List Str → ℕ
  key ts rs = (tmpl_len - length ts) * (req_len + 1) + (req_len - length rs)

  -- `match` with `step` written out in its one call. The calls that a `let` binds wait.
  unfoldable pub match : List Str → List Str → Memo → Bool × Memo
  match [] rs memo = (is_empty rs, memo)
  match (seg ∷ ts) [] memo =
      if has_failed (key (seg ∷ ts) []) memo
      then (false, memo)
      else record_failure (key (seg ∷ ts) []) (is_multi_segment t seg && is_empty ts, memo)
  match (seg ∷ ts) (x ∷ rs) memo =
      let after = match ts rs memo in
      let again = match (seg ∷ ts) rs after.1 in
      let many = if after.0 then (true, after.1) else again in
      let multi = if is_empty ts then (true, memo) else many in
      let single = if fits seg x then after else (false, memo) in
      if has_failed (key (seg ∷ ts) (x ∷ rs)) memo
      then (false, memo)
      else record_failure (key (seg ∷ ts) (x ∷ rs))
          (if is_multi_segment t seg then multi else single)

-- `matchTemplate`
unfoldable pub match_template : Table → List Str → List Str → Bool
unfolding any is_multi_segment match_fixed prefix_matches match record_failure has_failed fits
match_template t tmpl req =
    if any (is_multi_segment t) tmpl
    then if prefix_matches t tmpl req
      then (match t (length tmpl) (length req) tmpl req []).0
      else false
    else match_fixed tmpl req
