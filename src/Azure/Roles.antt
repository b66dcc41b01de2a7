-- ===== src/Azure/Roles.antt =====
-- internal/auth/azure/roleeval.go: the patterns of a role definition. The regular expression that
-- the source builds is read as Go's regexp reads it: `.*` takes any text without a line feed, and
-- letters compare without case, as ASCII.
use cynative.Base.{
  ℕ, Str, Bool, true, false, ◌&&◌, ◌||◌, not, if◌then◌else◌, List, [], ◌∷◌, ◌==◌, any, lower_byte,
}
use cynative.Azure.Path.{Action}

-- `RolePermissions`
pub record RolePermissions : Type 0 where
  pub actions : List Str
  pub not_actions : List Str

-- `(?i)` on one byte
unfoldable pub same_letter : ℕ → ℕ → Bool
same_letter a b = lower_byte a == lower_byte b

-- a match of `.*` followed by the rest of the pattern, which `rest` decides
unfoldable pub star : (Str → Bool) → Str → Bool
star rest [] = rest []
star rest (c ∷ s) = rest (c ∷ s) || (not (c == 10) && star rest s)

-- `matchPattern`
unfoldable pub match_pattern : Str → Str → Bool
unfolding same_letter star
match_pattern [] [] = true
match_pattern [] (_ ∷ _) = false
match_pattern (p ∷ pattern) [] = if p == b'*' then match_pattern pattern [] else false
match_pattern (p ∷ pattern) (c ∷ s) =
    let here = match_pattern pattern s in
    let starred = star (match_pattern pattern) (c ∷ s) in
    if p == b'*' then starred else same_letter p c && here

-- `matchAny`
unfoldable pub match_any : List Str → Str → Bool
unfolding any match_pattern
match_any patterns action = any (λ p. match_pattern p action) patterns

-- `Allowed`
unfoldable pub allowed : RolePermissions → Action → Bool
unfolding match_any
allowed role a = match_any role.actions a.full && not (match_any role.not_actions a.full)
