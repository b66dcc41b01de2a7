-- ===== src/Agents/Front.antt =====
-- internal/agentcatalog/parse.go: `splitFrontmatter`, and `Compose` of compose.go.
use cynative.Base.{
  Str, codes, Bool, if◌then◌else◌, [], ◌∷◌, ◌++◌, ◌==◌, length, drop, str_eq, has_prefix,
  trim_suffix, Result, ok, err,
}

-- the two messages of `splitFrontmatter` under `ErrAgentInvalid`
pub data FrontError : Type 0 where
  no_fence not_closed : FrontError

-- `fence`, `fenceLF` and `fenceCRLF`; 10 is a line feed and 13 a carriage return
abbrev pub fence : Str
fence = codes "---"

abbrev pub fence_lf : Str
fence_lf = fence ++ 10 ∷ []

abbrev pub fence_crlf : Str
fence_crlf = fence ++ 13 ∷ 10 ∷ []

-- `strings.TrimSuffix(line, "\r") == fence`
unfoldable pub is_fence : Str → Bool
unfolding str_eq trim_suffix
is_fence line = str_eq (trim_suffix line (13 ∷ [])) fence

-- the loop: `front` is `rest[:offset]`, and `line` is what is read of the line that starts there
unfoldable pub scan : Str → Str → Str → Result FrontError (Str × Str)
unfolding is_fence
scan front line [] = err not_closed
scan front line (c ∷ s) =
    let next_line = scan (front ++ line ++ c ∷ []) [] s in
    let same_line = scan front (line ++ c ∷ []) s in
    if c == 10 then (if is_fence line then ok (front, s) else next_line) else same_line

-- `splitFrontmatter`
unfoldable pub split_frontmatter : Str → Result FrontError (Str × Str)
unfolding has_prefix scan
split_frontmatter src =
    if has_prefix src fence_crlf
    then scan [] [] (drop (length fence_crlf) src)
    else if has_prefix src fence_lf
    then scan [] [] (drop (length fence_lf) src)
    else err no_fence

-- the middle of `Compose`
unfoldable pub user_section : Str → Str
user_section [] = []
user_section (c ∷ s) = codes "user instruction:" ++ 10 ∷ (c ∷ s) ++ 10 ∷ 10 ∷ []

-- `Compose`, of a definition's description and body
unfoldable pub compose : Str → Str → Str → Str
unfolding user_section
compose description body user_instruction =
    codes "agent description:"
    ++ 10 ∷ description
    ++ 10 ∷ 10 ∷ user_section user_instruction
    ++ codes "agent instructions:"
    ++ 10 ∷ body
