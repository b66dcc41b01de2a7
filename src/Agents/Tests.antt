-- ===== src/Agents/Tests.antt =====
-- Names, agent files and prompts.
use cynative.Base.{Str, codes, ◌≡◌, refl, ◌↔◌, inl, List, [], ◌∷◌, ◌++◌, ok, err, arith}
use cynative.Agents.Name.{edge_hyphen, windows_device, has_extension, valid_name}
use cynative.Agents.Front.{fence, fence_lf, no_fence, is_fence, split_frontmatter, compose}
use cynative.Agents.Valid.{IsName, valid_name_iff}
use cynative.Agents.Split.{render, IsSplit, split_frontmatter-render, split_frontmatter-IsSplit}

names :
    (valid_name (codes "iam-audit") ≡ ok tt)
    × (valid_name (codes "audit.md") ≡ err has_extension)
    × (valid_name (codes "-audit") ≡ err edge_hyphen)
    × (valid_name (codes "com1") ≡ err windows_device)
unfolding valid_name
names = (refl, refl, refl, refl)

abbrev front_lines : List Str
front_lines = codes "description: d" ∷ codes "----" ∷ []

abbrev after_fence : Str
after_fence = render front_lines ++ fence ++ 10 ∷ codes "body"

file : split_frontmatter (fence_lf ++ after_fence) ≡ ok (render front_lines, codes "body")
unfolding split_frontmatter
file = refl

unfenced : split_frontmatter (codes " ---") ≡ err no_fence
unfolding split_frontmatter
unfenced = refl

prompt :
    compose (codes "d") (codes "b") []
    ≡ codes "agent description:"
      ++ 10 ∷ codes "d"
      ++ 10 ∷ 10 ∷ codes "agent instructions:"
      ++ 10 ∷ codes "b"
unfolding compose
prompt = refl

valid_name_iff_example : (valid_name (codes "iam-audit") ≡ ok tt) ↔ IsName (codes "iam-audit")
valid_name_iff_example = valid_name_iff (codes "iam-audit")

split_frontmatter-render_example :
    split_frontmatter (fence_lf ++ (render front_lines ++ fence ++ 10 ∷ codes "body"))
    ≡ ok (render front_lines, codes "body")
unfolding is_fence
split_frontmatter-render_example =
    split_frontmatter-render fence_lf fence (codes "body") front_lines (inl refl) (ground arith)
      (ground arith) refl

split_frontmatter-IsSplit_example : IsSplit after_fence (render front_lines) (codes "body")
split_frontmatter-IsSplit_example =
    split_frontmatter-IsSplit after_fence (render front_lines) (codes "body") (inl file)
