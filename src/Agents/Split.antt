-- ===== src/Agents/Split.antt =====
-- `splitFrontmatter` takes a file apart that is written line by line, and loses no byte.
use cynative.Base.{
  Str, ◌≡◌, refl, sym, ap, ◌∙◌, ◌⊎◌, inl, inr, true, false, if◌then◌else◌, List, [], ◌∷◌, ◌++◌,
  append_assoc, append-nil, ◌==◌, ==_iff, ap₂, All, All-append, Bool-cases, ok, subst, has_prefix,
}
use cynative.Base.TextLaws.{IsFree}
use cynative.Agents.Front.{fence_lf, fence_crlf, is_fence, scan, split_frontmatter}

-- Lines, each with its line feed.
abbrev pub render : List Str → Str
render [] = []
render (line ∷ lines) = line ++ 10 ∷ render lines

-- A line of frontmatter: no line feed in it, and no fence.
abbrev pub IsPlain : Str → Type 0
IsPlain line = IsFree 10 line × (is_fence line ≡ false)

scan-line :
    (front line l t : Str)
    → IsFree 10 l
    → scan front line (l ++ 10 ∷ t) ≡ (
        if is_fence (line ++ l) then ok (front, t) else scan (front ++ (line ++ l) ++ 10 ∷ []) [] t)
unfolding scan
scan-line front line [] t h =
    subst
      (λ x.
        (if is_fence line then ok (front, t) else scan (front ++ line ++ 10 ∷ []) [] t)
        ≡ (if is_fence x then ok (front, t) else scan (front ++ x ++ 10 ∷ []) [] t))
      (sym (append-nil line)) refl
scan-line front line (c ∷ l) t h = rw (h.0) (
    subst
      (λ x.
        scan front (line ++ c ∷ []) (l ++ 10 ∷ t)
        ≡ (if is_fence x then ok (front, t) else scan (front ++ x ++ 10 ∷ []) [] t))
      (append_assoc line (c ∷ []) l) (scan-line front (line ++ c ∷ []) l t h.1))

scan-render :
    (lines : List Str) (front last body : Str)
    → All IsPlain lines
    → IsFree 10 last
    → is_fence last ≡ true
    → scan front [] (render lines ++ last ++ 10 ∷ body) ≡ ok (front ++ render lines, body)
scan-render [] front last body h n f =
    scan-line front [] last body n ∙ rw f (ap (λ x. ok (x, body)) (sym (append-nil front)))
scan-render (line ∷ lines) front last body h n f =
    let tail = render lines ++ last ++ 10 ∷ body in
    let shape : render (line ∷ lines) ++ last ++ 10 ∷ body ≡ line ++ 10 ∷ tail =
      ap (λ x. x ++ 10 ∷ body) (append_assoc line (10 ∷ render lines) last)
      ∙ append_assoc line (10 ∷ render lines ++ last) (10 ∷ body) in
    let fronts : (front ++ line ++ 10 ∷ []) ++ render lines ≡ front ++ render (line ∷ lines) =
      append_assoc (front ++ line) (10 ∷ []) (render lines)
      ∙ append_assoc front line (10 ∷ render lines) in
    ap (scan front []) shape
    ∙ scan-line front [] line tail h.0.0
    ∙ rw h.0.1 (
        scan-render lines (front ++ line ++ 10 ∷ []) last body h.1 n f
        ∙ ap (λ x. ok (x, body)) fronts)

-- A file that opens with a fence, has lines that are no fences and then a fence line is taken apart into
-- those lines and everything after the fence line, whatever bytes the body holds.
pub split_frontmatter-render :
    (opening last body : Str) (lines : List Str)
    → (opening ≡ fence_lf) ⊎ (opening ≡ fence_crlf)
    → All IsPlain lines
    → IsFree 10 last
    → is_fence last ≡ true
    → split_frontmatter (opening ++ (render lines ++ last ++ 10 ∷ body)) ≡ ok (render lines, body)
unfolding split_frontmatter has_prefix
split_frontmatter-render opening last body lines (inl e) h n f =
    ap (λ o. split_frontmatter (o ++ (render lines ++ last ++ 10 ∷ body))) e
    ∙ scan-render lines [] last body h n f
split_frontmatter-render opening last body lines (inr e) h n f =
    ap (λ o. split_frontmatter (o ++ (render lines ++ last ++ 10 ∷ body))) e
    ∙ scan-render lines [] last body h n f

-- The parts of a text that was read up to the first fence line.
pub record IsSplit (read front body : Str) : Type 0 where
  pub lines : List Str
  pub last : Str
  pub text : read ≡ render lines ++ last ++ 10 ∷ body
  pub fronts : front ≡ render lines
  pub plain : All IsPlain lines
  pub one_line : IsFree 10 last
  pub closed : is_fence last ≡ true

render-snoc :
    (lines : List Str) (line : Str) → render (lines ++ line ∷ []) ≡ render lines ++ line ++ 10 ∷ []
render-snoc [] line = refl
render-snoc (l ∷ lines) line =
    ap (λ x. l ++ 10 ∷ x) (render-snoc lines line)
    ∙ sym (append_assoc l (10 ∷ render lines ++ line) (10 ∷ []))
    ∙ ap (λ x. x ++ 10 ∷ []) (sym (append_assoc l (10 ∷ render lines) line))

scan-IsSplit :
    (front line s f body : Str) (lines : List Str)
    → front ≡ render lines
    → All IsPlain lines
    → IsFree 10 line
    → scan front line s ≡ ok (f, body)
    → IsSplit (front ++ (line ++ s)) f body
unfolding scan
scan-IsSplit front line [] f body lines e p o h = cc h
scan-IsSplit front line (c ∷ s) f body lines e p o h = elim (Bool-cases (c == 10)) [
  | inr n ↦
      let again =
        scan-IsSplit front (line ++ c ∷ []) s f body lines e p
          (All-append _ line (c ∷ []) o (n, tt)) (rw n at h) in
      subst (λ x. IsSplit (front ++ x) f body) (append_assoc line (c ∷ []) s) again
  | inl n ↦ elim (Bool-cases (is_fence line)) [
    | inl g ↦
        let same : front ≡ f = cc (rw (n, g) at h) in
        let rest : s ≡ body = cc (rw (n, g) at h) in
        record {
          lines = lines;
          last = line;
          text =
              ap₂ (λ x y. x ++ (line ++ y)) e (ap₂ ◌∷◌ ((==_iff c 10).0 n) rest)
              ∙ sym (append_assoc (render lines) line (10 ∷ body));
          fronts = sym same ∙ e;
          plain = p;
          one_line = o;
          closed = g;
        }
    | inr g ↦
        let ten : c ≡ 10 = (==_iff c 10).0 n in
        let next =
          scan-IsSplit (front ++ line ++ c ∷ []) [] s f body (lines ++ line ∷ [])
            (ap₂ (λ x y. x ++ line ++ y ∷ []) e ten ∙ sym (render-snoc lines line))
            (All-append _ lines (line ∷ []) p ((o, g), tt)) tt (rw (n, g) at h) in
        subst (λ x. IsSplit x f body)
          (append_assoc (front ++ line) (c ∷ []) s ∙ append_assoc front line (c ∷ s)) next
  ]
]

-- What `splitFrontmatter` returns of a file that begins with a fence line is all that follows it: the
-- frontmatter, whose lines are no fences, a fence line, and the body to the last byte.
pub split_frontmatter-IsSplit :
    (rest front body : Str)
    → (split_frontmatter (fence_lf ++ rest) ≡ ok (front, body))
      ⊎ (split_frontmatter (fence_crlf ++ rest) ≡ ok (front, body))
    → IsSplit rest front body
unfolding split_frontmatter has_prefix
split_frontmatter-IsSplit rest front body (inl h) =
    scan-IsSplit [] [] rest front body [] refl tt tt h
split_frontmatter-IsSplit rest front body (inr h) =
    scan-IsSplit [] [] rest front body [] refl tt tt h
