-- ===== src/Authreq/Segments.antt =====
-- What a dot segment is, said by the encodings of its text.
use cynative.Base.{
  ℕ, Str, codes, ◌≡◌, refl, sym, subst, ◌↔◌, ◌⊎◌, inl, inr, true, [], ◌∷◌, Memᴰ, Option, none, some,
  any_iff, str_eq_iff, split, cut_before, ||_iff, ◌==◌, Bool-cases,
}
use cynative.Authreq.Unescape.{
  hex_byte, path_unescape, cons_byte, cons_escape, Encodes, end, plain, escape,
  Encodes→path_unescape,
}
use cynative.Authreq.Path.{is_dot, is_dot_segment, has_dot_segment}

cons_byte_inv :
    (c : ℕ) (o : Option Str) {s : Str}
    → cons_byte c o ≡ some s
    → (r : Str) × (o ≡ some r) × (s ≡ c ∷ r)
cons_byte_inv c none h = cc
cons_byte_inv c (some r) h = (r, refl, cc)

cons_escape_inv :
    (b : Option ℕ) (o : Option Str) {s : Str}
    → cons_escape b o ≡ some s
    → (a : ℕ) × (r : Str) × (b ≡ some a) × (o ≡ some r) × (s ≡ a ∷ r)
cons_escape_inv none o h = cc
cons_escape_inv (some a) o h = let (r, e, q) = cons_byte_inv a o h in (a, r, refl, e, q)

path_unescape→Encodes : (e : Str) {s : Str} → path_unescape e ≡ some s → Encodes e s
unfolding path_unescape
path_unescape→Encodes [] {s} h = let q : s ≡ [] = cc h in subst (Encodes []) (sym q) end
path_unescape→Encodes (c ∷ []) {s} h = elim (Bool-cases (c == b'%')) [
  | inl e ↦ cc (rw e at h)
  | inr e ↦ let q : s ≡ c ∷ [] = cc (rw e at h) in subst (Encodes (c ∷ [])) (sym q) (plain e end)
]
path_unescape→Encodes (c ∷ h ∷ []) {s} k = elim (Bool-cases (c == b'%')) [
  | inl e ↦ cc (rw e at k)
  | inr e ↦
      let (r, p, q) = cons_byte_inv c (path_unescape (h ∷ [])) (rw e at k) in
      subst (Encodes (c ∷ h ∷ [])) (sym q) (plain e (path_unescape→Encodes (h ∷ []) p))
]
path_unescape→Encodes (c ∷ h ∷ l ∷ t) {s} k = elim (Bool-cases (c == b'%')) [
  | inl e ↦
      let (a, r, b, p, q) = cons_escape_inv (hex_byte h l) (path_unescape t) (rw e at k) in
      subst (Encodes (c ∷ h ∷ l ∷ t)) (sym q) (escape e b (path_unescape→Encodes t p))
  | inr e ↦
      let (r, p, q) = cons_byte_inv c (path_unescape (h ∷ l ∷ t)) (rw e at k) in
      subst (Encodes (c ∷ h ∷ l ∷ t)) (sym q) (plain e (path_unescape→Encodes (h ∷ l ∷ t) p))
]

-- `url.PathUnescape` decodes exactly the encodings of a text.
pub path_unescape_iff : (e s : Str) → (path_unescape e ≡ some s) ↔ Encodes e s
path_unescape_iff e s = (path_unescape→Encodes e, Encodes→path_unescape)

-- The name of the current or the parent directory.
abbrev pub IsDotName : Str → Type 0
IsDotName s = (s ≡ codes ".") ⊎ (s ≡ codes "..")

-- Some encoding of such a name, up to the first ';'.
abbrev pub IsDotSegment : Str → Type 0
IsDotSegment seg = (s : Str) × IsDotName s × Encodes (cut_before b';' seg) s

is_dot_iff : (o : Option Str) → (is_dot o ≡ true) ↔ ((s : Str) × IsDotName s × (o ≡ some s))
unfolding is_dot
is_dot_iff none = (λ h. cc h, λ w. cc w.2)
is_dot_iff (some d) =
    let e = ||_iff _ _ (str_eq_iff d (codes ".")) (str_eq_iff d (codes "..")) in
    (λ h. (d, e.0 h, refl), λ w. let q : d ≡ w.0 = cc w.2 in e.1 (subst IsDotName (sym q) w.1))

is_dot_segment_iff : (seg : Str) → (is_dot_segment seg ≡ true) ↔ IsDotSegment seg
unfolding is_dot_segment
is_dot_segment_iff seg =
    let e = is_dot_iff (path_unescape (cut_before b';' seg)) in
    (
      λ h. let (s, n, q) = e.0 h in (s, n, path_unescape→Encodes _ q),
      λ w. e.1 (w.0, w.1, Encodes→path_unescape w.2),
    )

-- `HasDotSegment` finds a dot segment exactly when some segment of the escaped path, up to its
-- first ';', is an encoding of "." or "..": each byte plain or as an escape with digits in either
-- case. So no encoding of these names goes unseen, and no other segment is reported.
pub has_dot_segment_iff :
    (p : Str)
    → (has_dot_segment p ≡ true) ↔ ((seg : Str) × Memᴰ seg (split b'/' p) × IsDotSegment seg)
unfolding has_dot_segment
has_dot_segment_iff p =
    let e = any_iff is_dot_segment (split b'/' p) in
    (
      λ h. let (seg, m, q) = e.0 h in (seg, m, (is_dot_segment_iff seg).0 q),
      λ w. e.1 (w.0, w.1, (is_dot_segment_iff w.0).1 w.2),
    )
