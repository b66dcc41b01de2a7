-- ===== src/Verify/Parsed.antt =====
-- When a reply confirms a finding.
use cynative.Base.{
  ℕ, zero, suc, ◌+◌, ◌<◌, ◌≡◌, ◌≢◌, refl, sym, ◌∙◌, ap, ◌↔◌, inl, inr, true, Option, none, some,
  List, [], ◌∷◌, ◌++◌, Memᴰ, Str, codes, contains, str_eq, length, get_elem?, Result, err, ok,
  Bool-cases, Memᴰ-cons, eq-false_iff, subst, arith,
}
use mathlib.Core.Option.{some_inj}
use cynative.Base.TextLaws.{contains_iff}
use cynative.Verify.Walk.{Verdict, clean, duplicate, malformed, panics, ensure_no_duplicate_keys}
use cynative.Verify.Nested.{IsNested, ensure-nested}
use cynative.Verify.Verdicts.{
  VerdictEntry, Entries, verdict_confirmed, verdict_insufficient, lookup, insufficient,
  degraded_pass, known_verdict,
}
use cynative.Verify.Decode.{DecodeError, decode_verdict_object}
use cynative.Verify.Fold.{IsConfirmed, str_ne}
use cynative.Verify.Pass.{
  World, strip_code_fence, finding_id, ids_from, unexpected, entry_of, entries_from, with_expected,
  with_entries, with_walk, parse_pass,
}

-- The pass confirms the finding at `i`.
abbrev pub ConfirmsAt : List VerdictEntry → ℕ → Type 0
ConfirmsAt pass i = (v : VerdictEntry) × (get_elem? pass i ≡ some v) × IsConfirmed v

-- The reply's entries are the findings' alone, and the one of the finding at `i` confirms it.
abbrev pub Approves : World → Entries → ℕ → ℕ → Type 0
Approves w m n i =
    ((k : Str) → (v : VerdictEntry) → Memᴰ (k, v) m → Memᴰ k (ids_from w 0 n))
    × ((v : VerdictEntry) × (lookup m (finding_id w i) ≡ some v) × IsConfirmed v)

-- The reply is one JSON object, no object in it has a key twice up to case, and it approves.
abbrev pub ApprovesText : World → Str → ℕ → ℕ → Type 0
ApprovesText w raw n i =
    let s = strip_code_fence w (w.trim_space raw) in
    (ensure_no_duplicate_keys w.lower (w.tokens s).0 (w.tokens s).1 ≡ clean)
    × ((m : Entries) × (decode_verdict_object (w.answers s) ≡ ok m) × Approves w m n i)

-- A pass of `n` entries that confirms the finding at `i` just when `P` says so.
abbrev pub IsPass : List VerdictEntry → ℕ → (ℕ → Type 0) → Type 0
IsPass pass n P = (length pass ≡ n) × ((i : ℕ) → i < n → ConfirmsAt pass i ↔ P i)

insufficient-not : (r : Str) → ¬ IsConfirmed (insufficient r)
unfolding str_eq
insufficient-not r e = str_ne {s = verdict_insufficient} refl e

degraded-get :
    (n i : ℕ) (r : Str) (v : VerdictEntry)
    → get_elem? (degraded_pass n r) i ≡ some v
    → ¬ IsConfirmed v
unfolding degraded_pass
degraded-get zero i r v e = cc
degraded-get (suc n) zero r v e = λ c. insufficient-not r (cc (e, c))
degraded-get (suc n) (suc i) r v e = degraded-get n i r v e

length-degraded : (n : ℕ) (r : Str) → length (degraded_pass n r) ≡ n
unfolding degraded_pass
length-degraded zero r = refl
length-degraded (suc n) r = omega (arith, length-degraded n r)

-- A degraded pass confirms nothing.
pub degraded-IsPass :
    (n : ℕ) (r : Str) {P : ℕ → Type 0} → ((i : ℕ) → ¬ P i) → IsPass (degraded_pass n r) n P
degraded-IsPass n r h = (
  length-degraded n r,
  λ i l. (λ c. absurd (degraded-get n i r c.0 c.1 c.2), λ p. absurd (h i p)),
)

confirmed-known : (s : Str) → s ≡ verdict_confirmed → known_verdict s ≡ true
unfolding known_verdict str_eq
confirmed-known s e = rw e refl

entry_of_iff :
    (o : Option VerdictEntry)
    → IsConfirmed (entry_of o) ↔ ((v : VerdictEntry) × (o ≡ some v) × IsConfirmed v)
unfolding entry_of known_verdict
entry_of_iff none =
    (λ e. absurd (insufficient-not (codes "verdict missing for this finding") e), λ h. cc)
entry_of_iff (some v) = (
  λ e. elim (Bool-cases (known_verdict v.verdict)) [
    | inl k ↦ (v, refl, rw k at e)
    | inr k ↦ absurd (insufficient-not (codes "unknown verdict; " ++ v.justification) (rw k at e))
  ],
  λ h.
      let (x, e, c) = h in
      let q = ap (λ y. y.verdict) (some_inj.0 e) ∙ c in rw (confirmed-known v.verdict q) q,
)

entries-get :
    (w : World) (m : Entries) (k n i j : ℕ)
    → i < n
    → j ≡ k + i
    → get_elem? (entries_from w m k n) i ≡ some (entry_of (lookup m (finding_id w j)))
unfolding entries_from
entries-get w m k zero i j l e = absurd (omega arith)
entries-get w m k (suc n) zero j l e =
    ap (λ x. some (entry_of (lookup m (finding_id w x)))) (omega arith)
entries-get w m k (suc n) (suc i) j l e = entries-get w m (k + 1) n i j (omega arith) (omega arith)

unexpected_iff :
    (expected : List Str) (m : Entries)
    → (unexpected expected m ≡ none)
      ↔ ((k : Str) → (v : VerdictEntry) → Memᴰ (k, v) m → Memᴰ k expected)
unfolding unexpected
unexpected_iff expected [] = (λ _ k v m. elim m [ ], λ _. refl)
unexpected_iff expected (kv ∷ m) = elim (Bool-cases (contains expected kv.0)) [
  | inl c ↦ rw c (
    λ e k v x. elim (Memᴰ-cons x) [
      | inl q ↦
          subst (λ y. Memᴰ y expected) (sym (ap (λ y. y.0) q)) ((contains_iff expected kv.0).0 c)
      | inr y ↦ (unexpected_iff expected m).0 e k v y
    ],
    λ h. (unexpected_iff expected m).1 (λ k v x. h k v (Memᴰ.tail x)),
  )
  | inr c ↦ rw c (
    λ e. cc,
    λ h. absurd ((eq-false_iff _ (contains_iff expected kv.0)).0 c (h kv.0 kv.1 (Memᴰ.head refl))),
  )
]

length-entries : (w : World) (m : Entries) (k n : ℕ) → length (entries_from w m k n) ≡ n
unfolding entries_from
length-entries w m k zero = refl
length-entries w m k (suc n) = omega (arith, length-entries w m (k + 1) n)

entries-ConfirmsAt :
    (w : World) (m : Entries) (n i : ℕ)
    → i < n
    → ConfirmsAt (entries_from w m 0 n) i
      ↔ ((v : VerdictEntry) × (lookup m (finding_id w i) ≡ some v) × IsConfirmed v)
entries-ConfirmsAt w m n i l =
    let g = entries-get w m 0 n i i l (omega arith) in
    let (to, from) = entry_of_iff (lookup m (finding_id w i)) in
    (
      λ h. let (v, e, c) = h in to (ap (λ y. y.verdict) (some_inj.0 (sym g ∙ e)) ∙ c),
      λ h. (entry_of (lookup m (finding_id w i)), g, from h),
    )

expected-IsPass :
    (w : World) (m : Entries) (n : ℕ) (o : Option Str)
    → o ≡ unexpected (ids_from w 0 n) m
    → IsPass (with_expected w m n o) n (Approves w m n)
expected-IsPass w m n none e = (
  length-entries w m 0 n,
  λ i l.
      let (to, from) = entries-ConfirmsAt w m n i l in
      (λ h. ((unexpected_iff (ids_from w 0 n) m).0 (sym e), to h), λ h. from h.1),
)
expected-IsPass w m n (some k) e =
    degraded-IsPass n _ (λ i h. let q = (unexpected_iff (ids_from w 0 n) m).1 h.0 in cc (e, q))

entries-IsPass :
    (w : World) (n : ℕ) (r : Result DecodeError Entries)
    → IsPass (with_entries w n r) n (λ i. (m : Entries) × (r ≡ ok m) × Approves w m n i)
entries-IsPass w n (err e) = degraded-IsPass n _ (λ i h. cc (h.1))
entries-IsPass w n (ok m) =
    let (l, c) = expected-IsPass w m n (unexpected (ids_from w 0 n) m) refl in
    (
      l,
      λ i b.
          let (to, from) = c i b in
          (λ h. (m, refl, to h), λ h. from (subst (λ y. Approves w y n i) (cc h.1) h.2)),
    )

walk-IsPass :
    (w : World) (s : Str) (n : ℕ) (x : Verdict)
    → x ≢ panics
    → (pass : List VerdictEntry) × (with_walk w s n x ≡ some pass)
      × IsPass pass n (λ i.
        (x ≡ clean)
        × ((m : Entries) × (decode_verdict_object (w.answers s) ≡ ok m) × Approves w m n i))
walk-IsPass w s n clean h =
    let (l, c) = entries-IsPass w n (decode_verdict_object (w.answers s)) in
    (_, refl, (l, λ i b. let (to, from) = c i b in (λ q. (refl, to q), λ q. from q.1)))
walk-IsPass w s n duplicate h = (_, refl, degraded-IsPass n _ (λ i q. cc (q.0)))
walk-IsPass w s n (malformed e) h = (_, refl, degraded-IsPass n _ (λ i q. cc (q.0)))
walk-IsPass w s n panics h = absurd (h refl)

-- A reply whose delimiters are nested parses to a verdict for each finding, whatever it says, and the
-- ones that confirm are those of a reply that approves.
pub parse_pass-IsPass :
    (w : World) (raw : Str) (n : ℕ)
    → ((s : Str) → IsNested 0 (w.tokens s).0)
    → (pass : List VerdictEntry) × (parse_pass w raw n ≡ some pass)
      × IsPass pass n (ApprovesText w raw n)
unfolding parse_pass
parse_pass-IsPass w raw n h =
    let s = strip_code_fence w (w.trim_space raw) in
    walk-IsPass w s n _ (ensure-nested w.lower (w.tokens s).0 (w.tokens s).1 (h s))
