-- ===== src/Agents/Valid.antt =====
-- Which names `ValidName` takes.
use cynative.Base.{
  ℕ, ◌≤◌, ◌-◌, Str, codes, ◌≡◌, ◌≢◌, refl, ◌↔◌, inl, inr, Bool, true, false, ◌&&◌, ◌||◌, not, [],
  ◌∷◌, ltb, length, drop, all, str_eq, str_eq_iff, starts_with, ends_with, Bool-cases, zero, suc,
  ok, >>-eq-ok, eq-false_iff, arith, Memᴰ, subst, all_iff,
}
use cynative.Agents.Name.{
  NameError, max_name_len, has_md_suffix, is_name_byte, is_windows_device, reject, valid_name,
  empty_name, too_long, has_extension, wrong_byte, edge_hyphen, windows_device,
}

-- One to 64 bytes of lower-case kebab case that name no device.
pub record IsName (name : Str) : Type 0 where
  pub nonempty : name ≢ []
  pub short : length name ≤ max_name_len
  pub bytes : (b : ℕ) → Memᴰ b name → is_name_byte b ≡ true
  pub start : starts_with b'-' name ≡ false
  pub end : ends_with b'-' name ≡ false
  pub no_device : is_windows_device name ≡ false

reject_iff : (b : Bool) (e : NameError) → (reject b e ≡ ok tt) ↔ (b ≡ false)
unfolding reject
reject_iff true e = (λ h. cc h, λ h. cc h)
reject_iff false e = (λ _. refl, λ _. refl)

all-drop : (n : ℕ) (s : Str) → all is_name_byte s ≡ true → all is_name_byte (drop n s) ≡ true
unfolding all
all-drop zero s h = h
all-drop (suc n) [] h = refl
all-drop (suc n) (c ∷ s) h = all-drop n s (right (is_name_byte c) (all is_name_byte s) h)
  where
    right : (a b : Bool) → (a && b) ≡ true → b ≡ true
    right true b k = k
    right false b k = cc k

md-wrong : all is_name_byte (codes ".md") ≡ false
unfolding all is_name_byte
md-wrong = refl

-- The charset rule already refuses the suffix.
md_suffix-refused : (name : Str) → all is_name_byte name ≡ true → has_md_suffix name ≡ false
unfolding has_md_suffix
md_suffix-refused name h = elim (Bool-cases (ltb 3 (length name))) [
  | inr e ↦ rw e refl
  | inl e ↦ elim (Bool-cases (str_eq (drop (length name - 3) name) (codes ".md"))) [
    | inr f ↦ rw (e, f) refl
    | inl f ↦
        let same = (str_eq_iff (drop (length name - 3) name) (codes ".md")).0 f in
        cc (
          md-wrong,
          subst (λ s. all is_name_byte s ≡ true) same (all-drop (length name - 3) name h),
        )
  ]
]

not-false : (b : Bool) → (not b ≡ false) ↔ (b ≡ true)
not-false true = (λ _. refl, λ _. refl)
not-false false = (λ h. cc h, λ h. cc h)

||-false : (a b : Bool) → ((a || b) ≡ false) ↔ ((a ≡ false) × (b ≡ false))
||-false true b = (λ h. cc h, λ h. cc (h.0))
||-false false b = (λ h. (refl, h), λ h. h.1)

-- A name is valid exactly if it has 1 to 64 bytes, all of them a-z, 0-9 or a hyphen, neither the
-- first nor the last a hyphen, and is no Windows device. The test for the .md extension refuses
-- nothing more.
pub valid_name_iff : (name : Str) → (valid_name name ≡ ok tt) ↔ IsName name
unfolding valid_name
valid_name_iff name =
    let e1 = reject_iff (str_eq name []) empty_name in
    let e2 = reject_iff (ltb max_name_len (length name)) too_long in
    let e3 = reject_iff (has_md_suffix name) has_extension in
    let e4 = reject_iff (not (all is_name_byte name)) wrong_byte in
    let e5 = reject_iff (starts_with b'-' name || ends_with b'-' name) edge_hyphen in
    let e6 = reject_iff (is_windows_device name) windows_device in
    let n1 = eq-false_iff (str_eq name []) (str_eq_iff name []) in
    let edges = ||-false (starts_with b'-' name) (ends_with b'-' name) in
    (
      λ h.
          let (a, h1) = >>-eq-ok (reject (str_eq name []) empty_name) _ h in
          let (b, h2) = >>-eq-ok (reject (ltb max_name_len (length name)) too_long) _ h1 in
          let (c, h3) = >>-eq-ok (reject (has_md_suffix name) has_extension) _ h2 in
          let (d, h4) = >>-eq-ok (reject (not (all is_name_byte name)) wrong_byte) _ h3 in
          let (e, f) =
            >>-eq-ok (reject (starts_with b'-' name || ends_with b'-' name) edge_hyphen) _ h4 in
          record {
            nonempty = n1.0 (e1.0 a);
            short = at_most (length name) (e2.0 b);
            bytes = (all_iff is_name_byte name).0 ((not-false _).0 (e4.0 d));
            start = (edges.0 (e5.0 e)).0;
            end = (edges.0 (e5.0 e)).1;
            no_device = e6.0 f;
          },
      λ w.
          let good = (all_iff is_name_byte name).1 w.bytes in
          rw
            (
              e1.1 (n1.1 w.nonempty),
              e2.1 (within (length name) w.short),
              e3.1 (md_suffix-refused name good),
              e4.1 ((not-false _).1 good),
              e5.1 (edges.1 (w.start, w.end)),
              e6.1 w.no_device,
            )
            refl,
    )
  where
    at_most : (n : ℕ) → ltb max_name_len n ≡ false → n ≤ max_name_len
    at_most n h = ground arith

    within : (n : ℕ) → n ≤ max_name_len → ltb max_name_len n ≡ false
    within n h = ground arith
