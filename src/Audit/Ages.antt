-- ===== src/Audit/Ages.antt =====
-- When the audit file is rotated.
use cynative.Base.{
  ℕ, ◌+◌, ◌*◌, ◌≤◌, ◌≡◌, refl, ◌↔◌, true, false, Option, none, some, leb_iff, arith,
}
use cynative.Audit.{one_day, retention_from_days, is_positive, rotate_due_by_age}

retention-exact : (days : ℕ) → days ≤ 213503 → retention_from_days days ≡ days * one_day
unfolding retention_from_days
retention-exact days h = omega arith

is_positive-true : (r : ℕ) → 1 ≤ r → r ≤ 9223372036854775807 → is_positive r ≡ true
unfolding is_positive
is_positive-true r low high = ground arith

is_positive-false : (r : ℕ) → 9223372036854775808 ≤ r → is_positive r ≡ false
unfolding is_positive
is_positive-false r low = ground arith

-- For a retention of 1 to 106751 days the file is due exactly when its oldest record is that many
-- days old: the product of days and nanoseconds does not overflow.
pub rotate_due_iff :
    (days oldest now : ℕ)
    → 1 ≤ days
    → days ≤ 106751
    → (rotate_due_by_age (some oldest) now (retention_from_days days) ≡ true)
      ↔ (oldest + days * one_day ≤ now)
unfolding rotate_due_by_age
rotate_due_iff days oldest now low high =
    let e = retention-exact days (omega arith) in
    let p = is_positive-true (retention_from_days days) (omega (arith, e)) (omega (arith, e)) in
    let t = leb_iff (oldest + retention_from_days days) now in
    rw p (λ h. omega (arith, e, t.0 h), λ h. t.1 (omega (arith, e)))

-- From 106752 to 213503 days the product overflows to a negative duration, and no file is ever due.
pub rotation_overflows :
    (days : ℕ) (oldest : Option ℕ) (now : ℕ)
    → 106752 ≤ days
    → days ≤ 213503
    → rotate_due_by_age oldest now (retention_from_days days) ≡ false
unfolding rotate_due_by_age
rotation_overflows days none now low high = refl
rotation_overflows days (some oldest) now low high =
    let e = retention-exact days high in
    rw (is_positive-false (retention_from_days days) (omega (arith, e))) refl
