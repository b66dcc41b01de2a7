-- ===== src/Audit/Tests.antt =====
-- Retentions, and a file that is rotated.
use cynative.Base.{◌+◌, ◌*◌, ◌≤◌, ◌≡◌, refl, ◌↔◌, true, false, [], ◌∷◌, some, ok, All, ℕ, arith}
use cynative.Audit.{one_day, retention_from_days, is_positive, rotate_due_by_age, Answers, write}
use cynative.Audit.Ages.{rotate_due_iff, rotation_overflows}
use cynative.Audit.Files.{Call, active_file, History, reopened, wrote, IsYoung, write-IsYoung}

abbrev late : Answers
late = record { now = 3 * one_day; rotates = true; writes = true; then_now = 3 * one_day + 1 }

rotated : (write (retention_from_days 2) (some 5) late).1 ≡ some (3 * one_day + 1)
unfolding write retention_from_days
rotated = refl

rotate_due_iff_example :
    (rotate_due_by_age (some 5) (3 * one_day) (retention_from_days 2) ≡ true)
    ↔ (5 + 2 * one_day ≤ 3 * one_day)
rotate_due_iff_example = rotate_due_iff 2 5 (3 * one_day) (omega arith) (omega arith)

rotation_overflows_example :
    rotate_due_by_age (some 5) (200000 * one_day) (retention_from_days 150000) ≡ false
rotation_overflows_example =
    rotation_overflows 150000 (some 5) (200000 * one_day) (omega arith) (omega arith)

abbrev two_days : ℕ
two_days = 2 * one_day

-- a record for which the logger starts a new file, the age being fine
abbrev sized : Call
sized = record {
  stamp = 10;
  answers = record { now = 10; rotates = false; writes = true; then_now = 11 };
  starts_anew = true;
  moves_away = false;
}

-- and one that comes late
abbrev late_call : Call
late_call = record { stamp = 3 * one_day; answers = late; starts_anew = false; moves_away = false }

-- the anchor stays that of the file before
sized_anchor :
    ((write two_days (some 5) sized.answers).1 ≡ some 5)
    × (active_file two_days (some 5) sized (5 ∷ 7 ∷ []) ≡ 10 ∷ [])
unfolding write active_file
sized_anchor = (refl, refl)

two_days_positive : is_positive two_days ≡ true
unfolding is_positive
two_days_positive = refl

late_written : (write two_days (some 5) late_call.answers).0 ≡ ok tt
unfolding write
late_written = refl

sized-History : History two_days 1 11 (some 5) (10 ∷ [])
unfolding write active_file
sized-History =
    wrote (reopened 9 5 (7 ∷ []) (omega arith) (omega arith, tt)) sized
      (omega arith, omega arith, omega arith, omega arith)

write-IsYoung_example :
    All (IsYoung two_days 1 late_call) (active_file two_days (some 5) late_call (10 ∷ []))
write-IsYoung_example =
    write-IsYoung two_days 1 11 (some 5) (10 ∷ []) late_call two_days_positive sized-History
      (omega arith, omega arith, omega arith, omega arith) late_written
