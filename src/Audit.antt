-- ===== src/Audit.antt =====
-- internal/audit/rotate.go: the rotation of the audit file by age. Times are nanoseconds; the zero
-- time is `none`. The rotating logger belongs to a third-party package: its answers are given.
pub mod Ages
pub mod Files
mod Tests
use cynative.Base.{
  ℕ, ◌+◌, ◌*◌, ◌%◌, ◌^◌, Bool, false, ◌&&◌, if◌then◌else◌, Option, none, some, ltb, leb, Result, ok,
  err,
}

-- `oneDay`
abbrev pub one_day : ℕ
one_day = 86400000000000

-- `retentionFromDays`: the product is an int64, held here as its 64 bits
unfoldable pub retention_from_days : ℕ → ℕ
retention_from_days days = (days * one_day) % 2 ^ 64

-- `retention > 0` on those bits
unfoldable pub is_positive : ℕ → Bool
is_positive retention = ltb 0 retention && ltb retention (2 ^ 63)

-- `rotateDueByAge`; `now.Sub` saturates above every retention
unfoldable pub rotate_due_by_age : Option ℕ → ℕ → ℕ → Bool
unfolding is_positive
rotate_due_by_age none now retention = false
rotate_due_by_age (some oldest) now retention =
    if is_positive retention then leb (oldest + retention) now else false

-- what the clock and the logger answer during one `Write`
pub record Answers : Type 0 where
  pub now : ℕ
  pub rotates : Bool
  pub writes : Bool
  pub then_now : ℕ

pub data WriteError : Type 0 where
  age_rotate write_failed : WriteError

-- `Write` after the rotation
unfoldable pub write_inner : Option ℕ → Answers → Result WriteError (Unit {0}) × Option ℕ
write_inner none a = if a.writes then (ok tt, some a.then_now) else (err write_failed, none)
write_inner (some oldest) a =
    if a.writes then (ok tt, some oldest) else (err write_failed, some oldest)

-- `Write`: its result and the new `oldest`
unfoldable pub write : ℕ → Option ℕ → Answers → Result WriteError (Unit {0}) × Option ℕ
unfolding rotate_due_by_age write_inner
write retention oldest a =
    if rotate_due_by_age oldest a.now retention
    then (if a.rotates then write_inner none a else (err age_rotate, oldest))
    else write_inner oldest a
