-- ===== src/Interrupt.antt =====
-- internal/interrupt/state.go: the two-stage interrupt machine. Its mutex makes each method one
-- step, so every interleaving of callers is a sequence of these steps.
pub mod Trace
mod Tests
use cynative.Base.{Bool, true, false, if◌then◌else◌}

-- `State`
pub record State : Type 0 where
  pub in_turn : Bool
  pub tripped : Bool

-- the zero value
abbrev pub zero_state : State
zero_state = record { in_turn = false; tripped = false }

-- `Interrupted`
unfoldable pub interrupted : State → Bool
interrupted s = s.tripped

-- `BeginTurn`
unfoldable pub begin_turn : State → State
begin_turn s = record { in_turn = true; tripped = false }

-- `EndTurn`
unfoldable pub end_turn : State → State
end_turn s = record { in_turn = false; tripped = s.tripped }

-- `Trip`: whether to kill the process, and the new state
unfoldable pub trip : State → Bool × State
trip s =
    if s.in_turn
    then if s.tripped then (true, s) else (false, record { in_turn = true; tripped = true })
    else (true, s)
