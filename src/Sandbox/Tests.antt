-- ===== src/Sandbox/Tests.antt =====
-- A run of one call on one slot, and what holds along it.
use cynative.Base.{◌≡◌, ◌≢◌, ◌≤◌, ◌+◌, refl, true, arith}
use cynative.Sandbox.Pool.{Pool, finished, fresh, spawn, abandon, enter, cancel, close_done, ended}
use cynative.Sandbox.Steps.{
  Run, Reachable, rest, next, spawns, fails, cancels, closes, leaves, abandons,
}
use cynative.Sandbox.Bounds.{IsValid, none_starts, Reachable-IsValid}
use cynative.Sandbox.Progress.{Advances, weight, progress, drain_bounded}

-- a script that starts a call and throws: the call never gets a slot
abbrev torn : Pool
torn = close_done (cancel (enter ended (spawn fresh)))

torn-Reachable : Reachable 1 torn
unfolding spawn enter cancel close_done
torn-Reachable =
    (4, next (next (next (next rest (spawns refl)) (fails refl)) (cancels refl)) (closes refl))

abbrev over : Pool
over = enter finished (abandon torn)

torn-Run : Run 1 2 torn over
unfolding spawn enter cancel close_done abandon
torn-Run = next (next rest (abandons (omega arith) refl)) (leaves refl refl)

Reachable-IsValid_example : IsValid 1 torn
Reachable-IsValid_example = Reachable-IsValid torn-Reachable

torn-cancelled : torn.cancelled ≡ true
unfolding spawn enter cancel close_done
torn-cancelled = refl

torn-done : torn.done ≡ true
unfolding spawn enter cancel close_done
torn-done = refl

torn-phase : torn.phase ≢ finished
unfolding spawn enter cancel close_done
torn-phase e = cc e

none_starts_example : (over.cancelled ≡ true) × (over.running ≤ torn.running)
none_starts_example = none_starts torn-cancelled torn-Run

progress_example : Advances 1 torn
progress_example = progress (omega arith) torn-Reachable torn-phase

drain_bounded_example : 2 + weight over ≤ weight torn
drain_bounded_example = drain_bounded torn-Reachable torn-done torn-Run
