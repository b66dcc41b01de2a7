-- ===== src/Interrupt/Tests.antt =====
-- Presses in and out of a turn.
use cynative.Base.{◌≡◌, refl, ◌↔◌, ◌⊎◌, true, false, [], ◌∷◌}
use cynative.Interrupt.{trip}
use cynative.Interrupt.Trace.{begins, presses, run, InTurn, Stopped, trip_iff}

two_presses :
    ((trip (run (begins ∷ []))).0 ≡ false) × ((trip (run (presses ∷ begins ∷ []))).0 ≡ true)
unfolding trip run
two_presses = (refl, refl)

trip_iff_example :
    ((trip (run (presses ∷ begins ∷ []))).0 ≡ true)
    ↔ (¬ InTurn (presses ∷ begins ∷ []) ⊎ Stopped (presses ∷ begins ∷ []))
trip_iff_example = trip_iff (presses ∷ begins ∷ [])
