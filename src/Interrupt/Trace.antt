-- ===== src/Interrupt/Trace.antt =====
-- What the interrupt machine answers, said of the history of calls.
use cynative.Base.{
  ◌≡◌, refl, ◌↔◌, ◌⊎◌, inl, inr, true, false, List, [], ◌∷◌, Bool-cases, eq-false_iff,
}
use cynative.Interrupt.{State, zero_state, interrupted, begin_turn, end_turn, trip}

-- a call of a method that writes
pub data Call : Type 0 where
  begins ends presses : Call

-- The state after a history, whose last call stands first.
unfoldable pub run : List Call → State
unfolding begin_turn end_turn trip
run [] = zero_state
run (begins ∷ calls) = begin_turn (run calls)
run (ends ∷ calls) = end_turn (run calls)
run (presses ∷ calls) = (trip (run calls)).1

-- A turn has begun and not ended.
pub data InTurn : List Call → Type 0 where
  begun : {calls : List Call} → InTurn (begins ∷ calls)
  pressed : {calls : List Call} → InTurn calls → InTurn (presses ∷ calls)

-- A press fell into the latest turn.
pub data Stopped : List Call → Type 0 where
  first : {calls : List Call} → InTurn calls → Stopped (presses ∷ calls)
  again : {calls : List Call} → Stopped calls → Stopped (presses ∷ calls)
  ended : {calls : List Call} → Stopped calls → Stopped (ends ∷ calls)

trip-in_turn : (s : State) → (trip s).1.in_turn ≡ s.in_turn
unfolding trip
trip-in_turn s = elim (Bool-cases s.in_turn) [
  | inr e ↦ simp e refl
  | inl e ↦ elim (Bool-cases s.tripped) [ inl f ↦ simp (e, f) refl | inr f ↦ simp (e, f) refl ]
]

trip-tripped : (s : State) → ((trip s).1.tripped ≡ true) ↔ ((s.in_turn ≡ true) ⊎ (s.tripped ≡ true))
unfolding trip
trip-tripped s = elim (Bool-cases s.in_turn) [
  | inr e ↦ simp e (λ h. inr h, λ d. elim d [ inl k ↦ cc (k, e) | inr k ↦ k ])
  | inl e ↦ elim (Bool-cases s.tripped) [
    | inl f ↦ simp (e, f) (λ h. inl refl, λ d. refl)
    | inr f ↦ simp (e, f) (λ h. inl refl, λ d. refl)
  ]
]

in_turn_iff : (calls : List Call) → ((run calls).in_turn ≡ true) ↔ InTurn calls
unfolding run begin_turn end_turn
in_turn_iff [] = (λ h. cc h, λ t. elim t [ ])
in_turn_iff (begins ∷ calls) = (λ _. begun, λ _. refl)
in_turn_iff (ends ∷ calls) = (λ h. cc h, λ t. elim t [ ])
in_turn_iff (presses ∷ calls) =
    let e = in_turn_iff calls in
    rw (trip-in_turn (run calls)) (λ h. pressed (e.0 h), λ t. e.1 (out t))
  where
    out : {l : List Call} → InTurn (presses ∷ l) → InTurn l
    out (pressed t) = t

-- A stop was requested exactly if a press fell into the latest turn.
pub interrupted_iff : (calls : List Call) → (interrupted (run calls) ≡ true) ↔ Stopped calls
unfolding interrupted run begin_turn end_turn
interrupted_iff [] = (λ h. cc h, λ t. elim t [ ])
interrupted_iff (begins ∷ calls) = (λ h. cc h, λ t. elim t [ ])
interrupted_iff (ends ∷ calls) =
    let e = interrupted_iff calls in (λ h. ended (e.0 h), λ t. e.1 (out t))
  where
    out : {l : List Call} → Stopped (ends ∷ l) → Stopped l
    out (ended t) = t
interrupted_iff (presses ∷ calls) =
    let p = trip-tripped (run calls) in
    let i = in_turn_iff calls in
    let e = interrupted_iff calls in
    (
      λ h. elim (p.0 h) [ inl t ↦ first (i.0 t) | inr s ↦ again (e.0 s) ],
      λ t. p.1 (elim (out t) [ inl k ↦ inl (i.1 k) | inr k ↦ inr (e.1 k) ]),
    )
  where
    out : {l : List Call} → Stopped (presses ∷ l) → InTurn l ⊎ Stopped l
    out (first t) = inl t
    out (again s) = inr s

kills_iff : (s : State) → ((trip s).0 ≡ true) ↔ ((s.in_turn ≡ false) ⊎ (s.tripped ≡ true))
unfolding trip
kills_iff s = elim (Bool-cases s.in_turn) [
  | inr e ↦ simp e (λ h. inl refl, λ d. refl)
  | inl e ↦ elim (Bool-cases s.tripped) [
    | inl f ↦ simp (e, f) (λ h. inr refl, λ d. refl)
    | inr f ↦ simp (e, f) (λ h. cc h, λ d. elim d [ inl k ↦ cc k | inr k ↦ cc k ])
  ]
]

-- After any history of calls, a press kills the process exactly if no turn is open or an earlier
-- press fell into the latest turn.
pub trip_iff :
    (calls : List Call) → ((trip (run calls)).0 ≡ true) ↔ (¬ InTurn calls ⊎ Stopped calls)
unfolding interrupted
trip_iff calls =
    let k = kills_iff (run calls) in
    let n = eq-false_iff (run calls).in_turn (in_turn_iff calls) in
    let s = interrupted_iff calls in
    (
      λ h. elim (k.0 h) [ inl x ↦ inl (n.0 x) | inr x ↦ inr (s.0 x) ],
      λ d. k.1 (elim d [ inl x ↦ inl (n.1 x) | inr x ↦ inr (s.1 x) ]),
    )
