-- ===== src/Sandbox/Progress.antt =====
-- A run never stalls, and its teardown ends.
use cynative.Base.{
  ℕ, zero, suc, ◌+◌, ◌*◌, ◌≤◌, ◌<◌, ◌≡◌, ◌≢◌, refl, ◌⊎◌, inl, inr, true, arith, Bool-cases,
}
use cynative.Sandbox.Pool.{
  Phase, executing, looping, ended, cancelling, closing, finished, Pool, spawn, acquire, abandon,
  quit, release, start, finish, settle, drop_result, expire, enter, cancel, close_done,
}
use cynative.Sandbox.Steps.{
  Step, spawns, waits, fails, settles, gives_up, completes, cancels, closes, leaves, acquires,
  abandons, quits, starts, finishes, drops, releases, expires, Run, rest, next, Reachable,
}
use cynative.Sandbox.Bounds.{IsValid, Reachable-IsValid, Run-IsValid}

abbrev pub phase_weight : Phase → ℕ
phase_weight executing = 5
phase_weight looping = 4
phase_weight ended = 3
phase_weight cancelling = 2
phase_weight closing = 1
phase_weight finished = 0

-- What is left to do: of the phase, and of each worker.
abbrev pub weight : Pool → ℕ
weight p =
    phase_weight p.phase + 6 * p.parked + 5 * p.won + 4 * p.running + 3 * p.posting + p.leaving

Phase-cases :
    (f : Phase)
    → f ≡ executing ⊎ f ≡ looping ⊎ f ≡ ended ⊎ f ≡ cancelling ⊎ f ≡ closing ⊎ f ≡ finished
Phase-cases executing = inl refl
Phase-cases looping = inr (inl refl)
Phase-cases ended = inr (inr (inl refl))
Phase-cases cancelling = inr (inr (inr (inl refl)))
Phase-cases closing = inr (inr (inr (inr (inl refl))))
Phase-cases finished = inr (inr (inr (inr (inr refl))))

-- A step that leaves less to do.
abbrev pub Advances : ℕ → Pool → Type 0
Advances cap p = (q : Pool) × Step cap p q × (weight q < weight p)

zero_or : (n : ℕ) → (n ≡ 0) ⊎ (0 < n)
zero_or zero = inl refl
zero_or (suc n) = inr (omega arith)

won-Advances : {cap : ℕ} (p : Pool) → 0 < p.won → Advances cap p
unfolding quit start
won-Advances p h = elim (Bool-cases p.cancelled) [
  | inl e ↦ (quit p, quits h e, omega arith)
  | inr e ↦ (start p, starts h e, omega arith)
]

-- A worker that is not parked can move, unless it waits for the loop to take its result.
worker-Advances :
    {cap : ℕ} (p : Pool)
    → 0 < cap
    → 0 < p.parked ⊎ 0 < p.won ⊎ 0 < p.running
    → p.posting ≡ 0
    → Advances cap p
unfolding acquire finish release
worker-Advances {cap} p c w z = elim (zero_or p.won) [
  | inr h ↦ won-Advances p h
  | inl a ↦ elim (zero_or p.running) [
    | inr h ↦ (finish p, finishes h, omega arith)
    | inl b ↦ elim (zero_or p.leaving) [
      | inr h ↦ (release p, releases h, omega arith)
      | inl d ↦ (acquire p, acquires (ground arith) (omega arith), ground arith)
    ]
  ]
]

closing-Advances : {cap : ℕ} (p : Pool) → p.phase ≡ closing → p.done ≡ true → Advances cap p
unfolding enter abandon finish drop_result release
closing-Advances p e d = elim (zero_or p.parked) [
  | inr h ↦ (abandon p, abandons h d, ground arith)
  | inl a ↦ elim (zero_or p.won) [
    | inr h ↦ won-Advances p h
    | inl b ↦ elim (zero_or p.running) [
      | inr h ↦ (finish p, finishes h, ground arith)
      | inl c ↦ elim (zero_or p.posting) [
        | inr h ↦ (drop_result p, drops h d, ground arith)
        | inl z ↦ elim (zero_or p.leaving) [
          | inr h ↦ (release p, releases h, ground arith)
          | inl y ↦ (enter finished p, leaves e (ground arith), ground arith)
        ]
      ]
    ]
  ]
]

looping-Advances :
    {cap : ℕ} (p : Pool) → 0 < cap → IsValid cap p → p.phase ≡ looping → Advances cap p
unfolding enter settle
looping-Advances p c v e = elim (zero_or p.in_flight) [
  | inl z ↦ (enter ended p, completes e z, ground arith)
  | inr h ↦ elim (Bool-cases p.cancelled) [
    | inl k ↦ (enter ended p, gives_up e h k, ground arith)
    | inr k ↦
        let a = v.accounted k in
        elim (zero_or p.posting) [
          | inl z ↦ worker-Advances p c (ground arith) z
          | inr j ↦ (settle p, settles e h j, ground arith)
        ]
  ]
]

-- Whenever the semaphore has a slot, a run that has not finished can take a step that leaves less
-- to do, wherever it stands: no interleaving of the loop, the workers and the teardown deadlocks.
pub progress :
    {cap : ℕ} {p : Pool} → 0 < cap → Reachable cap p → p.phase ≢ finished → Advances cap p
unfolding enter cancel close_done
progress {cap} {p} c r n =
    let v = Reachable-IsValid r in
    elim (Phase-cases p.phase) [
      | inl e ↦ (enter looping p, waits e, ground arith)
      | inr (inl e) ↦ looping-Advances p c v e
      | inr (inr (inl e)) ↦ (cancel p, cancels e, ground arith)
      | inr (inr (inr (inl e))) ↦ (close_done p, closes e, ground arith)
      | inr (inr (inr (inr (inl e)))) ↦ closing-Advances p e (v.shut (ground arith))
      | inr (inr (inr (inr (inr e)))) ↦ absurd (n e)
    ]

Step-weight :
    {cap : ℕ} {p q : Pool}
    → Step cap p q
    → IsValid cap p
    → p.done ≡ true
    → (q.done ≡ true) × (weight q < weight p)
unfolding spawn acquire abandon quit release start finish settle drop_result expire enter cancel
    close_done
Step-weight (spawns e) v d = absurd (ground arith)
Step-weight (waits e) v d = absurd (ground arith)
Step-weight (fails e) v d = absurd (ground arith)
Step-weight (settles e f g) v d = absurd (ground arith)
Step-weight (gives_up e f g) v d = absurd (ground arith)
Step-weight (completes e f) v d = absurd (ground arith)
Step-weight (cancels e) v d = absurd (ground arith)
Step-weight (closes e) v d = absurd (ground arith)
Step-weight (leaves e f) v d = (d, ground arith)
Step-weight (acquires e f) v d = (d, omega arith)
Step-weight (abandons e f) v d = (d, omega arith)
Step-weight (quits e f) v d = (d, omega arith)
Step-weight (starts e f) v d = (d, omega arith)
Step-weight (finishes e) v d = (d, omega arith)
Step-weight (drops e f) v d = (d, omega arith)
Step-weight (releases e) v d = (d, omega arith)
Step-weight (expires e) v d = absurd (ground arith)

drain :
    {cap n : ℕ} {p q : Pool}
    → p.done ≡ true
    → IsValid cap p
    → Run cap n p q
    → (q.done ≡ true) × (n + weight q ≤ weight p)
drain d v rest = (d, omega arith)
drain d v (next r s) =
    let (e, l) = drain d v r in
    let (f, k) = Step-weight s (Run-IsValid r v) e in (f, omega (arith, l, k))

-- Once `done` is closed, at any point a run can reach, every continuation is at most as long as what
-- was left to do there, so the wait for the workers ends however they are scheduled.
pub drain_bounded :
    {cap n : ℕ} {p q : Pool}
    → Reachable cap p
    → p.done ≡ true
    → Run cap n p q
    → n + weight q ≤ weight p
drain_bounded w d r = (drain d (Reachable-IsValid w) r).1
