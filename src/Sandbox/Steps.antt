-- ===== src/Sandbox/Steps.antt =====
-- The steps of one run, each with the condition under which the goroutine can take it.
use cynative.Base.{ℕ, suc, ◌<◌, ◌≡◌, true, false}
use cynative.Sandbox.Pool.{
  executing, looping, ended, cancelling, closing, finished, Pool, fresh, slots, workers, spawn,
  acquire, abandon, quit, release, start, finish, settle, drop_result, expire, enter, cancel,
  close_done,
}

-- `cap` is `maxConcurrency`, the capacity of `sem`.
pub data Step (cap : ℕ) : Pool → Pool → Type 0 where
  spawns : {p : Pool} → p.phase ≡ executing → Step cap p (spawn p)
  -- `RunProgram` or a postback returns without an error, or with one
  waits : {p : Pool} → p.phase ≡ executing → Step cap p (enter looping p)
  fails : {p : Pool} → p.phase ≡ executing → Step cap p (enter ended p)
  -- the `select` and the test of `loop`
  settles : {p : Pool} → p.phase ≡ looping → 0 < p.in_flight → 0 < p.posting → Step cap p (settle p)
  gives_up :
      {p : Pool}
      → p.phase ≡ looping
      → 0 < p.in_flight
      → p.cancelled ≡ true
      → Step cap p (enter ended p)
  completes : {p : Pool} → p.phase ≡ looping → p.in_flight ≡ 0 → Step cap p (enter ended p)
  -- the teardown of `Run`
  cancels : {p : Pool} → p.phase ≡ ended → Step cap p (cancel p)
  closes : {p : Pool} → p.phase ≡ cancelling → Step cap p (close_done p)
  leaves : {p : Pool} → p.phase ≡ closing → workers p ≡ 0 → Step cap p (enter finished p)
  -- `runWorker`
  acquires : {p : Pool} → 0 < p.parked → slots p < cap → Step cap p (acquire p)
  abandons : {p : Pool} → 0 < p.parked → p.done ≡ true → Step cap p (abandon p)
  quits : {p : Pool} → 0 < p.won → p.cancelled ≡ true → Step cap p (quit p)
  starts : {p : Pool} → 0 < p.won → p.cancelled ≡ false → Step cap p (start p)
  finishes : {p : Pool} → 0 < p.running → Step cap p (finish p)
  drops : {p : Pool} → 0 < p.posting → p.done ≡ true → Step cap p (drop_result p)
  releases : {p : Pool} → 0 < p.leaving → Step cap p (release p)
  -- the run context ends
  expires : {p : Pool} → p.cancelled ≡ false → Step cap p (expire p)

-- `n` steps in a row.
pub data Run (cap : ℕ) : ℕ → Pool → Pool → Type 0 where
  rest : {p : Pool} → Run cap 0 p p
  next : {n : ℕ} {p q r : Pool} → Run cap n p q → Step cap q r → Run cap (suc n) p r

abbrev pub Reachable : ℕ → Pool → Type 0
Reachable cap p = (n : ℕ) × Run cap n fresh p
