-- ===== src/Sandbox/Bounds.antt =====
-- What holds at every point of a run.
use cynative.Base.{ℕ, ◌+◌, ◌≤◌, ◌≡◌, refl, true, false, arith}
use cynative.Sandbox.Pool.{
  Phase, executing, looping, ended, cancelling, closing, finished, Pool, fresh, slots, workers,
  spawn, acquire, abandon, quit, release, start, finish, settle, drop_result, expire, enter, cancel,
  close_done,
}
use cynative.Sandbox.Steps.{
  Step, spawns, waits, fails, settles, gives_up, completes, cancels, closes, leaves, acquires,
  abandons, quits, starts, finishes, drops, releases, expires, Run, rest, next, Reachable,
}

-- How far the teardown has come.
abbrev pub stage : Phase → ℕ
stage executing = 0
stage looping = 0
stage ended = 0
stage cancelling = 1
stage closing = 2
stage finished = 3

-- No more workers hold a slot than there are; while the context is live every call in flight has
-- its worker, and the other workers are about to return; the teardown cancels the context before it
-- closes `done`; a finished run has no worker left.
pub record IsValid (cap : ℕ) (p : Pool) : Type 0 where
  pub bounded : slots p ≤ cap
  pub accounted : p.cancelled ≡ false → p.in_flight + p.leaving ≡ workers p
  pub torn : 1 ≤ stage p.phase → p.cancelled ≡ true
  pub shut : 2 ≤ stage p.phase → p.done ≡ true
  pub opened : p.done ≡ true → 2 ≤ stage p.phase
  pub left : p.phase ≡ finished → workers p ≡ 0

fresh-IsValid : (cap : ℕ) → IsValid cap fresh
fresh-IsValid cap = record {
  bounded = omega arith;
  accounted = λ _. refl;
  torn = λ h. absurd (omega arith);
  shut = λ h. absurd (omega arith);
  opened = λ h. cc h;
  left = λ h. cc h;
}

pub Step-IsValid : {cap : ℕ} {p q : Pool} → Step cap p q → IsValid cap p → IsValid cap q
unfolding spawn acquire abandon quit release start finish settle drop_result expire enter cancel
    close_done
Step-IsValid (spawns e) v = ground arith
Step-IsValid (waits e) v = ground arith
Step-IsValid (fails e) v = ground arith
Step-IsValid (settles e f g) v = ground arith
Step-IsValid (gives_up e f g) v = ground arith
Step-IsValid (completes e f) v = ground arith
Step-IsValid (cancels e) v = ground arith
Step-IsValid (closes e) v = ground arith
Step-IsValid (leaves e f) v = ground arith
Step-IsValid (acquires e f) v = ground arith
Step-IsValid (abandons e f) v = ground arith
Step-IsValid (quits e f) v = ground arith
Step-IsValid (starts e f) v = ground arith
Step-IsValid (finishes e) v = ground arith
Step-IsValid (drops e f) v = ground arith
Step-IsValid (releases e) v = ground arith
Step-IsValid (expires e) v = ground arith

pub Run-IsValid : {cap n : ℕ} {p q : Pool} → Run cap n p q → IsValid cap p → IsValid cap q
Run-IsValid rest v = v
Run-IsValid (next r s) v = Step-IsValid s (Run-IsValid r v)

-- At every point of a run no more workers hold a slot than the semaphore has; while the context is
-- live the calls in flight and the workers that are about to return make up all workers; `done` is
-- closed only after the context is cancelled; and when `Run` has returned no worker is left.
pub Reachable-IsValid : {cap : ℕ} {p : Pool} → Reachable cap p → IsValid cap p
Reachable-IsValid {cap} r = Run-IsValid r.1 (fresh-IsValid cap)

Step-running :
    {cap : ℕ} {p q : Pool}
    → Step cap p q
    → p.cancelled ≡ true
    → (q.cancelled ≡ true) × (q.running ≤ p.running)
unfolding spawn acquire abandon quit release start finish settle drop_result expire enter cancel
    close_done
Step-running (spawns e) c = ground arith
Step-running (waits e) c = ground arith
Step-running (fails e) c = ground arith
Step-running (settles e f g) c = ground arith
Step-running (gives_up e f g) c = ground arith
Step-running (completes e f) c = ground arith
Step-running (cancels e) c = ground arith
Step-running (closes e) c = ground arith
Step-running (leaves e f) c = ground arith
Step-running (acquires e f) c = ground arith
Step-running (abandons e f) c = ground arith
Step-running (quits e f) c = ground arith
Step-running (starts e f) c = ground arith
Step-running (finishes e) c = ground arith
Step-running (drops e f) c = ground arith
Step-running (releases e) c = ground arith
Step-running (expires e) c = ground arith

-- Once the run context has ended no further worker passes the context's test, whatever the
-- goroutines do next: the number of calls past it and not yet back from the tool never grows.
pub none_starts :
    {cap n : ℕ} {p q : Pool}
    → p.cancelled ≡ true
    → Run cap n p q
    → (q.cancelled ≡ true) × (q.running ≤ p.running)
none_starts c rest = (c, omega arith)
none_starts c (next r s) =
    let (d, l) = none_starts c r in let (e, k) = Step-running s d in (e, omega (arith, l, k))
