-- ===== src/Sandbox/Pool.antt =====
-- internal/sandbox/loop.go and `Run` of sandbox.go: what the loop and the workers do. Workers differ
-- only in where they stand, so the pool counts them.
use cynative.Base.{ℕ, ◌+◌, ◌-◌, Bool, true, false}

-- Where `Run` stands: the script or a postback executes, the loop waits in its `select`, the run
-- has ended, its context is cancelled, `done` is closed, or every worker has left.
pub data Phase : Type 0 where
  executing looping ended cancelling closing finished : Phase

-- The per-run fields of `Sandbox`, and the workers: parked for a slot, just past winning one, past the
-- test of the context or inside the tool, parked on `pending` with a result, and about to return. All
-- but the first hold a slot of `sem`.
pub record Pool : Type 0 where
  pub phase : Phase
  pub in_flight : ℕ
  pub parked : ℕ
  pub won : ℕ
  pub running : ℕ
  pub posting : ℕ
  pub leaving : ℕ
  pub cancelled : Bool
  pub done : Bool

-- `Run` before the script is started
abbrev pub fresh : Pool
fresh = record {
  phase = executing;
  in_flight = 0;
  parked = 0;
  won = 0;
  running = 0;
  posting = 0;
  leaving = 0;
  cancelled = false;
  done = false;
}

-- the slots of `sem` that are taken
abbrev pub slots : Pool → ℕ
slots p = p.won + p.running + p.posting + p.leaving

abbrev pub workers : Pool → ℕ
workers p = p.parked + slots p

-- the call that `toolFunc` makes
unfoldable pub spawn : Pool → Pool
spawn p = record p { in_flight = p.in_flight + 1; parked = p.parked + 1 }

-- `s.sem <- struct{}{}` in `runWorker`
unfoldable pub acquire : Pool → Pool
acquire p = record p { parked = p.parked - 1; won = p.won + 1 }

-- `<-s.done` in the first `select` of `runWorker`
unfoldable pub abandon : Pool → Pool
abandon p = record p { parked = p.parked - 1 }

-- `ctx.Err() != nil`: the worker returns
unfoldable pub quit : Pool → Pool
quit p = record p { won = p.won - 1; leaving = p.leaving + 1 }

-- the deferred `<-s.sem`
unfoldable pub release : Pool → Pool
release p = record p { leaving = p.leaving - 1 }

-- the context is live: the call of `fn` comes next
unfoldable pub start : Pool → Pool
start p = record p { won = p.won - 1; running = p.running + 1 }

-- `fn` returns
unfoldable pub finish : Pool → Pool
finish p = record p { running = p.running - 1; posting = p.posting + 1 }

-- `pb := <-s.pending`: the loop takes a postback, which counts the call off and runs the script on
unfoldable pub settle : Pool → Pool
settle p = record p {
  phase = executing;
  in_flight = p.in_flight - 1;
  posting = p.posting - 1;
  leaving = p.leaving + 1;
}

-- `<-s.done` in the last `select` of `runWorker`
unfoldable pub drop_result : Pool → Pool
drop_result p = record p { posting = p.posting - 1; leaving = p.leaving + 1 }

-- the timeout, or the caller's cancellation, of the run context
unfoldable pub expire : Pool → Pool
expire p = record p { cancelled = true }

unfoldable pub enter : Phase → Pool → Pool
enter phase p = record p { phase = phase }

-- `cancel()` and `close(s.done)`
unfoldable pub cancel : Pool → Pool
cancel p = record p { phase = cancelling; cancelled = true }

unfoldable pub close_done : Pool → Pool
close_done p = record p { phase = closing; done = true }
