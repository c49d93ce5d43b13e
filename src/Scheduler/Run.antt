-- ===== src/Scheduler/Run.antt =====
-- ext/shreduler/src/tokio_scheduler/close.rs: the loop that joins futures and resumes their fibers.
pub mod Waiting
pub mod Frames
pub mod Empties
pub mod Terminates
pub mod Close
pub mod Interrupted
pub mod Accounts
pub mod Joins
pub mod Delivers
pub mod RootWaits
use shredular.Base.{ℕ, zero, suc, Bool, true, false, Option, none, some}
use shredular.Errors.{Error, Result, ok, err}
use shredular.GcCell.{GcCell, try_borrow_mut, drop_ref_mut, write}
use shredular.Async.{
  Outcome, done, M, pure, throw, fail, starved, modify, finally, checks, ◌>>=◌, ◌>>◌,
}
use shredular.Ruby.{Ruby}
use shredular.FiberFuture.{ResumableFiber, resume_if_alive}
use shredular.Scheduler.{Carriers, Process, Tokio, set_futures, set_runtime, runtime}

-- `tokio::task::JoinError`, of which the loop only prints what it says.
abbrev pub JoinError : Type 0
JoinError = ℕ

-- What `join_next` gives: nothing if the set is empty.
abbrev pub Joined : Type 0
Joined = Option (Result ResumableFiber JoinError)

-- The branch that `tokio::select!` takes: a task was joined, or `check_interrupts` ended in an error.
pub data Selected : Type 0 where
  joined : Joined → Selected
  interrupted : Error → Selected

abbrev pub continue : {S : Type 0} → M S (Unit {0}) → Bool → M S (Unit {0})
continue rest true = rest
continue rest false = pure tt

-- `select` is the wait of `tokio::select!`: it polls the tasks of the set, which may do anything, and
-- takes the joined one out of the set.
module _ {c : Carriers} (ruby : Ruby (Process c)) (tokio : Tokio c)
    (select : M (Process c) Selected) where
  unfoldable pub abort_all_tasks : Process c → Process c
  unfolding write
  abort_all_tasks s =
      set_futures (write (tokio.abort_all s.futures_to_run.value) s.futures_to_run) s

  unfoldable pub release_futures : Process c → Process c
  unfolding drop_ref_mut
  release_futures s = set_futures (drop_ref_mut s.futures_to_run) s

  unfoldable pub on_selected : Selected → M (Process c) Joined
  on_selected (joined task) = pure task
  on_selected (interrupted e) = do modify abort_all_tasks; throw e

  unfoldable pub wait_held : M (Process c) Joined
  wait_held = do selected ← select; on_selected selected

  abbrev pub under_guard : Process c → Result (GcCell c.JoinSet) Error → Outcome Joined × Process c
  under_guard s (ok held) = finally wait_held release_futures (set_futures held s)
  under_guard s (err e) = (fail e, s)

  -- The block that binds `task`: the guard of the set lives to its end.
  unfoldable pub take_task : M (Process c) Joined
  take_task s = under_guard s (try_borrow_mut s.futures_to_run)

  -- The `match task`; the answer says whether the loop goes on.
  unfoldable pub dispatch : Joined → M (Process c) Bool
  dispatch (some (ok fiber)) = do value ← resume_if_alive ruby fiber; pure true
  dispatch (some (err e)) = pure true
  dispatch none = pure false

  unfoldable pub round : M (Process c) Bool
  round = do task ← take_task; dispatch task

  -- `loop`, for at most so many rounds.
  unfoldable pub run_loop : ℕ → M (Process c) (Unit {0})
  run_loop zero = λ s. (starved, s)
  run_loop (suc n) = do more ← round; continue (run_loop n) more

  -- `block_on` runs the loop to its end on this thread.
  unfoldable pub run : ℕ → M (Process c) (Unit {0})
  run n = do rt ← checks runtime; run_loop n

  -- The `if let`, with the runtime that `take` has taken out of its place.
  abbrev pub shutdown_taken : Process c → Option c.Runtime → Outcome (Unit {0}) × Process c
  shutdown_taken s (some rt) =
      (done tt, set_runtime none (record s { outside = tokio.shutdown_timeout rt 5 s.outside }))
  shutdown_taken s none = (done tt, set_runtime none s)

  unfoldable pub shutdown : M (Process c) (Unit {0})
  shutdown s = shutdown_taken s s.runtime

  unfoldable pub close : ℕ → M (Process c) (Unit {0})
  close n = do run n; shutdown
