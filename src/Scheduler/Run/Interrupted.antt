-- ===== src/Scheduler/Run/Interrupted.antt =====
-- The loop of ext/shreduler/src/tokio_scheduler/close.rs when Ruby interrupts its wait.
use shredular.Base.{ℕ, suc, ◌≡◌}
use shredular.Errors.{Error}
use shredular.Async.{M, done, fail}
use shredular.GcCell.Borrowing.{IsHeld, with_value, drop-write}
use shredular.Ruby.{Ruby}
use shredular.Scheduler.{Carriers, Process, Tokio, set_futures}
use shredular.Scheduler.Run.Waiting.{FuturesFree, waiting, take_task-eq}
use shredular.Scheduler.Run.{
  Selected, interrupted, round, run_loop, take_task, wait_held, on_selected, abort_all_tasks,
  release_futures,
}

module _ {c : Carriers} (ruby : Ruby (Process c)) (tokio : Tokio c)
    (select : M (Process c) Selected) where
  -- The process after an interrupted wait, which left it as it is given.
  abbrev pub stopped : Process c → Process c
  stopped u = set_futures (with_value (tokio.abort_all u.futures_to_run.value)) u

  pub take_task_interrupted :
      (s u : Process c) (e : Error)
      → FuturesFree s
      → select (waiting s) ≡ (done (interrupted e), u)
      → IsHeld u.futures_to_run
      → take_task ruby tokio select s ≡ (fail e, stopped u)
  unfolding wait_held on_selected abort_all_tasks release_futures
  take_task_interrupted s u e f selected held = rw (
    take_task-eq ruby tokio select s f,
    selected,
    drop-write u.futures_to_run (tokio.abort_all u.futures_to_run.value) held,
  )

  -- When the wait of a round that began with the set free is interrupted, with the guard of the loop
  -- still held, the loop ends with that error; the tasks have been aborted and the set is free, and no
  -- fiber has been resumed: all else is as the wait left it.
  pub run_loop_interrupted :
      (n : ℕ) (s u : Process c) (e : Error)
      → FuturesFree s
      → select (waiting s) ≡ (done (interrupted e), u)
      → IsHeld u.futures_to_run
      → run_loop ruby tokio select (suc n) s ≡ (fail e, stopped u)
  unfolding run_loop round
  run_loop_interrupted n s u e f selected held = rw (take_task_interrupted s u e f selected held)
