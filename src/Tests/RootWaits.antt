-- ===== src/Tests/RootWaits.antt =====
-- A wait on the root fiber, and the loop that joins its future beside that of another fiber.
use shredular.Base.{ℕ, ◌≡◌, refl, [], ◌∷◌, some}
use shredular.Errors.{Value, Error, Result, ok, error, runtime_error, fiber_active}
use shredular.Async.{fail, pure}
use shredular.GcCell.Borrowing.{IsFree, with_value}
use shredular.FiberFuture.{FiberFuture, ResumableFiber, Poll, ready, poll}
use shredular.FiberFuture.Polling.{drive}
use shredular.Scheduler.{set_futures, spawn_and_transfer}
use shredular.Scheduler.Spawning.{with_task}
use shredular.Scheduler.Run.{run_loop, release_futures}
use shredular.Scheduler.Run.Waiting.{FuturesFree, waiting}
use shredular.Scheduler.Run.RootWaits.{root_wait-ends_loop}
use shredular.Tests.World.{World, ruby, tokio, select, idle, nil_value}

-- The fiber 2 waits, and the root fiber 3 runs.
abbrev other_task : FiberFuture ℕ
other_task = record { future = 0; fiber = record { raw = 2 } }

abbrev root_task : FiberFuture ℕ
root_task = record { future = 0; fiber = record { raw = 3 } }

abbrev on_root : World
on_root = record idle { outside = record (idle.outside) { running = 3 } }

on_root-IsFree : IsFree on_root.futures_to_run
on_root-IsFree = record { no_reader = refl; no_writer = refl }

abbrev poll_inner : ℕ → World → Poll (Result Value Error) × ℕ × World
poll_inner future s = (ready (ok nil_value), future, s)

abbrev wake : World → World
wake s = s

abbrev answer : ResumableFiber
answer = record { fiber = record { raw = 3 }; value = ok nil_value }

task_ready : drive poll_inner wake 1 root_task on_root ≡ (some answer, on_root)
unfolding drive poll
task_ready = refl

abbrev two_tasks : World
two_tasks = set_futures (with_value (root_task ∷ other_task ∷ [])) on_root

two_tasks-FuturesFree : FuturesFree two_tasks
two_tasks-FuturesFree = record { no_reader = refl; no_writer = refl }

abbrev taken : World
taken =
    set_futures (record (waiting two_tasks).futures_to_run { value = other_task ∷ [] }) two_tasks

root_wait-ends_loop_example :
    (spawn_and_transfer ruby tokio (pure nil_value) on_root
      ≡ (fail (error runtime_error fiber_active), with_task ruby tokio (pure nil_value) on_root))
    × (run_loop ruby tokio select 8 two_tasks
        ≡ (fail (error runtime_error fiber_active), release_futures ruby tokio select taken))
unfolding release_futures
root_wait-ends_loop_example =
    root_wait-ends_loop ruby tokio select poll_inner wake (pure nil_value) on_root on_root on_root
      two_tasks taken 1 7 answer on_root-IsFree refl refl refl task_ready two_tasks-FuturesFree refl
      refl refl
