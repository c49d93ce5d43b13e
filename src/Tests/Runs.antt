-- ===== src/Tests/Runs.antt =====
-- The loop on a set of two tasks, of which one belongs to a dead fiber.

use shredular.Base.{◌⊎◌, ◌≡◌, ◌≢◌, refl, [], none, ap}
use shredular.Errors.{
  runtime_error, fiber_active, error, poisoned_cell_error, already_borrowed, new_base_error,
  runtime_is_closed,
}
use shredular.Async.{done, fail, pure, finally, bind}
use shredular.GcCell.{try_borrow_mut, drop_ref_mut}
use shredular.FiberFuture.{resume_if_alive, resume_with}
use shredular.Fiber.{is_alive, check_suspended, transfer}
use shredular.Scheduler.{spawn_and_transfer, set_runtime, spawn, runtime}
use shredular.Scheduler.Spawning.{with_task, spawn_and_transfer_lem}
use shredular.Scheduler.Run.{
  run, round, run_loop, close, shutdown, take_task, wait_held, release_futures, on_selected,
  dispatch,
}
use shredular.Scheduler.Run.Waiting.{FuturesFree, waiting, spawn_refused_while_waiting}
use shredular.Scheduler.Run.Empties.{run-empties}
use shredular.Scheduler.Run.Close.{close_once}
use shredular.Tests.World.{
  World, ruby, tokio, select, select_laws, keeps_free, idle, busy, note, nil_value,
}

busy-FuturesFree : FuturesFree busy
busy-FuturesFree = record { no_reader = refl; no_writer = refl }

idle-FuturesFree : FuturesFree idle
idle-FuturesFree = record { no_reader = refl; no_writer = refl }

-- The fiber 4 was transferred to, and the dead fiber was not.
abbrev joined_all : World
joined_all = note 4 idle

run-busy : run ruby tokio select 3 busy ≡ (done tt, joined_all)
unfolding run run_loop round take_task wait_held release_futures on_selected dispatch
    resume_if_alive resume_with is_alive check_suspended transfer runtime try_borrow_mut
    drop_ref_mut
run-busy = refl

close-busy : close ruby tokio select 3 busy ≡ (done tt, set_runtime none joined_all)
unfolding close shutdown
close-busy = ap (λ w. bind w (λ x. shutdown ruby tokio select)) run-busy

run-empties_example : (tokio.tasks joined_all.futures_to_run.value ≡ []) × FuturesFree joined_all
run-empties_example =
    run-empties ruby tokio select select_laws keeps_free 3 busy joined_all busy-FuturesFree run-busy

close_once_example :
    (tokio.tasks joined_all.futures_to_run.value ≡ [])
    × (run ruby tokio select 5 (set_runtime none joined_all)
        ≡ (fail (new_base_error runtime_is_closed), set_runtime none joined_all))
    × (close ruby tokio select 5 (set_runtime none joined_all)
        ≡ (fail (new_base_error runtime_is_closed), set_runtime none joined_all))
close_once_example =
    close_once ruby tokio select select_laws keeps_free 3 5 busy (set_runtime none joined_all)
      busy-FuturesFree close-busy

spawn_refused_while_waiting_example :
    (take_task ruby tokio select busy
      ≡ finally (wait_held ruby tokio select) (release_futures ruby tokio select) (waiting busy))
    × (spawn ruby tokio (pure nil_value) (waiting busy)
        ≡ (fail (error poisoned_cell_error already_borrowed), waiting busy))
spawn_refused_while_waiting_example =
    spawn_refused_while_waiting ruby tokio select (pure nil_value) busy busy-FuturesFree

spawn_and_transfer_lem_example :
    ((busy.outside.running ≢ busy.root_fiber.raw)
      × (spawn_and_transfer ruby tokio (pure nil_value) busy
          ≡ ruby.rb_fiber_transfer 3 [] (with_task ruby tokio (pure nil_value) busy)))
    ⊎ ((busy.outside.running ≡ busy.root_fiber.raw)
        × (spawn_and_transfer ruby tokio (pure nil_value) busy ≡ (
          fail (error runtime_error fiber_active),
          with_task ruby tokio (pure nil_value) busy,
        )))
spawn_and_transfer_lem_example =
    spawn_and_transfer_lem ruby tokio (pure nil_value) busy busy-FuturesFree refl
