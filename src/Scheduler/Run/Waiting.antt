-- ===== src/Scheduler/Run/Waiting.antt =====
-- One round of the loop in ext/shreduler/src/tokio_scheduler/close.rs: who may borrow the set, when.
use shredular.Base.{◌≡◌, refl, [], none}
use shredular.Errors.{error, poisoned_cell_error, already_borrowed}
use shredular.GcCell.{write}
use shredular.GcCell.Borrowing.{IsFree, IsHeld, held_with, try_borrow_mut_free, drop_held}
use shredular.Async.{M, done, fail, finally}
use shredular.Async.Rules.{bind-state}
use shredular.Ruby.{Ruby}
use shredular.Scheduler.{Carriers, Process, Tokio, Block, set_futures, spawn}
use shredular.Scheduler.Spawning.{spawn_held}
use shredular.Scheduler.Run.{
  Selected, joined, interrupted, on_selected, wait_held, take_task, release_futures,
  abort_all_tasks,
}

-- The wait keeps the guard of the loop: nobody else can borrow the set, or drop that guard. And
-- `join_next` gives nothing only if the set is empty.
pub record SelectLaws {c : Carriers} (tokio : Tokio c) (select : M (Process c) Selected)
    : Type 0 where
  pub holds : (s : Process c) → IsHeld s.futures_to_run → IsHeld (select s).1.futures_to_run
  pub empties :
      (s t : Process c)
      → select s ≡ (done (joined none), t)
      → tokio.tasks t.futures_to_run.value ≡ []

module _ {c : Carriers} where
  -- The process as the wait finds it.
  abbrev pub waiting : Process c → Process c
  waiting s = set_futures (held_with s.futures_to_run.value) s

  abbrev pub FuturesFree : Process c → Type 0
  FuturesFree s = IsFree s.futures_to_run

  abbrev FuturesHeld : Process c → Type 0
  FuturesHeld s = IsHeld s.futures_to_run

module _ {c : Carriers} (ruby : Ruby (Process c)) (tokio : Tokio c)
    (select : M (Process c) Selected) where
  pub take_task-eq :
      (s : Process c)
      → FuturesFree s
      → take_task ruby tokio select s
        ≡ finally (wait_held ruby tokio select) (release_futures ruby tokio select) (waiting s)
  unfolding take_task
  take_task-eq s f = rw (try_borrow_mut_free s.futures_to_run f, take_task)

  -- From a process whose set is free, the wait of the loop begins with the set borrowed, where a
  -- `spawn` of any future gives "already borrowed" and changes nothing.
  pub spawn_refused_while_waiting :
      (future : Block c) (s : Process c)
      → FuturesFree s
      → (take_task ruby tokio select s
          ≡ finally (wait_held ruby tokio select) (release_futures ruby tokio select) (waiting s))
        × (spawn ruby tokio future (waiting s)
            ≡ (fail (error poisoned_cell_error already_borrowed), waiting s))
  spawn_refused_while_waiting future s f = (
    take_task-eq s f,
    spawn_held ruby tokio future (waiting s) (record { no_reader = refl; one_writer = refl }),
  )

  module _ (laws : SelectLaws tokio select) where
    on_selected-IsHeld :
        (sel : Selected) (s : Process c)
        → FuturesHeld s
        → FuturesHeld (on_selected ruby tokio select sel s).1
    unfolding on_selected abort_all_tasks write
    on_selected-IsHeld (joined t) s h = h
    on_selected-IsHeld (interrupted e) s h = record {
      no_reader = h.no_reader;
      one_writer = h.one_writer;
    }

    wait_held-IsHeld :
        (s : Process c) → FuturesHeld s → FuturesHeld (wait_held ruby tokio select s).1
    unfolding wait_held
    wait_held-IsHeld s h =
        bind-state FuturesHeld (select s) (on_selected ruby tokio select) (laws.holds s h)
          on_selected-IsHeld

    release-IsFree :
        (s : Process c) → FuturesHeld s → FuturesFree (release_futures ruby tokio select s)
    unfolding release_futures
    release-IsFree s h =
        rw (drop_held s.futures_to_run h) (record { no_reader = refl; no_writer = refl })

    -- If the wait keeps its guard, then however it ends, with a task, with nothing, with an
    -- interrupt or otherwise, a set that was free before it is free after it.
    pub take_task-IsFree :
        (s : Process c) → FuturesFree s → FuturesFree (take_task ruby tokio select s).1
    take_task-IsFree s f = rw (take_task-eq s f) (
        release-IsFree _
          (wait_held-IsHeld (waiting s) (record { no_reader = refl; one_writer = refl })))
