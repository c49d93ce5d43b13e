-- ===== src/Tests/Sessions.antt =====
-- A session in which the root fiber 3 makes the fiber 5, which makes 7, which waits for a future.
use mathlib.Core.List.{Mem, Memᴰ}
use mathlib.Mathlib.Data.Multiset.{of_list}
use shredular.Base.{ℕ, ◌+◌, ◌≡◌, ◌≢◌, ◌⊎◌, refl, List, [], ◌∷◌, some, none, All, arith}
use shredular.Errors.{Value, ok}
use shredular.Async.{M, done, pure}
use shredular.GcCell.{try_borrow_mut, drop_ref_mut, write}
use shredular.GcCell
use shredular.GcCell.Borrowing.{with_value}
use shredular.Fiber.{Fiber, unknown, current, check_suspended, eq}
use shredular.FiberFuture.{ResumableFiber, FiberFuture}
use shredular.Scheduler.{new, set_futures}
use shredular.Scheduler.FiberSpawn.{Proc, new_nonblocking, is_current_fiber_root}
use shredular.Scheduler.Run.Joins.{fibers}
use shredular.Scheduler.Run.{take_task, wait_held, release_futures, on_selected}
use shredular.Scheduler.Session.{
  Ledger, Session, Begun, Step, Reach, active, waiting, finished, making, here, there, start, later,
  made_by_root, made_by_fiber, waited, joined_one, gave_back, ended,
}
use shredular.Scheduler.Spawning.{spawn-eq}
use shredular.Scheduler.Session.Accounted.{Accounted}
use shredular.Scheduler.Session.Ends.{empty_set-ended}
use shredular.Scheduler.Session.Invariant.{session-Accounted}
use shredular.Scheduler.Session.Makers.{maker-waits}
use shredular.Scheduler.Session.Refines.{session-Turns}
use shredular.Scheduler.Session.Turns.{view, Turns}
use shredular.Tests.Accounts.{select, select_laws, join_laws, select_root}
use shredular.Tests.World.{World, carriers, ruby, tokio, tokio_laws, idle, nil_value}

abbrev pub fiber_new : Proc carriers → M World Value
fiber_new block s = (done (s.outside.running + 2), s)

abbrev pub fiber : ℕ → Fiber unknown
fiber n = record { raw = n }

-- The process while a fiber runs, with tasks of some fibers in the set.
abbrev pub process_of : ℕ → List (FiberFuture ℕ) → World
process_of n ts =
    set_futures (with_value ts) (record idle { outside = record (idle.outside) { running = n } })

abbrev at : ℕ → List (FiberFuture ℕ) → Ledger → Session carriers
at n ts l = record { process = process_of n ts; ledger = l }

abbrev pub task_of : ℕ → FiberFuture ℕ
task_of n = record { future = 0; fiber = fiber n }

abbrev pub begun : Session carriers
begun = at 3 [] []

abbrev pub one_made : Session carriers
one_made = at 5 [] ((fiber 5, active) ∷ [])

abbrev pub two_made : Session carriers
two_made = at 7 [] ((fiber 5, making (fiber 7)) ∷ (fiber 7, active) ∷ [])

abbrev pub one_waits : Session carriers
one_waits = at 3 (task_of 7 ∷ []) ((fiber 5, making (fiber 7)) ∷ (fiber 7, waiting) ∷ [])

abbrev pub back_at_work : Session carriers
back_at_work = at 7 [] ((fiber 5, making (fiber 7)) ∷ (fiber 7, active) ∷ [])

abbrev given_back : Session carriers
given_back = at 5 [] ((fiber 5, active) ∷ (fiber 7, finished) ∷ [])

abbrev all_done : Session carriers
all_done = at 3 [] ((fiber 5, finished) ∷ (fiber 7, finished) ∷ [])

abbrev pub block : Proc carriers
block args = pure nil_value

abbrev pub StepIn : Session carriers → Session carriers → Type 0
StepIn = Step ruby tokio fiber_new select

abbrev ReachIn : Session carriers → Session carriers → Type 0
ReachIn = Reach ruby tokio fiber_new select

pub begun-Begun : Begun ruby tokio begun
unfolding new current GcCell.new
begun-Begun = record {
  before = process_of 3 [];
  created = refl;
  same_fiber = refl;
  no_fibers = refl;
}

pub makes_first : StepIn begun one_made
unfolding is_current_fiber_root eq new_nonblocking
makes_first =
    made_by_root block (process_of 3 []) (record { raw = 5 }) refl refl (refl, refl)
      (λ e. omega (arith, e)) tt refl ((refl, refl), refl)

makes_second : StepIn one_made two_made
unfolding is_current_fiber_root eq new_nonblocking
makes_second =
    made_by_fiber block (process_of 5 []) (record { raw = 7 }) ((fiber 5, making (fiber 7)) ∷ [])
      refl refl (refl, refl) (λ e. omega (arith, e)) ((λ e. cc), tt) here refl ((refl, refl), refl)

waits : StepIn two_made one_waits
unfolding check_suspended
waits =
    waited (pure nil_value) 7 (process_of 7 (task_of 7 ∷ [])) (record { raw = 3 })
      (spawn-eq ruby tokio (pure nil_value) (process_of 7 [])
        (record { no_reader = refl; no_writer = refl }))
      refl (there here) ((refl, refl), refl)

pub joins_one : StepIn one_waits back_at_work
unfolding take_task wait_held release_futures on_selected try_borrow_mut drop_ref_mut
    check_suspended
joins_one =
    joined_one (record { fiber = fiber 7; value = ok nil_value }) (process_of 3 [])
      (record { raw = 7 }) refl refl refl (there here) ((refl, refl), refl)

gives_back : StepIn back_at_work given_back
unfolding check_suspended
gives_back =
    gave_back (fiber 5) (record { raw = 5 }) ((fiber 5, active) ∷ (fiber 7, active) ∷ []) here
      (there here) refl ((refl, refl), refl)

ends : StepIn given_back all_done
ends = ended (λ e. cc, (λ e. cc, tt)) here ((refl, refl), refl)

pub to_two : ReachIn begun two_made
to_two = later (later start makes_first) makes_second

pub to_waiting : ReachIn begun one_waits
to_waiting = later to_two waits

to_end : ReachIn begun all_done
to_end = later (later (later to_waiting joins_one) gives_back) ends

pub joins :
    take_task ruby tokio select one_waits.process
    ≡ (done (some (ok (record { fiber = fiber 7; value = ok nil_value }))), process_of 3 [])
unfolding take_task wait_held release_futures on_selected try_borrow_mut drop_ref_mut
joins = refl

finds_none : take_task ruby tokio select all_done.process ≡ (done none, process_of 3 [])
unfolding take_task wait_held release_futures on_selected try_borrow_mut drop_ref_mut
finds_none = refl

session-Accounted_example : Accounted ruby tokio one_waits
session-Accounted_example =
    session-Accounted ruby tokio fiber_new select tokio_laws select_laws join_laws select_root begun
      one_waits begun-Begun to_waiting

empty_set-ended_example : All (λ e. e.1 ≡ finished) all_done.ledger
empty_set-ended_example =
    empty_set-ended ruby tokio fiber_new select tokio_laws select_laws join_laws select_root begun
      all_done (process_of 3 []) begun-Begun to_end refl finds_none refl

maker-waits_example :
    (Memᴰ (fiber 5, making (fiber 7)) back_at_work.ledger
      × (ruby.rb_fiber_current back_at_work.process ≢ 5)
      × (¬ Mem (fiber 5) (fibers tokio back_at_work.process))
      × ((r : ResumableFiber) (t : World)
          → take_task ruby tokio select back_at_work.process ≡ (done (some (ok r)), t)
          → r.fiber ≢ fiber 5))
    ⊎ Memᴰ (fiber 7, finished) back_at_work.ledger
maker-waits_example =
    maker-waits ruby tokio fiber_new select tokio_laws select_laws join_laws select_root begun
      two_made back_at_work (fiber 5) (fiber 7) begun-Begun to_two (Memᴰ.head refl)
      (later (later start waits) joins_one)

session-Turns_example :
    (view ruby tokio begun.process ≡ record { running = fiber 3; waiters = of_list [] })
    × Turns (fiber 3) (view ruby tokio begun.process) (view ruby tokio all_done.process)
    × (all_done.process.root_fiber ≡ fiber 3)
session-Turns_example =
    session-Turns ruby tokio fiber_new select tokio_laws select_laws join_laws select_root begun
      all_done begun-Begun to_end
