-- ===== src/Tests/Waits.antt =====
-- Blocked fibers and deadlines.
use shredular.Base.{ℕ, ◌≡◌, ◌≢◌, ◌⊎◌, inr, refl, sym, ◌∙◌, [], ◌∷◌, ◌++◌, some, arith}
use shredular.Errors.{
  Value, Error, error, type_error, runtime_error, not_a_fiber, fiber_not_alive, fiber_active,
  new_base_error, could_not_unblock_fiber, new_timeout_error, timed_out, unblocking_fiber, reading,
  timeout_error,
}
use shredular.Async.{Outcome, done, fail}
use shredular.GcCell.{try_borrow_mut}
use shredular.GcCell.Borrowing.{IsFree, with_value}
use shredular.Fiber.{Fiber, suspended, eq}
use shredular.HashMap.{get}
use shredular.TimeoutDuration.{TimeoutDuration, from_secs, into_std}
use shredular.Scheduler.{Block, set_blockers}
use shredular.Scheduler.Spawning.{new_task}
use shredular.Scheduler.Timeout.{with_timeout, deadline, timeout_after}
use shredular.Scheduler.Timeout.Late.{timer, with_timer, timeout_after_keeps_timer}
use shredular.Scheduler.BlockUnblock.{
  change_cell, change_blockers, remove_blocker, receive, block_future, wake, unblock,
}
use shredular.Scheduler.BlockUnblock.Wakes.{without, unblock_lem, unblock_refused}
use shredular.Scheduler.BlockUnblock.Stale.{unblock_after_timeout}
use shredular.Tests.World.{
  World, carriers, ruby, tokio, tokio_laws, timers, oneshot, idle, note, nil_value,
}

abbrev after_secs : ℕ → TimeoutDuration
after_secs n = record { duration = from_secs n }

-- A wait of 7 seconds is in time, one of 3 is late.
abbrev slow : Block carriers
slow s = (done nil_value, note 1 s)

in_time :
    with_timeout timers reading (some (after_secs 7)) slow idle ≡ (done nil_value, note 1 idle)
unfolding with_timeout deadline
in_time = refl

late :
    with_timeout timers reading (some (after_secs 3)) slow idle
    ≡ (fail (error timeout_error (timed_out reading 3 0)), idle)
unfolding with_timeout deadline into_std
late = refl

idle-IsFree : IsFree idle.futures_to_run
idle-IsFree = record { no_reader = refl; no_writer = refl }

abbrev after_block : Outcome Value × World
after_block =
    timeout_after timers ruby tokio (after_secs 3) timeout_error nil_value (some slow) idle

abbrev the_timer : Block carriers
the_timer = timer timers ruby tokio 3 timeout_error nil_value idle

timeout_after_keeps_timer_example :
    (after_block ≡ slow (with_timer timers ruby tokio 3 timeout_error nil_value idle))
    × (tokio.tasks after_block.1.futures_to_run.value
        ≡ tokio.tasks idle.futures_to_run.value ++ new_task ruby tokio the_timer idle ∷ [])
timeout_after_keeps_timer_example =
    timeout_after_keeps_timer timers ruby tokio tokio_laws (after_secs 3) timeout_error nil_value
      slow idle 3 refl idle-IsFree refl

-- The root fiber runs when the timer is due.
abbrev in_root : World
in_root = record idle { outside = record (idle.outside) { running = 3 } }

-- The fiber 4 is blocked with the sender 6, and the root fiber runs.
abbrev blocked : Fiber suspended
blocked = record { raw = 4 }

abbrev blocking : World
blocking = set_blockers (with_value ((blocked, 6) ∷ [])) in_root

blocking-IsFree : IsFree blocking.blockers
blocking-IsFree = record { no_reader = refl; no_writer = refl }

root-ne-blocked : in_root.outside.running ≢ blocked.raw
root-ne-blocked h = omega arith

abbrev other : Fiber suspended
other = record { raw = 5 }

unblock_lem_example :
    (unblock ruby tokio timers oneshot 4 blocking
      ≡ wake ruby tokio timers oneshot
          (get blocked blocking.blockers.value)
          (without blocked blocking))
    × (get other (without blocked blocking).blockers.value ≡ get other blocking.blockers.value)
unfolding get eq
unblock_lem_example =
    unblock_lem ruby tokio timers oneshot 4 blocking other refl refl root-ne-blocked blocking-IsFree

unblock_refused_example :
    (unblock ruby tokio timers oneshot 3 blocking ≡ (fail (error type_error not_a_fiber), blocking))
    ⊎ (unblock ruby tokio timers oneshot 3 blocking
        ≡ (fail (error runtime_error fiber_not_alive), blocking))
    ⊎ (unblock ruby tokio timers oneshot 3 blocking
        ≡ (fail (error runtime_error fiber_active), blocking))
unblock_refused_example = unblock_refused ruby tokio timers oneshot 3 blocking (inr (inr refl))

abbrev timeout_of_fiber : Error
timeout_of_fiber = new_timeout_error (timed_out unblocking_fiber 3 0)

wait_fails :
    with_timeout timers unblocking_fiber
      (some (after_secs 3))
      (receive ruby tokio timers oneshot 6)
      blocking
    ≡ (fail timeout_of_fiber, blocking)
unfolding with_timeout deadline into_std
wait_fails = refl

abbrev timed : Outcome Value × World
timed = block_future ruby tokio timers oneshot 6 (some (after_secs 3)) blocking

timed_running : ruby.rb_fiber_current timed.1 ≡ in_root.outside.running
unfolding block_future with_timeout deadline remove_blocker change_blockers change_cell
    try_borrow_mut
timed_running = refl

timed_fiber : ruby.rb_fiber_current timed.1 ≢ blocked.raw
timed_fiber h = root-ne-blocked (sym timed_running ∙ h)

entry : get blocked blocking.blockers.value ≡ some 6
unfolding get
entry = refl

unblock_after_timeout_example :
    (unblock ruby tokio timers oneshot 4 timed.1).0 ≡ fail (new_base_error could_not_unblock_fiber)
unblock_after_timeout_example =
    unblock_after_timeout ruby tokio timers oneshot 6 (some (after_secs 3)) timeout_of_fiber
      blocking blocking blocked 6 wait_fails blocking-IsFree root-ne-blocked entry (λ w. refl) refl
      refl timed_fiber
