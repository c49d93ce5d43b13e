-- ===== src/Tests/Calls.antt =====
-- A call of a method, and the round of the loop that answers it.
use shredular.Base.{ℕ, true, ◌≡◌, ◌≢◌, refl, [], ◌∷◌, some, arith}
use shredular.Errors.{Value, Error, Result, ok}
use shredular.Async.{Outcome, done, M, pure}
use shredular.IoBuffer
use shredular.GcCell.{try_borrow_mut, drop_ref_mut, write}
use shredular.GcCell.Borrowing.{with_value}
use shredular.Fiber.{check_suspended, transfer}
use shredular.FiberFuture.{FiberFuture, ResumableFiber, Poll, ready, poll}
use shredular.FiberFuture.Polling.{drive, drive_inner}
use shredular.RubyIo.{new_with_interest, from_value_and_raw_fd}
use shredular.TimeoutDuration.{from_secs}
use shredular.Scheduler.{set_futures, spawn, spawn_and_transfer}
use shredular.Scheduler.IoReadWrite
use shredular.Scheduler.Methods.{Outer, Call, io_read, call}
use shredular.Scheduler.Methods.Suspends.{Suspended, call-Suspended}
use shredular.Scheduler.Run.{round, release_futures}
use shredular.Scheduler.Run.Waiting.{FuturesFree, waiting}
use shredular.Scheduler.Run.Delivers.{hand, round-spawn}
use shredular.Tests.World.{
  interning, World, carriers, ruby, tokio, tokio_laws, timers, oneshot, select, idle, note,
  nil_value,
}
use shredular.Tests.Kernel.{wait, lookup}
use shredular.Tests.Descriptors.{io, events, streams}
use shredular.Tests.Selects.{Tasks, sets}

abbrev outer : Outer carriers ℕ ℕ ℕ Tasks ℕ
outer = record {
  ruby = ruby;
  tokio = tokio;
  timers = timers;
  oneshot = oneshot;
  wait = wait;
  events = events;
  io = io;
  streams = streams;
  sets = sets;
  lookup = lookup;
  fiber_calls = record {
    interning = interning;
    hash_new = λ s. (done 50, s);
    aset = λ h k v s. (done tt, note 51 s);
    symbol = λ name. 52;
    q_false = 0;
    funcall_with_block = λ klass name kwargs block s. (done 5, note klass s);
  };
  select = select;
}

-- The fiber 2 reads, and the root fiber comes back at once.
abbrev three_bytes : Call carriers
three_bytes = io_read 40 60 3 (record { duration = from_secs 0 })

abbrev task : FiberFuture ℕ
task = record { future = 0; fiber = record { raw = 2 } }

abbrev one_task : World
one_task = set_futures (with_value (task ∷ [])) idle

read_called : call outer 5 three_bytes idle ≡ (done nil_value, note 3 one_task)
unfolding call IoReadWrite.io_read IoBuffer.try_convert new_with_interest from_value_and_raw_fd
    spawn_and_transfer spawn check_suspended transfer try_borrow_mut drop_ref_mut write
read_called = refl

call-Suspended_example : Suspended ruby tokio nil_value (note 3 one_task)
call-Suspended_example =
    call-Suspended outer tokio_laws 5 three_bytes idle (note 3 one_task) nil_value refl read_called

-- The task is ready at its first poll, in the root fiber.
abbrev poll_inner : ℕ → World → Poll (Result Value Error) × ℕ × World
poll_inner future s = (ready (ok nil_value), future, s)

abbrev wake : World → World
wake s = s

abbrev in_root : World
in_root = record one_task { outside = record (one_task.outside) { running = 3 } }

abbrev answer : ResumableFiber
answer = record { fiber = record { raw = 2 }; value = ok nil_value }

inner_ready : drive_inner poll_inner wake 1 0 in_root ≡ (some (ok nil_value), in_root)
unfolding drive_inner
inner_ready = refl

task_ready : drive poll_inner wake 1 task in_root ≡ (some answer, in_root)
unfolding drive poll
task_ready = refl

in_root-FuturesFree : FuturesFree in_root
in_root-FuturesFree = record { no_reader = refl; no_writer = refl }

abbrev taken : World
taken = set_futures (record (waiting in_root).futures_to_run { value = [] }) in_root

root-ne-two : ruby.rb_fiber_current (release_futures ruby tokio select taken) ≢ 2
unfolding release_futures
root-ne-two h = omega arith

alive : ruby.rb_fiber_alive_p (release_futures ruby tokio select taken) 2 ≡ ruby.q_true
alive = refl

idle-FuturesFree : FuturesFree idle
idle-FuturesFree = record { no_reader = refl; no_writer = refl }

spawned : tokio.tasks (spawn ruby tokio (pure nil_value) idle).1.futures_to_run.value ≡ task ∷ []
unfolding spawn try_borrow_mut drop_ref_mut write
spawned = refl

round-spawn_example :
    round ruby tokio select in_root
    ≡ shredular.Async.bind
        (hand ruby 2 (ok nil_value) (release_futures ruby tokio select taken))
        (λ _. pure true)
round-spawn_example =
    round-spawn ruby tokio select poll_inner wake tokio_laws (pure nil_value) task idle in_root
      in_root in_root in_root taken 1 (ok nil_value) answer idle-FuturesFree spawned inner_ready
      task_ready in_root-FuturesFree refl alive root-ne-two
