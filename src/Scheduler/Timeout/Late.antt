-- ===== src/Scheduler/Timeout/Late.antt =====
-- The timer of `timeout_after` (ext/shreduler/src/tokio_scheduler/timeout_after.rs) and the block that
-- it is to limit.
use shredular.Base.{◌≡◌, ◌≢◌, ap, ◌∙◌, [], ◌∷◌, ◌++◌, some}
use shredular.Errors.{Value, ExceptionClass}
use shredular.GcCell.Borrowing.{IsFree, with_value}
use shredular.Async.{Outcome, done}
use shredular.Ruby.{Ruby}
use shredular.Fiber.{current, raise}
use shredular.Fiber.Checks.{check_suspended_ok}
use shredular.TimeoutDuration.{TimeoutDuration}
use shredular.Scheduler.{Carriers, Process, Block, Tokio, TokioLaws, set_futures}
use shredular.Scheduler.Spawning.{spawn-eq, new_task}
use shredular.Scheduler.Timeout.{Timers, deadline, timeout_future, timeout_after}

module _ {c : Carriers} (timers : Timers c) (ruby : Ruby (Process c)) (tokio : Tokio c) where
  abbrev pub timer : c.Instant → ExceptionClass → Value → Process c → Block c
  timer at klass message s =
      timeout_future timers ruby tokio at (record { raw = ruby.rb_fiber_current s }) klass message

  -- The process as the block of `timeout_after` finds it.
  abbrev pub with_timer : c.Instant → ExceptionClass → Value → Process c → Process c
  with_timer at klass message s =
      set_futures
        (with_value
          (tokio.spawn_task s.futures_to_run.value
            (new_task ruby tokio (timer at klass message s) s)).1)
        s

  timeout_after-eq :
      (d : TimeoutDuration) (klass : ExceptionClass) (message : Value) (blk : Block c)
      (s : Process c) (at : c.Instant)
      → timers.checked_add (timers.now s.outside) d.duration ≡ some at
      → IsFree s.futures_to_run
      → timeout_after timers ruby tokio d klass message (some blk) s
        ≡ blk (with_timer at klass message s)
  unfolding timeout_after deadline current
  timeout_after-eq d klass message blk s at sum free =
      rw (sum, spawn-eq ruby tokio (timer at klass message s) s free)

  -- With a deadline that can be computed and the set free, `timeout_after` with a block is the
  -- block, run with the timer added to the set; and after a block that leaves the set alone the
  -- timer is still the last task of the set, under the fiber that called `timeout_after`.
  pub timeout_after_keeps_timer :
      (laws : TokioLaws tokio) (d : TimeoutDuration) (klass : ExceptionClass) (message : Value)
      (blk : Block c) (s : Process c) (at : c.Instant)
      → timers.checked_add (timers.now s.outside) d.duration ≡ some at
      → IsFree s.futures_to_run
      → (blk (with_timer at klass message s)).1.futures_to_run.value
        ≡ (with_timer at klass message s).futures_to_run.value
      → let after = timeout_after timers ruby tokio d klass message (some blk) s in
        (after ≡ blk (with_timer at klass message s))
        × (tokio.tasks after.1.futures_to_run.value
            ≡ tokio.tasks s.futures_to_run.value
              ++ new_task ruby tokio (timer at klass message s) s ∷ [])
  timeout_after_keeps_timer laws d klass message blk s at sum free quiet =
      let is_blk = timeout_after-eq d klass message blk s at sum free in
      (
        is_blk,
        ap (λ (w : Outcome Value × Process c). tokio.tasks w.1.futures_to_run.value) is_blk
            ∙ ap tokio.tasks quiet
            ∙ laws.tasks-spawn_task s.futures_to_run.value
                (new_task ruby tokio (timer at klass message s) s),
      )

  -- Once its sleep is over and the two instances of the class are made, the timer raises the
  -- second of them in the fiber that called `timeout_after`, if that fiber is alive and does not
  -- run, and it looks at nothing else.
  pub timer_raises :
      (klass : ExceptionClass) (message : Value) (s t u v w : Process c) (at : c.Instant)
      (first second : Value)
      → timers.sleep_until at t ≡ (done tt, u)
      → ruby.new_instance klass message u ≡ (done first, v)
      → ruby.new_instance klass message v ≡ (done second, w)
      → ruby.rb_fiber_alive_p w (ruby.rb_fiber_current s) ≡ ruby.q_true
      → ruby.rb_fiber_current w ≢ ruby.rb_fiber_current s
      → timer at klass message s t ≡ ruby.rb_fiber_raise (ruby.rb_fiber_current s) (second ∷ []) w
  unfolding timeout_future raise
  timer_raises klass message s t u v w at first second slept made remade alive other = rw (
    slept,
    made,
    remade,
    check_suspended_ok ruby (record { raw = ruby.rb_fiber_current s }) w alive other,
  )
