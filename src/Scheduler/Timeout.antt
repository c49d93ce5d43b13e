-- ===== src/Scheduler/Timeout.antt =====
-- ext/shreduler/src/tokio_scheduler/timeout_after.rs and kernel_sleep.rs: waits with a deadline.
pub mod Outcomes
pub mod Late
use shredular.Base.{ℕ, Option, none, some, pos, if◌then◌else◌}
use shredular.Errors.{
  Value, ExceptionClass, Error, exception, Result, ok, err, new_timeout_error, Operation, timed_out,
}
use shredular.Async.{M, pure, throw, panics, lift, reads, checks, ◌>>=◌, ◌>>◌}
use shredular.Ruby.{Ruby}
use shredular.Fiber.{Fiber, unknown, current, as_unknown, check_suspended, raise}
use shredular.TimeoutDuration.{Duration, TimeoutDuration, into_std, is_zero}
use shredular.Scheduler.{Carriers, Process, Block, Tokio, spawn, spawn_and_transfer}

-- tokio's clock: `checked_add` has no result where `+` panics; `timeout_at` gives nothing if the
-- deadline comes first, and else what the future gives.
pub record Timers (c : Carriers) : Type 0 where
  pub now : c.Outside → c.Instant
  pub checked_add : c.Instant → Duration → Option c.Instant
  pub timeout_at : c.Instant → Block c → M (Process c) (Option (Result Value Error))
  pub sleep_until : c.Instant → M (Process c) (Unit {0})

module _ {c : Carriers} (timers : Timers c) where
  open timers use {now, checked_add, timeout_at, sleep_until}

  abbrev pub or_panic : Option c.Instant → M (Process c) c.Instant
  or_panic (some i) = pure i
  or_panic none = panics

  -- `Instant::now() + duration`.
  unfoldable pub deadline : TimeoutDuration → M (Process c) c.Instant
  unfolding into_std
  deadline t s = or_panic (checked_add (now s.outside) (into_std t)) s

  abbrev pub or_nil : Value → Option (Result Value Error) → Block c
  or_nil nil (some result) = lift result
  or_nil nil none = pure nil

  unfoldable pub with_timeout_no_raise : Value → Option TimeoutDuration → Block c → Block c
  with_timeout_no_raise nil (some timeout) f = do
    instant ← deadline timeout
    result ← timeout_at instant f
    or_nil nil result
  with_timeout_no_raise nil none f = f

  abbrev pub or_timeout : Operation → Duration → Option (Result Value Error) → Block c
  or_timeout desc duration (some result) = lift result
  or_timeout desc duration none =
      throw (new_timeout_error (timed_out desc duration.secs duration.nanos))

  unfoldable pub with_timeout : Operation → Option TimeoutDuration → Block c → Block c
  with_timeout desc (some timeout) f = do
    instant ← deadline timeout
    result ← timeout_at instant f
    or_timeout desc (into_std timeout) result
  with_timeout desc none f = f

  module _ (ruby : Ruby (Process c)) (tokio : Tokio c) where
    -- The block that `timeout_after` spawns.
    unfoldable pub timeout_future : c.Instant → Fiber unknown → ExceptionClass → Value → Block c
    timeout_future at fiber_to_timeout exception_class message = do
      sleep_until at
      logged ← ruby.new_instance exception_class message
      made ← ruby.new_instance exception_class message
      suspended ← checks (check_suspended ruby fiber_to_timeout)
      raise ruby suspended (exception made)

    abbrev pub call_block : Option (Block c) → Block c
    call_block (some blk) = blk
    call_block none = pure ruby.q_nil

    -- `blk` is the Ruby block, if one was given.
    unfoldable pub timeout_after :
        TimeoutDuration → ExceptionClass → Value → Option (Block c) → Block c
    timeout_after duration exception_class message blk = do
      at ← deadline duration
      fiber_to_timeout ← reads (λ s. as_unknown (current ruby s))
      handle ← spawn ruby tokio (timeout_future at fiber_to_timeout exception_class message)
      call_block blk

    unfoldable pub sleep_future : c.Instant → TimeoutDuration → Block c
    sleep_future instant duration = do
      sleep_until instant
      pure (ruby.integer (pos (into_std duration).secs))

    unfoldable pub kernel_sleep : TimeoutDuration → Block c
    kernel_sleep duration = do
      instant ← deadline duration
      if is_zero duration
          then spawn_and_transfer ruby tokio (pure (ruby.integer (pos 0)))
          else spawn_and_transfer ruby tokio (sleep_future instant duration)
