-- ===== src/Scheduler/IoWait.antt =====
-- ext/shreduler/src/tokio_scheduler/io_wait.rs: waiting until an IO is ready.
pub mod Interests
use shredular.Base.{ℕ, Bool, Option, none, some, pos, if◌then◌else◌}
use shredular.Errors.{
  Value, Error, Result, ok, err, new_base_error, invalid_io_interests, priority_not_valid,
  could_not_wait,
}
use shredular.Async.{Outcome, fail, done, M, pure, lift, finally, ◌>>=◌}
use shredular.Ruby.{Ruby}
use shredular.RubyIo.{Io, RubyIo, new_with_interest, with_nonblock, guard_drop, ruby_ready}
use shredular.TimeoutDuration.{TimeoutDuration}
use shredular.Scheduler.{Carriers, Process, Block, Tokio, spawn_and_transfer}
use shredular.Scheduler.Timeout.{Timers, with_timeout_no_raise}

-- The bits of `RubyIoEvent`, which are Ruby's, and what the bitflags crate does with them.
pub record Events : Type 0 where
  pub readable : ℕ
  pub writable : ℕ
  pub priority : ℕ
  pub from_bits : ℕ → Option ℕ
  pub contains : ℕ → ℕ → Bool

-- `TryConvert` for `RubyIoEvent`, after the conversion to `u32`.
unfoldable pub event_from_u32 : Events → ℕ → Result ℕ Error
event_from_u32 events value = elim (events.from_bits value) [
  | some bits ↦ ok bits
  | none ↦ err (new_base_error (invalid_io_interests value))
]

module _ {S H Interest Readiness : Type 0} (events : Events) (io : Io S H Interest Readiness) where
  open events use {readable, writable, priority, contains}

  -- `TryFrom<RubyIoEvent> for Interest`. Where the bits contain WRITABLE the source computes
  -- `result.add(Interest::WRITABLE)` and drops it, which changes nothing.
  unfoldable pub try_from : ℕ → Result Interest Error
  try_from interests =
      let result = if contains interests readable then io.readable else io.writable in
      let widened =
        if contains interests writable then io.or_interest result io.writable else result in
      if contains interests priority then err (new_base_error priority_not_valid) else ok result

module _ {c : Carriers} {H Interest Readiness : Type 0} (ruby : Ruby (Process c)) (tokio : Tokio c)
    (timers : Timers c) (events : Events) (io : Io (Process c) H Interest Readiness) where
  abbrev pub or_not_ready : {A : Type 0} → Outcome A × Process c → Outcome A × Process c
  or_not_ready (fail e, s) = (fail (new_base_error could_not_wait), s)
  or_not_ready (done a, s) = (done a, s)
  or_not_ready (Outcome.panic, s) = (Outcome.panic, s)
  or_not_ready (Outcome.dropped, s) = (Outcome.dropped, s)
  or_not_ready (Outcome.starved, s) = (Outcome.starved, s)

  -- `IntoValue` for `RubyIoEvent`.
  abbrev pub event_into_value : ℕ → Value
  event_into_value bits = ruby.integer (pos bits)

  -- The rest of the block, under its guard.
  unfoldable pub wait_guarded : RubyIo H → Interest → Block c
  wait_guarded ruby_io interests = do
    ready ← λ s. or_not_ready (ruby_ready io ruby_io interests s)
    pure (event_into_value events.readable)

  unfoldable pub wait_future : RubyIo H → Interest → Block c
  wait_future ruby_io interests = do
    nonblock ← with_nonblock io ruby_io
    finally (wait_guarded ruby_io interests) (guard_drop io nonblock)

  unfoldable pub io_wait : Value → ℕ → Option TimeoutDuration → Block c
  io_wait io_value bits timeout = do
    interests ← lift (try_from events io bits)
    ruby_io ← new_with_interest io io_value interests
    spawn_and_transfer ruby tokio
        (with_timeout_no_raise timers ruby.q_nil timeout (wait_future ruby_io interests))
