-- ===== src/Scheduler/Methods.antt =====
-- The methods that `init` of ext/shreduler/src/tokio_scheduler.rs registers.
pub mod Suspends
pub mod Init
use shredular.Base.{ℕ, Bool, true, false, Option, List}
use shredular.Errors.{Value, ExceptionClass, Error, Result}
use shredular.Async.{M, lift, pure, ◌>>=◌, ◌>>◌}
use shredular.Ruby.{Ruby}
use shredular.Nilable.{Nilable}
use shredular.IoBuffer
use shredular.RubyIo.{Io}
use shredular.TimeoutDuration.{TimeoutDuration}
use shredular.Scheduler.{Carriers, Process, Block, Tokio}
use shredular.Scheduler.Timeout
use shredular.Scheduler.Timeout.{Timers}
use shredular.Scheduler.BlockUnblock
use shredular.Scheduler.BlockUnblock.{Oneshot}
use shredular.Scheduler.ProcessWait
use shredular.Scheduler.ProcessWait.{Wait}
use shredular.Scheduler.IoWait
use shredular.Scheduler.IoWait.{Events, event_from_u32}
use shredular.Scheduler.IoReadWrite
use shredular.Scheduler.IoReadWrite.{Streams}
use shredular.Scheduler.IoSelect
use shredular.Scheduler.IoSelect.{Sets}
use shredular.Scheduler.AddressResolve
use shredular.Scheduler.AddressResolve.{Lookup}
use shredular.Scheduler.FiberSpawn
use shredular.Scheduler.FiberSpawn.{Proc, FiberClass, fiber_new_nonblocking}
use shredular.Scheduler.Run
use shredular.Scheduler.Run.{Selected}

-- An argument of `io_select`.
abbrev pub Ios : Type 0
Ios = Option (Nilable (List (Result Value Error)))

-- A call of a method, with numbers, durations and optional arguments converted from Ruby. The blocker that
-- `block` and `unblock` are given is not used.
pub data Call (c : Carriers) : Type 0 where
  address_resolve : Value → Call c
  io_wait : Value → ℕ → Option TimeoutDuration → Call c
  io_select : Ios → Ios → Ios → Option TimeoutDuration → Call c
  kernel_sleep : TimeoutDuration → Call c
  close : Call c
  fiber : Proc c → Call c
  timeout_after : TimeoutDuration → ExceptionClass → Value → Option (Block c) → Call c
  process_wait : ℕ → ℕ → Call c
  block : Value → Option TimeoutDuration → Call c
  unblock : Value → Value → Call c
  io_read : Value → Value → ℕ → TimeoutDuration → Call c
  io_write : Value → Value → ℕ → TimeoutDuration → Call c
  run : Call c

-- The calls that wait for something.
abbrev pub waits : {c : Carriers} → Call c → Bool
waits close = false
waits (fiber blk) = false
waits (timeout_after duration klass message blk) = false
waits (unblock blocker f) = false
waits run = false
waits _ = true

-- All that the methods call outside of the program.
pub record Outer (c : Carriers) (H Interest Readiness J Address : Type 0) : Type 1 where
  pub ruby : Ruby (Process c)
  pub tokio : Tokio c
  pub timers : Timers c
  pub oneshot : Oneshot c
  pub wait : Wait (Process c)
  pub events : Events
  pub io : Io (Process c) H Interest Readiness
  pub streams : Streams (Process c) H
  pub sets : Sets (Process c) J Interest
  pub lookup : Lookup (Process c) Address
  pub fiber_calls : FiberClass (Process c)
  pub select : M (Process c) Selected

module _ {c : Carriers} {H Interest Readiness J Address : Type 0}
    (outer : Outer c H Interest Readiness J Address) where
  open outer use {
    ruby, tokio, timers, oneshot, wait, events, io, streams, sets, lookup, fiber_calls, select,
  }

  -- A method that returns nothing returns nil.
  abbrev pub nil_after : M (Process c) (Unit {0}) → Block c
  nil_after m = do m; pure ruby.q_nil

  -- The method that a call names, after the conversion of the arguments that the program converts itself.
  -- `n` is the fuel of the loops.
  unfoldable pub call : ℕ → Call c → Block c
  call n (address_resolve hostname) = AddressResolve.address_resolve ruby tokio lookup hostname
  call n (io_wait io_value bits timeout) = do
    interests ← lift (event_from_u32 events bits)
    IoWait.io_wait ruby tokio timers events io io_value interests timeout
  call n (io_select readables writables exceptables timeout) =
      IoSelect.io_select ruby tokio timers io sets readables writables exceptables timeout
  call n (kernel_sleep duration) = Timeout.kernel_sleep timers ruby tokio duration
  call n close = nil_after (Run.close ruby tokio select n)
  call n (fiber blk) = FiberSpawn.fiber_impl ruby (fiber_new_nonblocking fiber_calls) blk
  call n (timeout_after duration klass message blk) =
      Timeout.timeout_after timers ruby tokio duration klass message blk
  call n (process_wait pid flags) = ProcessWait.process_wait ruby tokio wait n pid flags
  call n (block blocker timeout) = BlockUnblock.block ruby tokio timers oneshot timeout
  call n (unblock blocker f) = nil_after (BlockUnblock.unblock ruby tokio timers oneshot f)
  call n (io_read io_value buffer minimum timeout) = do
    checked ← lift (IoBuffer.try_convert streams.is_typed_data streams.classname buffer)
    IoReadWrite.io_read ruby tokio timers io streams io_value checked minimum timeout
  call n (io_write io_value buffer minimum timeout) =
      IoReadWrite.io_write ruby tokio timers io streams io_value buffer minimum timeout
  call n run = nil_after (Run.run ruby tokio select n)
