-- ===== src/Scheduler/BlockUnblock.antt =====
-- ext/shreduler/src/tokio_scheduler/block_unblock.rs: fibers that wait to be woken by another.
pub mod Wakes
pub mod Stale
pub mod Woken
pub mod Blocks
use shredular.Base.{Option, none, some}
use shredular.Errors.{
  Value, Error, Result, ok, err, new_base_error, could_not_unblock_fiber, unblocking_fiber,
}
use shredular.GcCell.{GcCell, try_borrow_mut, drop_ref_mut, write}
use shredular.Async.{Outcome, done, fail, M, pure, throw, lift, reads, checks, attempt, ◌>>=◌, ◌>>◌}
use shredular.Ruby.{Ruby}
use shredular.Fiber.{Fiber, unknown, suspended, current, as_suspended, check_suspended, from_value}
use shredular.TimeoutDuration.{TimeoutDuration}
use shredular.HashMap.{FiberMap, get, insert, remove}
use shredular.Scheduler.{Carriers, Process, Block, Tokio, set_blockers, spawn_and_transfer}
use shredular.Scheduler.Timeout.{Timers, with_timeout}

-- tokio's oneshot channel; the errors of `send` and `recv` carry nothing that the program reads.
pub record Oneshot (c : Carriers) : Type 0 where
  pub channel : M (Process c) (c.Sender × c.Receiver)
  pub send : c.Sender → Value → M (Process c) (Result (Unit {0}) (Unit {0}))
  pub recv : c.Receiver → M (Process c) (Result Value (Unit {0}))

-- A statement `blockers.try_borrow_mut()?` followed by one change of the map, with the guard dropped
-- at its end. The answer is what the map held before.
unfoldable pub change_cell :
    {V : Type 0}
    → (FiberMap V → FiberMap V)
    → GcCell (FiberMap V)
    → Result (FiberMap V × GcCell (FiberMap V)) Error
change_cell f cell = elim (try_borrow_mut cell) [
  | err e ↦ err e
  | ok held ↦ ok (held.value, drop_ref_mut (write (f held.value) held))
]

module _ {c : Carriers} where
  abbrev pub changed :
      Process c
      → Result (FiberMap c.Sender × GcCell (FiberMap c.Sender)) Error
      → Outcome (FiberMap c.Sender) × Process c
  changed s (ok (before, cell)) = (done before, set_blockers cell s)
  changed s (err e) = (fail e, s)

  unfoldable pub change_blockers :
      (FiberMap c.Sender → FiberMap c.Sender) → M (Process c) (FiberMap c.Sender)
  change_blockers f s = changed s (change_cell f s.blockers)

  unfoldable pub insert_blocker : Fiber suspended → c.Sender → M (Process c) (Unit {0})
  insert_blocker fiber tx = do before ← change_blockers (insert fiber tx); pure tt

  -- `remove`, which returns the sender that it took out.
  unfoldable pub remove_blocker : Fiber suspended → M (Process c) (Option c.Sender)
  remove_blocker fiber = do before ← change_blockers (remove fiber); pure (get fiber before)

module _ {c : Carriers} (ruby : Ruby (Process c)) (tokio : Tokio c) (timers : Timers c)
    (oneshot : Oneshot c) where
  open oneshot use {channel, send, recv}

  -- `map_err(..)?` on the end of a oneshot call.
  abbrev pub or_could_not_unblock : {A : Type 0} → Result A (Unit {0}) → M (Process c) A
  or_could_not_unblock (ok a) = pure a
  or_could_not_unblock (err e) = throw (new_base_error could_not_unblock_fiber)

  unfoldable pub receive : c.Receiver → Block c
  receive rx = do result ← recv rx; or_could_not_unblock result

  -- The block that `block` spawns. The fiber whose entry it removes is the one that runs when the
  -- wait has ended, whichever that is.
  unfoldable pub block_future : c.Receiver → Option TimeoutDuration → Block c
  block_future rx timeout = do
    result ← attempt (with_timeout timers unblocking_fiber timeout (receive rx))
    fiber ← reads (λ s. as_suspended (current ruby s))
    removed ← remove_blocker fiber
    lift result

  unfoldable pub block : Option TimeoutDuration → Block c
  block timeout = do
    (tx, rx) ← channel
    fiber ← reads (λ s. as_suspended (current ruby s))
    insert_blocker fiber tx
    spawn_and_transfer ruby tokio (block_future rx timeout)

  abbrev pub wake : Option c.Sender → M (Process c) (Unit {0})
  wake none = pure tt
  wake (some tx) = do sent ← send tx ruby.q_true; or_could_not_unblock sent

  unfoldable pub unblock : Value → M (Process c) (Unit {0})
  unblock fiber_to_wake = do
    unknown_fiber ← checks (from_value ruby fiber_to_wake)
    fiber ← checks (check_suspended ruby unknown_fiber)
    removed ← remove_blocker fiber
    wake removed
