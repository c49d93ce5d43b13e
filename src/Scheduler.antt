-- ===== src/Scheduler.antt =====
-- ext/shreduler/src/tokio_scheduler.rs: the state of the scheduler, and how a future is spawned.
pub mod Spawning
pub mod Run
pub mod Timeout
pub mod BlockUnblock
pub mod ProcessWait
pub mod IoWait
pub mod IoReadWrite
pub mod IoSelect
pub mod AddressResolve
pub mod FiberSpawn
pub mod Interrupts
pub mod Mark
pub mod Methods
pub mod Session
use shredular.Base.{ℕ, Option, none, some, List, [], ◌∷◌, ◌++◌, ◌≡◌, refl}
use shredular.Errors.{
  Value, Error, Result, ok, err, error, not_imp_error, not_implemented, new_base_error,
  could_not_build_runtime, runtime_is_closed,
}
use shredular.GcCell.{GcCell, try_borrow_mut, drop_ref_mut, write}
use shredular.GcCell
use shredular.Async.{Outcome, done, fail, M, pure, throw, lift, checks, ◌>>=◌}
use shredular.Ruby.{Ruby}
use shredular.Fiber.{Fiber, unknown, suspended, current, as_unknown, check_suspended, transfer}
use shredular.FiberFuture.{FiberFuture}
use shredular.FiberFuture
use shredular.HashMap.{FiberMap}

-- The macro `rtodo!`, whose message names the method.
abbrev pub rtodo : {S A : Type 0} → M S A
rtodo = throw (error not_imp_error not_implemented)

-- The types of other crates: all that lies outside the scheduler (the Ruby VM, the kernel, tokio's own
-- state), boxed futures, tokio's `JoinSet`, its `Runtime`, the halves of
-- a oneshot channel, and tokio's `Instant`.
pub record Carriers : Type 1 where
  pub Outside : Type 0
  pub RubyFuture : Type 0
  pub JoinSet : Type 0
  pub Runtime : Type 0
  pub Sender : Type 0
  pub Receiver : Type 0
  pub Instant : Type 0

pub record TokioScheduler (c : Carriers) : Type 0 where
  pub root_fiber : Fiber unknown
  pub futures_to_run : GcCell c.JoinSet
  pub runtime : Option c.Runtime
  pub blockers : GcCell (FiberMap c.Sender)

-- The whole process: a fiber that is transferred to may change any of it.
pub record Process (c : Carriers) : Type 0 where
  pub scheduler : TokioScheduler c
  pub open scheduler use *
  pub outside : c.Outside

-- An `async` block with output `Result<Value, Error>`.
abbrev pub Block : Carriers → Type 0
Block c = M (Process c) Value

abbrev pub Task : Carriers → Type 0
Task c = FiberFuture c.RubyFuture

-- `box_pin` boxes a block. Of tokio's `JoinSet`, `tasks` views the futures that are not yet joined, oldest first. A number stands
-- for the `AbortHandle`. The runtime's builder, whose error the program only prints, and its shutdown are tokio's too.
pub record Tokio (c : Carriers) : Type 0 where
  pub box_pin : Block c → c.RubyFuture
  pub tasks : c.JoinSet → List (Task c)
  pub empty_set : c.JoinSet
  pub spawn_task : c.JoinSet → Task c → ℕ × c.JoinSet
  pub abort_all : c.JoinSet → c.JoinSet
  pub build_runtime : c.Outside → Result c.Runtime (Unit {0})
  pub shutdown_timeout : c.Runtime → ℕ → c.Outside → c.Outside

-- What tokio documents of them.
pub record TokioLaws {c : Carriers} (tokio : Tokio c) : Type 0 where
  pub tasks-empty_set : tokio.tasks tokio.empty_set ≡ []
  pub tasks-spawn_task :
      (js : c.JoinSet) (t : Task c)
      → tokio.tasks (tokio.spawn_task js t).1 ≡ tokio.tasks js ++ t ∷ []
  -- Aborted tasks stay in the set until they are joined.
  pub tasks-abort_all : (js : c.JoinSet) → tokio.tasks (tokio.abort_all js) ≡ tokio.tasks js

module _ {c : Carriers} where
  abbrev pub set_futures : GcCell c.JoinSet → Process c → Process c
  set_futures cell s = record s { scheduler = record (s.scheduler) { futures_to_run = cell } }

  abbrev pub set_blockers : GcCell (FiberMap c.Sender) → Process c → Process c
  set_blockers cell s = record s { scheduler = record (s.scheduler) { blockers = cell } }

  abbrev pub set_runtime : Option c.Runtime → Process c → Process c
  set_runtime rt s = record s { scheduler = record (s.scheduler) { runtime = rt } }

  -- `runtime()`: the runtime, while the scheduler has it.
  unfoldable pub runtime : Process c → Result c.Runtime Error
  runtime s = elim (s.runtime) [ some rt ↦ ok rt | none ↦ err (new_base_error runtime_is_closed) ]

module _ {c : Carriers} (ruby : Ruby (Process c)) (tokio : Tokio c) where
  open tokio use {box_pin, spawn_task, empty_set, build_runtime}

  -- `TokioScheduler::new`, in the process whose scheduler slot it is to fill.
  unfoldable pub new : Process c → Result (TokioScheduler c) Error
  unfolding GcCell.new current
  new s = elim (build_runtime s.outside) [
    | err e ↦ err (new_base_error could_not_build_runtime)
    | ok rt ↦ ok (record {
      root_fiber = as_unknown (current ruby s);
      futures_to_run = GcCell.new empty_set;
      runtime = some rt;
      blockers = GcCell.new [];
    })
  ]

  -- The statement `self.futures_to_run.try_borrow_mut()?.spawn(fiber_future)` on its cell: the guard
  -- is dropped where the statement ends.
  spawn_into : Task c → GcCell c.JoinSet → Result (ℕ × GcCell c.JoinSet) Error
  spawn_into task cell = elim (try_borrow_mut cell) [
    | err e ↦ err e
    | ok held ↦
        let (handle, js) = spawn_task held.value task in ok (handle, drop_ref_mut (write js held))
  ]

  abbrev spawned : Process c → Result (ℕ × GcCell c.JoinSet) Error → Outcome ℕ × Process c
  spawned s (ok (handle, cell)) = (done handle, set_futures cell s)
  spawned s (err e) = (fail e, s)

  -- The future is given the fiber that runs now, and joins the set.
  unfoldable pub spawn : Block c → M (Process c) ℕ
  unfolding spawn_into FiberFuture.new current
  spawn future s = spawned s (spawn_into (FiberFuture.new ruby (box_pin future) s) s.futures_to_run)

  -- Spawns, and gives control to the root fiber. The value is what this fiber is resumed with.
  unfoldable pub spawn_and_transfer : Block c → M (Process c) Value
  spawn_and_transfer future = do
    handle ← spawn future
    root ← checks (λ s. check_suspended ruby s.root_fiber s)
    transfer ruby root []
