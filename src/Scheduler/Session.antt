-- ===== src/Scheduler/Session.antt =====
-- The fibers of a program that uses the scheduler, and who of them runs: the turns that
-- `spawn_and_transfer` of ext/shreduler/src/tokio_scheduler.rs, the rounds of tokio_scheduler/close.rs and
-- `fiber` of tokio_scheduler/fiber_spawn.rs hand from one to another.
pub mod Ledger
pub mod Entries
pub mod Chain
pub mod Accounted
pub mod Keeps
pub mod Tasks
pub mod Invariant
pub mod Ends
pub mod Makers
pub mod Progress
pub mod Making
pub mod GivesBack
pub mod Rounds
pub mod Interrupts
pub mod Turns
pub mod Refines
use mathlib.Core.List.{Perm}
use shredular.Base.{
  ℕ, Bool, true, false, ◌≡◌, ◌≢◌, List, [], ◌∷◌, ◌++◌, some, All, ◌==◌, if◌then◌else◌,
}
use shredular.Errors.{Value, Error, ok, err}
use shredular.Async.{M, done, fail}
use shredular.Ruby.{Ruby}
use shredular.Fiber.{Fiber, unknown, suspended, as_unknown, current, check_suspended}
use shredular.FiberFuture.{ResumableFiber}
use shredular.Scheduler.{Carriers, Process, Block, Tokio, spawn, new}
use shredular.Scheduler.FiberSpawn.{Proc, wrapped, new_nonblocking, is_current_fiber_root}
use shredular.Scheduler.Run.{Selected, JoinError, take_task}
use shredular.Scheduler.Run.Joins.{fibers}

-- What a fiber other than the root fiber does: it runs; it waits for a future that it has spawned; it
-- waits for the block of a fiber that it has made; its future could not be joined; its block has ended.
pub data Status : Type 0 where
  active waiting lost finished : Status
  making : Fiber unknown → Status

-- The fibers in the order in which they were made.
abbrev pub Ledger : Type 0
Ledger = List (Fiber unknown × Status)

-- One fiber goes over from one status to another.
pub data Changed (f : Fiber unknown) (p q : Status) : Ledger → Ledger → Type 0 where
  here : {l : Ledger} → Changed f p q ((f, p) ∷ l) ((f, q) ∷ l)
  there :
      {e : Fiber unknown × Status} {l m : Ledger}
      → Changed f p q l m
      → Changed f p q (e ∷ l) (e ∷ m)

-- A fiber that is not in the ledger, and one that no fiber of the ledger waits for as its maker.
abbrev pub Fresh : Fiber unknown → Ledger → Type 0
Fresh g l = All (λ e. e.0 ≢ g) l

abbrev pub Unmade : Fiber unknown → Ledger → Type 0
Unmade g l = All (λ e. e.1 ≢ making g) l

pub record Session (c : Carriers) : Type 0 where
  pub process : Process c
  pub ledger : Ledger

module _ {c : Carriers} where
  -- Neither the set nor the root fiber changes.
  abbrev pub SameSet : Process c → Process c → Type 0
  SameSet s t = (t.futures_to_run ≡ s.futures_to_run) × (t.root_fiber ≡ s.root_fiber)

  module _ (ruby : Ruby (Process c)) where
    -- The fiber that runs.
    abbrev pub me : Process c → Fiber unknown
    me s = record { raw = ruby.rb_fiber_current s }

    -- The VM lets a fiber run.
    abbrev pub Switched : Process c → Value → Process c → Type 0
    Switched s v t = SameSet s t × (ruby.rb_fiber_current t ≡ v)

-- A session that begins with the scheduler of `TokioScheduler::new`, on the fiber that made it.
pub record Begun {c : Carriers} (ruby : Ruby (Process c)) (tokio : Tokio c) (a : Session c)
    : Type 0 where
  pub before : Process c
  pub created : new ruby tokio before ≡ ok a.process.scheduler
  pub same_fiber : ruby.rb_fiber_current a.process ≡ ruby.rb_fiber_current before
  pub no_fibers : a.ledger ≡ []

module _ {c : Carriers} (ruby : Ruby (Process c)) (tokio : Tokio c)
    (fiber_new : Proc c → M (Process c) Value) (select : M (Process c) Selected) where
  -- One turn: Ruby code that leaves the set as it is; `spawn_and_transfer` up to the transfer;
  -- `fiber_impl` up to its transfer, on the root fiber and on another; the end of a block, and of one that
  -- `wrapped` wraps; a round that joins a task, up to the transfer to its fiber, one that fails to,
  -- and one whose wait is interrupted, which ends the loop.
  pub data Step (a b : Session c) : Type 0 where
    ran :
        Switched ruby a.process (ruby.rb_fiber_current a.process) b.process
        → b.ledger ≡ a.ledger
        → Step a b
    waited :
        (future : Block c) (handle : ℕ) (w : Process c) (root : Fiber suspended)
        → spawn ruby tokio future a.process ≡ (done handle, w)
        → check_suspended ruby w.root_fiber w ≡ ok root
        → Changed (me ruby a.process) active waiting a.ledger b.ledger
        → Switched ruby w root.raw b.process
        → Step a b
    made_by_root :
        (block : Proc c) (u : Process c) (g : Fiber suspended)
        → is_current_fiber_root ruby fiber_new a.process ≡ true
        → new_nonblocking ruby fiber_new block a.process ≡ (done g, u)
        → SameSet a.process u
        → g.raw ≢ a.process.root_fiber.raw
        → Fresh (as_unknown g) a.ledger
        → b.ledger ≡ a.ledger ++ (as_unknown g, active) ∷ []
        → Switched ruby u g.raw b.process
        → Step a b
    made_by_fiber :
        (block : Proc c) (u : Process c) (g : Fiber suspended) (l : Ledger)
        → is_current_fiber_root ruby fiber_new a.process ≡ false
        → new_nonblocking ruby fiber_new
            (wrapped ruby fiber_new (me ruby a.process) block)
            a.process
          ≡ (done g, u)
        → SameSet a.process u
        → g.raw ≢ a.process.root_fiber.raw
        → Fresh (as_unknown g) a.ledger
        → Changed (me ruby a.process) active (making (as_unknown g)) a.ledger l
        → b.ledger ≡ l ++ (as_unknown g, active) ∷ []
        → Switched ruby u g.raw b.process
        → Step a b
    ended :
        Unmade (me ruby a.process) a.ledger
        → Changed (me ruby a.process) active finished a.ledger b.ledger
        → Switched ruby a.process a.process.root_fiber.raw b.process
        → Step a b
    gave_back :
        (maker : Fiber unknown) (back : Fiber suspended) (l : Ledger)
        → Changed maker (making (me ruby a.process)) active a.ledger l
        → Changed (me ruby a.process) active finished l b.ledger
        → check_suspended ruby maker a.process ≡ ok back
        → Switched ruby a.process back.raw b.process
        → Step a b
    joined_one :
        (r : ResumableFiber) (t : Process c) (g : Fiber suspended)
        → ruby.rb_fiber_current a.process ≡ a.process.root_fiber.raw
        → take_task ruby tokio select a.process ≡ (done (some (ok r)), t)
        → check_suspended ruby r.fiber t ≡ ok g
        → Changed r.fiber waiting active a.ledger b.ledger
        → Switched ruby t g.raw b.process
        → Step a b
    lost_one :
        (e : JoinError) (f : Fiber unknown)
        → ruby.rb_fiber_current a.process ≡ a.process.root_fiber.raw
        → take_task ruby tokio select a.process ≡ (done (some (err e)), b.process)
        → Perm (fibers tokio a.process) (f ∷ fibers tokio b.process)
        → ruby.rb_fiber_current b.process ≡ b.process.root_fiber.raw
        → Changed f waiting lost a.ledger b.ledger
        → Step a b
    interrupted_one :
        (e : Error)
        → ruby.rb_fiber_current a.process ≡ a.process.root_fiber.raw
        → take_task ruby tokio select a.process ≡ (fail e, b.process)
        → Perm (fibers tokio a.process) (fibers tokio b.process)
        → ruby.rb_fiber_current b.process ≡ b.process.root_fiber.raw
        → b.ledger ≡ a.ledger
        → Step a b

  pub data Reach (a : Session c) : Session c → Type 0 where
    start : Reach a a
    later : {b d : Session c} → Reach a b → Step b d → Reach a d
