-- ===== src/Scheduler/Session/GivesBack.antt =====
-- In a session, the turns of ext/shreduler/src/tokio_scheduler/fiber_spawn.rs in which a fiber gives control
-- back to its maker.
use mathlib.Core.List.Perm
use shredular.Base.{List, ◌≡◌}
use shredular.Errors.{Value}
use shredular.Async.{M}
use shredular.Ruby.{Ruby}
use shredular.Fiber.{Fiber}
use shredular.Scheduler.{Carriers, Process, Tokio, TokioLaws}
use shredular.Scheduler.FiberSpawn.{Proc}
use shredular.Scheduler.Run.{Selected}
use shredular.Scheduler.Run.Joins.{JoinLaws}
use shredular.Scheduler.Run.Waiting.{SelectLaws}
use shredular.Scheduler.Session.{Session, Ledger, Step, Reach}
use shredular.Scheduler.Session.Accounted.{Accounted}

module _ {c : Carriers} (ruby : Ruby (Process c)) (tokio : Tokio c)
    (fiber_new : Proc c → M (Process c) Value) (select : M (Process c) Selected) where
  module _ (laws : TokioLaws tokio) (waits : SelectLaws tokio select)
      (joins : JoinLaws tokio select)
      (root_kept : (s : Process c) → (select s).1.root_fiber ≡ s.root_fiber) where
    abbrev StepIn : Session c → Session c → Type 0
    StepIn = Step ruby tokio fiber_new select

    abbrev ReachIn : Session c → Session c → Type 0
    ReachIn = Reach ruby tokio fiber_new select
