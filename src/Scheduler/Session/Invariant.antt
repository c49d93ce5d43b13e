-- ===== src/Scheduler/Session/Invariant.antt =====
-- Every turn of a session of ext/shreduler/src/tokio_scheduler.rs, from `new` on, keeps its fibers accounted
-- for.
use mathlib.Core.List.{Perm}
use mathlib.Core.List.Perm
use shredular.Base.{true, false, ◌≡◌, ◌≢◌, inl, refl, sym, ◌∙◌, subst, [], map, arith}
use shredular.Errors.{Value, Result, ok, err}
use shredular.Async.{M}
use shredular.Ruby.{Ruby}
use shredular.GcCell
use shredular.GcCell.Borrowing.{IsFree}
use shredular.Fiber.{as_unknown, eq, current}
use shredular.Scheduler.{TokioScheduler, new, Carriers, Process, Tokio, TokioLaws}
use shredular.Scheduler.FiberSpawn.{Proc, is_current_fiber_root}
use shredular.Scheduler.Run.{Selected}
use shredular.Scheduler.Session.{
  Session, Step, Reach, ran, waited, made_by_root, made_by_fiber, ended, gave_back, joined_one,
  lost_one, interrupted_one, start, later, Begun, active,
}
use shredular.Scheduler.Run.Joins.{JoinLaws}
use shredular.Scheduler.Run.Waiting.{SelectLaws}
use shredular.Scheduler.Session.Accounted.{Accounted, root_idle, Changed-Away, left_idle}
use shredular.Scheduler.Session.Chain.{Chained-append, Chained-made}
use shredular.Scheduler.Session.Keeps.{
  ran-Accounted, made-Accounted, ended-Accounted, gave_back-Accounted,
}
use shredular.Scheduler.Session.Ledger.{
  is_waiting, Changed-picks, Changed-keys, Changed-Distinct, Distinct-append,
}
use shredular.Scheduler.Session.Tasks.{
  waited-Accounted, joined_one-Accounted, lost_one-Accounted, interrupted_one-Accounted,
}

pub root_current :
    {c : Carriers} (ruby : Ruby (Process c)) (fiber_new : Proc c → M (Process c) Value)
    (s : Process c)
    → is_current_fiber_root ruby fiber_new s ≡ true
    → ruby.rb_fiber_current s ≡ s.root_fiber.raw
unfolding is_current_fiber_root eq current
root_current ruby fiber_new s e = ground arith

pub root_not_current :
    {c : Carriers} (ruby : Ruby (Process c)) (fiber_new : Proc c → M (Process c) Value)
    (s : Process c)
    → is_current_fiber_root ruby fiber_new s ≡ false
    → ruby.rb_fiber_current s ≢ s.root_fiber.raw
unfolding is_current_fiber_root eq current
root_not_current ruby fiber_new s e is = ground arith

-- The tokio crate keeps to its documentation, the VM's calls under the wait keep the guard and the root
-- fiber.
module _ {c : Carriers} (ruby : Ruby (Process c)) (tokio : Tokio c)
    (fiber_new : Proc c → M (Process c) Value) (select : M (Process c) Selected)
    (laws : TokioLaws tokio) (waits : SelectLaws tokio select) (joins : JoinLaws tokio select)
    (root_kept : (s : Process c) → (select s).1.root_fiber ≡ s.root_fiber) where
  abbrev StepIn : Session c → Session c → Type 0
  StepIn = Step ruby tokio fiber_new select

  abbrev ReachIn : Session c → Session c → Type 0
  ReachIn = Reach ruby tokio fiber_new select

  abbrev AccountedIn : Session c → Type 0
  AccountedIn = Accounted ruby tokio

  Step-Accounted : (a b : Session c) → StepIn a b → AccountedIn a → AccountedIn b
  Step-Accounted a b (ran moved is) acc = ran-Accounted ruby tokio a b moved is acc
  Step-Accounted a b (waited future handle w root e checked change moved) acc =
      waited-Accounted ruby tokio laws a b future handle w root e checked change moved acc
  Step-Accounted a b (made_by_root block u g at_root made same other new is moved) acc =
      made-Accounted ruby tokio a b u g a.ledger same other is moved acc refl
        (root_idle ruby tokio a.process a.ledger (root_current ruby fiber_new a.process at_root)
          acc.runs)
        (Chained-append (as_unknown g) a.ledger acc.chain)
        (Distinct-append a.ledger (as_unknown g, active) acc.distinct new) acc.away
  Step-Accounted a b (made_by_fiber block u g l off_root made same other new change is moved) acc =
      made-Accounted ruby tokio a b u g l same other is moved acc
        (sym (Changed-picks is_waiting refl change))
        (left_idle ruby tokio a.process change refl acc.away acc.runs)
        (Chained-made change new acc.chain)
        (Distinct-append l (as_unknown g, active) (Changed-Distinct change acc.distinct)
          (Changed-keys (λ k. k ≢ as_unknown g) change new))
        (Changed-Away ruby tokio a.process change acc.away)
  Step-Accounted a b (ended alone change moved) acc =
      ended-Accounted ruby tokio a b alone change moved acc
  Step-Accounted a b (gave_back maker back l first second checked moved) acc =
      gave_back-Accounted ruby tokio a b maker back l first second checked moved acc
  Step-Accounted a b (joined_one r t g at_root took checked change moved) acc =
      joined_one-Accounted ruby tokio select waits joins root_kept a b r t g at_root took checked
        change moved acc
  Step-Accounted a b (lost_one e f at_root took gone run change) acc =
      lost_one-Accounted ruby tokio select waits joins root_kept a b e f at_root took gone run
        change acc
  Step-Accounted a b (interrupted_one e at_root took kept_all run is) acc =
      interrupted_one-Accounted ruby tokio select waits joins root_kept a b e at_root took kept_all
        run is acc

  Reach-Accounted : (a b : Session c) → ReachIn a b → AccountedIn a → AccountedIn b
  Reach-Accounted a b start acc = acc
  Reach-Accounted a b (later {b = d} r step) acc =
      Step-Accounted d b step (Reach-Accounted a d r acc)

  created_by :
      (s : Process c) (built : Result c.Runtime (Unit {0})) (sched : TokioScheduler c)
      → tokio.build_runtime s.outside ≡ built
      → new ruby tokio s ≡ ok sched
      → (sched.root_fiber.raw ≡ ruby.rb_fiber_current s)
        × (sched.futures_to_run ≡ GcCell.new tokio.empty_set)
  unfolding new current
  created_by s (ok rt) sched is e = ground arith
  created_by s (err x) sched is e = ground arith

  Begun-Accounted : (a : Session c) → Begun ruby tokio a → AccountedIn a
  unfolding GcCell.new
  Begun-Accounted a g =
      let (root, set) =
        created_by g.before (tokio.build_runtime g.before.outside) a.process.scheduler refl
          g.created in
      record {
        free = subst IsFree (sym set) (record { no_reader = refl; no_writer = refl });
        tasks =
            rw (g.no_fibers, set)
              (subst (λ ts. Perm (map (λ t. t.fiber) ts) []) (sym laws.tasks-empty_set)
                (Perm.refl []));
        runs = inl (g.same_fiber ∙ sym root, rw (g.no_fibers) (Perm.refl []));
        chain = rw (g.no_fibers) tt;
        distinct = rw (g.no_fibers) tt;
        away = rw (g.no_fibers) tt;
      }

  -- If tokio keeps to its documentation, and the wait of the loop keeps its guard and the root fiber
  -- and takes out of the set just the task that it joins, then in every session that turns lead to
  -- from the scheduler that `new` makes, the set is free, and its tasks are, up to order and as often,
  -- those of the fibers that wait for a future; either the root fiber runs and no other is active, or
  -- the one that runs is the one that is active; a fiber that waits for one it has made does so for a
  -- younger one whose block has not ended, and no two wait for the same; no fiber is in the ledger
  -- twice, and the root fiber never.
  pub session-Accounted : (a b : Session c) → Begun ruby tokio a → ReachIn a b → AccountedIn b
  session-Accounted a b g r = Reach-Accounted a b r (Begun-Accounted a g)
