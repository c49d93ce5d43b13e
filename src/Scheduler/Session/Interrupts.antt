-- ===== src/Scheduler/Session/Interrupts.antt =====
-- In a session, the rounds of the loop in ext/shreduler/src/tokio_scheduler/close.rs that an interrupt ends.
use mathlib.Core.List.{Perm}
use shredular.Base.{ℕ, suc, ◌≡◌, refl, sym, ap, ◌∙◌, subst, map}
use shredular.Errors.{Value, Error}
use shredular.Async.{M, done, fail}
use shredular.Ruby.{Ruby}
use shredular.GcCell.Borrowing.{IsHeld}
use shredular.Scheduler.{Carriers, Process, Tokio, TokioLaws}
use shredular.Scheduler.FiberSpawn.{Proc}
use shredular.Scheduler.Run.{Selected, interrupted, run_loop}
use shredular.Scheduler.Run.Interrupted.{stopped, take_task_interrupted, run_loop_interrupted}
use shredular.Scheduler.Run.Joins.{fibers, JoinLaws}
use shredular.Scheduler.Run.Waiting.{SelectLaws, FuturesFree, waiting}
use shredular.Scheduler.Session.{Session, Step, Reach, Begun, interrupted_one, later}
use shredular.Scheduler.Session.Invariant.{session-Accounted}
use shredular.Scheduler.Session.Ledger.{picks, is_waiting}

module _ {c : Carriers} (ruby : Ruby (Process c)) (tokio : Tokio c)
    (fiber_new : Proc c → M (Process c) Value) (select : M (Process c) Selected)
    (laws : TokioLaws tokio) (waits : SelectLaws tokio select) (joins : JoinLaws tokio select)
    (root_kept : (s : Process c) → (select s).1.root_fiber ≡ s.root_fiber) where
  -- If tokio keeps to its documentation, and the wait of the loop keeps its guard and the root fiber
  -- and takes out of the set just the task that it joins, then in a session from `new`, when the wait
  -- of the loop on the root fiber is interrupted and comes back on that fiber, the loop ends with the
  -- error of the interrupt and the tasks aborted, and this is a turn of the session that changes no
  -- status: every fiber that waited still waits, with its aborted task in the set.
  pub interrupt-Step :
      (a b : Session c) (n : ℕ) (e : Error) (u : Process c)
      → Begun ruby tokio a
      → Reach ruby tokio fiber_new select a b
      → ruby.rb_fiber_current b.process ≡ b.process.root_fiber.raw
      → select (waiting b.process) ≡ (done (interrupted e), u)
      → ruby.rb_fiber_current (stopped ruby tokio select u) ≡ b.process.root_fiber.raw
      → let t = stopped ruby tokio select u in
        (run_loop ruby tokio select (suc n) b.process ≡ (fail e, t))
        × Step ruby tokio fiber_new select b (record { process = t; ledger = b.ledger })
        × Perm (fibers tokio t) (picks is_waiting b.ledger)
        × FuturesFree t
  interrupt-Step a b n e u g reach at_root selected on_root =
      let t : Process c = stopped ruby tokio select u in
      let acc =
        session-Accounted ruby tokio fiber_new select laws waits joins root_kept a b g reach in
      let held : IsHeld u.futures_to_run =
        subst (λ p. IsHeld p.1.futures_to_run) selected
          (waits.holds (waiting b.process) (record { no_reader = refl; one_writer = refl })) in
      let kept : u.root_fiber ≡ b.process.root_fiber =
        ap (λ p. p.1.root_fiber) (sym selected) ∙ root_kept (waiting b.process) in
      let spared : Perm (fibers tokio b.process) (fibers tokio t) =
        subst (λ ts. Perm (fibers tokio b.process) (map (λ x. x.fiber) ts))
          (sym (laws.tasks-abort_all u.futures_to_run.value))
          (joins.spares (waiting b.process) u e selected) in
      let took = take_task_interrupted ruby tokio select b.process u e acc.free selected held in
      let step : Step ruby tokio fiber_new select b (record { process = t; ledger = b.ledger }) =
        interrupted_one e at_root took spared (on_root ∙ sym (ap (λ f. f.raw) kept)) refl in
      let acc' =
        session-Accounted ruby tokio fiber_new select laws waits joins root_kept a _ g
          (later reach step) in
      (
        run_loop_interrupted ruby tokio select n b.process u e acc.free selected held,
        step,
        acc'.tasks,
        acc'.free,
      )
