-- ===== src/Scheduler/Session/Progress.antt =====
-- In a session of ext/shreduler/src/tokio_scheduler.rs no turn of the scheduler is refused.

use mathlib.Core.List.{Memᴰ, Mem, mem-cons_self}
use mathlib.Core.List.Perm
use shredular.Base.{true, ◌≡◌, ◌≢◌, inl, inr, sym, ◌∙◌, [], some, arith}
use shredular.Errors.{Value, ok}
use shredular.Async.{M, done, pure, ◌>>=◌}
use shredular.Ruby.{Ruby}
use shredular.Fiber.{check_suspended, is_alive}
use shredular.Fiber.Checks.{check_suspended_ok}
use shredular.FiberFuture.{ResumableFiber, resume_with, resume_if_alive}
use shredular.Scheduler.{Carriers, Process, Block, Tokio, TokioLaws, spawn_and_transfer}
use shredular.Scheduler.FiberSpawn.{Proc}
use shredular.Scheduler.Run.{Selected, take_task, round, dispatch}
use shredular.Scheduler.Session.{
  Session, Status, Ledger, Step, Reach, Begun, Switched, active, waited, joined_one, me,
}
use shredular.Scheduler.Spawning.{spawn-eq, spawn_and_transfer_lem, with_task}
use shredular.Scheduler.Run.Joins.{fibers, JoinLaws}
use shredular.Scheduler.Run.Waiting.{SelectLaws}
use shredular.Scheduler.Session.Accounted.{active_runs}
use shredular.Scheduler.Session.Ends.{joined_fiber-waits}
use shredular.Scheduler.Session.Invariant.{session-Accounted}
use shredular.Scheduler.Session.Ledger.{picks, is_waiting, is_active, Changed-Memᴰ}
use shredular.Scheduler.Session.Entries.{picked_turn, only_active, only_waiting}

module _ {c : Carriers} (ruby : Ruby (Process c)) (tokio : Tokio c)
    (fiber_new : Proc c → M (Process c) Value) (select : M (Process c) Selected)
    (laws : TokioLaws tokio) (waits : SelectLaws tokio select) (joins : JoinLaws tokio select)
    (root_kept : (s : Process c) → (select s).1.root_fiber ≡ s.root_fiber) where
  abbrev StepIn : Session c → Session c → Type 0
  StepIn = Step ruby tokio fiber_new select

  abbrev ReachIn : Session c → Session c → Type 0
  ReachIn = Reach ruby tokio fiber_new select

  -- If tokio keeps to its documentation, and the wait of the loop keeps its guard and the root fiber
  -- and takes out of the set just the task that it joins, then in a session from `new`, when a fiber
  -- other than the root fiber runs and the root fiber is alive, no wait is refused:
  -- `spawn_and_transfer` of any future comes to its transfer to the root fiber, and if the VM lets
  -- the root fiber run, this is a turn of the session, after which the caller waits.
  pub wait-Step :
      (a b : Session c) (future : Block c) (t : Process c)
      → Begun ruby tokio a
      → ReachIn a b
      → ruby.rb_fiber_current b.process ≢ b.process.root_fiber.raw
      → ruby.rb_fiber_current (with_task ruby tokio future b.process) ≢ b.process.root_fiber.raw
      → ruby.rb_fiber_alive_p (with_task ruby tokio future b.process) b.process.root_fiber.raw
        ≡ ruby.q_true
      → Switched ruby (with_task ruby tokio future b.process) b.process.root_fiber.raw t
      → (spawn_and_transfer ruby tokio future b.process
          ≡ ruby.rb_fiber_transfer b.process.root_fiber.raw []
              (with_task ruby tokio future b.process))
        × ((l : Ledger) × StepIn b (record { process = t; ledger = l })
            × Memᴰ (me ruby b.process, Status.waiting) l)
  wait-Step a b future t g reach off_root still_off alive moved =
      let acc =
        session-Accounted ruby tokio fiber_new select laws waits joins root_kept a b g reach in
      let (l, change) =
        picked_turn is_active active Status.waiting only_active (me ruby b.process) b.ledger (
          (Perm.mem_iff (active_runs ruby tokio b.process b.ledger off_root acc.runs)).1
            mem-cons_self) in
      (
        elim (spawn_and_transfer_lem ruby tokio future b.process acc.free alive) [
          | inl away ↦ away.1
          | inr at_root ↦ absurd (still_off at_root.0)
        ],
        (
          l,
          waited future _ (with_task ruby tokio future b.process)
              (record { raw = b.process.root_fiber.raw })
              (spawn-eq ruby tokio future b.process acc.free)
              (check_suspended_ok ruby b.process.root_fiber (with_task ruby tokio future b.process)
                alive still_off)
              change moved,
          Changed-Memᴰ change,
        ),
      )

  -- A round that joins the future of a fiber that is alive resumes that fiber.
  pub round-resumes :
      (s t : Process c) (r : ResumableFiber)
      → take_task ruby tokio select s ≡ (done (some (ok r)), t)
      → ruby.rb_fiber_alive_p t r.fiber.raw ≡ ruby.q_true
      → round ruby tokio select s ≡ (do returned ← resume_with ruby r.fiber r.value; pure true) t
  unfolding round dispatch resume_if_alive is_alive
  round-resumes s t r took alive = rw took (ground (arith, alive))

  -- If tokio keeps to its documentation, and the wait of the loop keeps its guard and the root fiber
  -- and takes out of the set just the task that it joins, then in a session from `new`, when the
  -- loop on the root fiber joins a future with its result, comes back from its wait on the same
  -- fiber, and the fiber of that future is alive, that fiber is one that waits and has no other task
  -- left in the set, the round goes on to its resumption, which is not refused, and if the VM lets the fiber run, this is a turn
  -- of the session, after which it is active: no fiber is resumed that runs, that has ended, or that
  -- waits for one it has made.
  pub join-Step :
      (a b : Session c) (r : ResumableFiber) (t w : Process c)
      → Begun ruby tokio a
      → ReachIn a b
      → ruby.rb_fiber_current b.process ≡ b.process.root_fiber.raw
      → take_task ruby tokio select b.process ≡ (done (some (ok r)), t)
      → ruby.rb_fiber_current t ≡ ruby.rb_fiber_current b.process
      → ruby.rb_fiber_alive_p t r.fiber.raw ≡ ruby.q_true
      → Switched ruby t r.fiber.raw w
      → Mem r.fiber (picks is_waiting b.ledger)
        × (¬ Mem r.fiber (fibers tokio t))
        × (check_suspended ruby r.fiber t ≡ ok (record { raw = r.fiber.raw }))
        × (round ruby tokio select b.process
            ≡ (do returned ← resume_with ruby r.fiber r.value; pure true) t)
        × ((l : Ledger) × StepIn b (record { process = w; ledger = l }) × Memᴰ (r.fiber, active) l)
  join-Step a b r t w g reach at_root took same alive moved =
      let (picked, no_other, off) =
        joined_fiber-waits ruby tokio fiber_new select laws waits joins root_kept a b r t g reach
          at_root took in
      let (l, change) =
        picked_turn is_waiting Status.waiting active only_waiting r.fiber b.ledger picked in
      let passes = check_suspended_ok ruby r.fiber t alive (λ e. off (sym same ∙ e)) in
      (
        picked,
        no_other,
        passes,
        round-resumes b.process t r took alive,
        (
          l,
          joined_one r t (record { raw = r.fiber.raw }) at_root took passes change moved,
          Changed-Memᴰ change,
        ),
      )
