-- ===== src/Scheduler/Run/RootWaits.antt =====
-- A wait that is called on the root fiber, from `spawn_and_transfer` of ext/shreduler/src/tokio_scheduler.rs
-- through fiber_future.rs to the loop of ext/shreduler/src/tokio_scheduler/close.rs.
use shredular.Base.{ℕ, suc, Option, none, some, ◌≡◌, inl, inr, sym, ◌∙◌, refl}
use shredular.Errors.{Value, Error, Result, ok, error, runtime_error, fiber_active}
use shredular.Async.{done, M, fail}
use shredular.GcCell.Borrowing.{IsFree}
use shredular.Ruby.{Ruby}
use shredular.Fiber.{Fiber, unknown}
use shredular.FiberFuture.{ResumableFiber, Poll}
use shredular.FiberFuture.Polling.{drive, tagged, drive-drive_inner, drive_inner}
use shredular.FiberFuture.Resume.{active_refused}
use shredular.Scheduler.{Carriers, Process, Block, Tokio, spawn_and_transfer}
use shredular.Scheduler.Spawning.{new_task, with_task, spawn_and_transfer_lem}
use shredular.Scheduler.Run.{
  Selected, joined, round, run_loop, wait_held, on_selected, release_futures, dispatch,
}
use shredular.Scheduler.Run.Waiting.{FuturesFree, waiting, take_task-eq}

module _ {F S : Type 0} (poll_inner : F → S → Poll (Result Value Error) × F × S)
    (wake_by_ref : S → S) where
  -- What a task gives carries the fiber of the task.
  tagged-fiber :
      (f : Fiber unknown) (p : Option (Result Value Error) × S) {r : ResumableFiber} {z : S}
      → tagged poll_inner wake_by_ref f p ≡ (some r, z)
      → record { fiber = f; value = r.value } ≡ r
  tagged-fiber f (none, s) e = cc
  tagged-fiber f (some v, s) e = cc

module _ {c : Carriers} (ruby : Ruby (Process c)) (tokio : Tokio c)
    (select : M (Process c) Selected)
    (poll_inner : c.RubyFuture → Process c → Poll (Result Value Error) × c.RubyFuture × Process c)
    (wake_by_ref : Process c → Process c) where
  -- A wait that is called on the root fiber, which is alive, with the set free, fails with "fiber active",
  -- and its future is in the set; and when a round of a loop that runs on the root fiber, begun with the
  -- set free, joins what the task of that future gives after some polls, whether a value or an error, the
  -- loop ends with "fiber active" too, whatever else is in the set: no fiber is resumed any more.
  pub root_wait-ends_loop :
      (future : Block c) (u y z s x : Process c) (n m : ℕ) (r : ResumableFiber)
      → IsFree u.futures_to_run
      → ruby.rb_fiber_alive_p (with_task ruby tokio future u) u.root_fiber.raw ≡ ruby.q_true
      → ruby.rb_fiber_current u ≡ u.root_fiber.raw
      → ruby.rb_fiber_current (with_task ruby tokio future u) ≡ u.root_fiber.raw
      → drive poll_inner wake_by_ref n (new_task ruby tokio future u) y ≡ (some r, z)
      → FuturesFree s
      → select (waiting s) ≡ (done (joined (some (ok r))), x)
      → ruby.rb_fiber_alive_p (release_futures ruby tokio select x) u.root_fiber.raw ≡ ruby.q_true
      → ruby.rb_fiber_current (release_futures ruby tokio select x) ≡ u.root_fiber.raw
      → (spawn_and_transfer ruby tokio future u
          ≡ (fail (error runtime_error fiber_active), with_task ruby tokio future u))
        × (run_loop ruby tokio select (suc m) s
            ≡ (fail (error runtime_error fiber_active), release_futures ruby tokio select x))
  unfolding run_loop round wait_held on_selected dispatch
  root_wait-ends_loop future u y z s x n m r set_free alive on_root still_root gives free selected
        alive' loop_on_root =
      let refused : spawn_and_transfer ruby tokio future u
          ≡ (fail (error runtime_error fiber_active), with_task ruby tokio future u) =
        elim (spawn_and_transfer_lem ruby tokio future u set_free alive) [
          | inl (away, _) ↦ absurd (away still_root)
          | inr (_, fails) ↦ fails
        ] in
      let of_root =
        tagged-fiber poll_inner wake_by_ref (record { raw = ruby.rb_fiber_current u })
          (drive_inner poll_inner wake_by_ref n (tokio.box_pin future) y)
          (sym (drive-drive_inner poll_inner wake_by_ref n (new_task ruby tokio future u) y)
            ∙ gives) in
      let stops =
        active_refused ruby (record { raw = ruby.rb_fiber_current u })
          (release_futures ruby tokio select x) r.value (rw on_root alive')
          (loop_on_root ∙ sym on_root) in
      (refused, rw (take_task-eq ruby tokio select s free, selected, sym of_root, stops) refl)
