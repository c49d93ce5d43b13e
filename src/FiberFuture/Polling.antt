-- ===== src/FiberFuture/Polling.antt =====
-- Polling a future of ext/shreduler/src/fiber_future.rs again and again, as an executor does.
use mathlib.Core.Option
use shredular.Base.{ℕ, zero, suc, ◌≡◌, refl, Option, none, some}
use shredular.Errors.{Value, Error, Result}
use shredular.Fiber.{Fiber, unknown}
use shredular.FiberFuture.{FiberFuture, ResumableFiber, Poll, ready, pending, poll, finish_poll}

module _ {S F : Type 0} (poll_inner : F → S → Poll (Result Value Error) × F × S)
    (wake_by_ref : S → S) where
  -- What an executor does with a poll: it stops at a result, and polls on after a pending one.
  abbrev settle : {A X : Type 0} → (X → S → Option A × S) → Poll A × X × S → Option A × S
  settle again (ready a, x, s) = (some a, s)
  settle again (pending, x, s) = again x s

  -- At most `n` polls.
  unfoldable pub drive : ℕ → FiberFuture F → S → Option ResumableFiber × S
  drive zero ff s = (none, s)
  drive (suc n) ff s = settle (drive n) (poll poll_inner wake_by_ref ff s)

  -- The same of the boxed future, woken after each poll that is pending.
  unfoldable pub drive_inner : ℕ → F → S → Option (Result Value Error) × S
  drive_inner zero future s = (none, s)
  drive_inner (suc n) future s =
      settle (λ f s'. drive_inner n f (wake_by_ref s')) (poll_inner future s)

  abbrev pub tagged : Fiber unknown → Option (Result Value Error) × S → Option ResumableFiber × S
  tagged fiber (r, s) = (Option.map (λ v. record { fiber = fiber; value = v }) r, s)

  settle-tagged :
      (n : ℕ) (ff : FiberFuture F) (p : Poll (Result Value Error) × F × S)
      → ((f : F) (s' : S)
          → drive n (record ff { future = f }) s' ≡ tagged ff.fiber (drive_inner n f s'))
      → settle (drive n) (finish_poll poll_inner wake_by_ref ff p)
        ≡ tagged ff.fiber (settle (λ f s'. drive_inner n f (wake_by_ref s')) p)
  unfolding poll
  settle-tagged n ff (ready r, f, s) ih = refl
  settle-tagged n ff (pending, f, s) ih = ih f (wake_by_ref s)

  -- However often it is polled, a fiber future ends when its boxed future does, with that result and
  -- the fiber that it was made with, the process having been changed by the polls of the boxed future
  -- and one wake after each pending poll, and by nothing else.
  pub drive-drive_inner :
      (n : ℕ) (ff : FiberFuture F) (s : S)
      → drive n ff s ≡ tagged ff.fiber (drive_inner n ff.future s)
  unfolding drive drive_inner poll
  drive-drive_inner zero ff s = refl
  drive-drive_inner (suc n) ff s =
      settle-tagged n ff (poll_inner ff.future s)
        (λ f s'. drive-drive_inner n (record ff { future = f }) s')
