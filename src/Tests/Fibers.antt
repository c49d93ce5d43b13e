-- ===== src/Tests/Fibers.antt =====
-- Fibers and their futures.

use shredular.Base.{ℕ, zero, suc, ◌≡◌, ◌≢◌, refl, some, arith}
use shredular.Errors.{
  Value, Error, error, runtime_error, fiber_active, fiber_not_alive, Result, ok, err,
}
use shredular.Fiber.{Fiber, unknown, check_suspended}
use shredular.FiberFuture.{poll, FiberFuture, Poll, ready, pending}
use shredular.FiberFuture.Polling.{drive, drive_inner, tagged, drive-drive_inner}
use shredular.Tests.World.{World, ruby, idle, note}

abbrev fiber : ℕ → Fiber unknown
fiber n = record { raw = n }

check_dead : check_suspended ruby (fiber 9) idle ≡ err (error runtime_error fiber_not_alive)
unfolding check_suspended
check_dead = refl

check_active : check_suspended ruby (fiber 2) idle ≡ err (error runtime_error fiber_active)
unfolding check_suspended
check_active = refl

running-ne-four : idle.outside.running ≢ (fiber 4).raw
running-ne-four h = omega arith

-- A boxed future that is ready once its number is 0.
abbrev count_down : ℕ → World → Poll (Result Value Error) × ℕ × World
count_down zero s = (ready (ok 5), 0, s)
count_down (suc n) s = (pending, n, s)

abbrev counting : FiberFuture ℕ
counting = record { future = 2; fiber = fiber 4 }

counted :
    drive count_down (note 1) 3 counting idle
    ≡ (some (record { fiber = fiber 4; value = ok 5 }), note 1 (note 1 idle))
unfolding drive poll
counted = refl

drive-drive_inner_example :
    drive count_down (note 1) 3 counting idle
    ≡ tagged count_down (note 1) (fiber 4) (drive_inner count_down (note 1) 3 2 idle)
drive-drive_inner_example = drive-drive_inner count_down (note 1) 3 counting idle
