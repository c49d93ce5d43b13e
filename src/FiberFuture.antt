-- ===== src/FiberFuture.antt =====
-- ext/shreduler/src/fiber_future.rs: a future that belongs to the fiber that made it, and what is left
-- of it when it is ready.
pub mod Resume
pub mod Polling
pub mod Frames
use shredular.Base.{Bool, not, List, [], ◌∷◌, Option, none, some, if◌then◌else◌}
use shredular.Errors.{Value, Error, Result, ok, err}
use shredular.Async.{M, pure, checks, ◌>>=◌}
use shredular.Ruby.{Ruby}
use shredular.Fiber.{
  Fiber, unknown, current, as_unknown, is_alive, check_suspended, transfer, raise,
}

pub record ResumableFiber : Type 0 where
  pub fiber : Fiber unknown
  pub value : Result Value Error

-- `F` is the type of the boxed future.
pub record FiberFuture (F : Type 0) : Type 0 where
  pub future : F
  pub fiber : Fiber unknown

-- `std::task::Poll`.
pub data Poll (A : Type 0) : Type 0 where
  ready : A → Poll A
  pending : Poll A

module _ {S : Type 0} (ruby : Ruby S) where
  unfoldable pub new : {F : Type 0} → F → S → FiberFuture F
  new future s = record { future = future; fiber = as_unknown (current ruby s) }

  unfoldable pub resume_with : Fiber unknown → Result Value Error → M S (Option Value)
  resume_with fiber (ok value) = do
    suspended ← checks (check_suspended ruby fiber)
    ret ← transfer ruby suspended (value ∷ [])
    pure (some ret)
  resume_with fiber (err e) = do
    suspended ← checks (check_suspended ruby fiber)
    ret ← raise ruby suspended e
    pure (some ret)

  unfoldable pub resume_if_alive : ResumableFiber → M S (Option Value)
  resume_if_alive r s =
      if not (is_alive ruby r.fiber s) then pure none s else resume_with r.fiber r.value s

-- `poll_inner` polls the boxed future; `wake_by_ref` wakes the task at once.
module _ {S F : Type 0} (poll_inner : F → S → Poll (Result Value Error) × F × S)
    (wake_by_ref : S → S) where
  finish_poll :
      FiberFuture F → Poll (Result Value Error) × F × S → Poll ResumableFiber × FiberFuture F × S
  finish_poll ff (ready result, future, s) =
      (ready (record { fiber = ff.fiber; value = result }), record ff { future = future }, s)
  finish_poll ff (pending, future, s) = (pending, record ff { future = future }, wake_by_ref s)

  unfoldable pub poll : FiberFuture F → S → Poll ResumableFiber × FiberFuture F × S
  unfolding finish_poll
  poll ff s = finish_poll ff (poll_inner ff.future s)
