-- ===== src/FiberFuture/Resume.antt =====
-- Which fiber `resume_if_alive` of ext/shreduler/src/fiber_future.rs runs, and when.
use native.Mathlib.Decide.{ℕ_discrete}
use shredular.Base.{◌≡◌, ◌≢◌, ◌⊎◌, inl, inr, [], ◌∷◌, none, some, arith}
use shredular.Errors.{
  Value, Error, error, exception, jump, runtime_error, fiber_active, ExceptionClass, Message,
  Result, ok, err,
}
use shredular.Async.{pure, done, fail, ◌>>=◌}
use shredular.Ruby.{Ruby}
use shredular.Fiber.{Fiber, unknown, is_alive, check_suspended, transfer, raise}
use shredular.FiberFuture.{resume_if_alive, resume_with}

module _ {S : Type 0} (ruby : Ruby S) (fiber : Fiber unknown) (s : S) where
  open ruby use {
    rb_fiber_alive_p, q_true, rb_fiber_current, rb_fiber_transfer, rb_fiber_raise, string_new,
    class_value,
  }

  pub active_refused :
      (value : Result Value Error)
      → rb_fiber_alive_p s fiber.raw ≡ q_true
      → rb_fiber_current s ≡ fiber.raw
      → resume_if_alive ruby (record { fiber = fiber; value = value }) s
        ≡ (fail (error runtime_error fiber_active), s)
  unfolding resume_if_alive resume_with check_suspended
  active_refused (ok v) alive active = ground arith
  active_refused (err e) alive active = ground arith

  -- A fiber that is dead or current is not run, and the process is unchanged, whatever the future's
  -- result is: the answer is `None` if it is dead, and the error "fiber active" if it is alive.
  pub resume_if_alive_refused :
      (value : Result Value Error)
      → (rb_fiber_alive_p s fiber.raw ≢ q_true) ⊎ (rb_fiber_current s ≡ fiber.raw)
      → ((rb_fiber_alive_p s fiber.raw ≢ q_true)
          × (resume_if_alive ruby (record { fiber = fiber; value = value }) s ≡ (done none, s)))
        ⊎ ((rb_fiber_alive_p s fiber.raw ≡ q_true)
            × (resume_if_alive ruby (record { fiber = fiber; value = value }) s
                ≡ (fail (error runtime_error fiber_active), s)))
  unfolding resume_if_alive resume_with check_suspended
  resume_if_alive_refused (ok v) (inl dead) = inl (dead, ground arith)
  resume_if_alive_refused (err e) (inl dead) = inl (dead, ground arith)
  resume_if_alive_refused value (inr active) =
      elim (ℕ_discrete (rb_fiber_alive_p s fiber.raw) q_true) [
        | yes alive ↦ inr (alive, active_refused value alive active)
        | no dead ↦ inl (dead, ground arith)
      ]

  -- A suspended fiber is transferred to with the value, or has the error raised in it, as a class and
  -- a message or as an exception object; a jump is passed on without running the fiber.
  pub resume_if_alive_runs :
      rb_fiber_alive_p s fiber.raw ≡ q_true
      → rb_fiber_current s ≢ fiber.raw
      → ((v : Value)
          → resume_if_alive ruby (record { fiber = fiber; value = ok v }) s
            ≡ (do ret ← rb_fiber_transfer fiber.raw (v ∷ []); pure (some ret)) s)
        × ((c : ExceptionClass) (m : Message)
            → resume_if_alive ruby (record { fiber = fiber; value = err (error c m) }) s
              ≡ (do
                text ← string_new m
                ret ← rb_fiber_raise fiber.raw (class_value c ∷ text ∷ [])
                pure (some ret))
                  s)
        × ((x : Value)
            → resume_if_alive ruby (record { fiber = fiber; value = err (exception x) }) s
              ≡ (do ret ← rb_fiber_raise fiber.raw (x ∷ []); pure (some ret)) s)
        × ((j : Value)
            → resume_if_alive ruby (record { fiber = fiber; value = err (jump j) }) s
              ≡ (fail (jump j), s))
  unfolding resume_if_alive resume_with check_suspended is_alive transfer raise
  resume_if_alive_runs alive other =
      (λ v. ground arith, λ c m. ground arith, λ x. ground arith, λ j. ground arith)
