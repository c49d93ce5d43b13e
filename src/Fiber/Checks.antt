-- ===== src/Fiber/Checks.antt =====
-- What the checks of ext/shreduler/src/fiber.rs let through.
use shredular.Base.{◌≡◌, ◌≢◌, ◌↔◌, arith}
use shredular.Errors.{Value, error, runtime_error, fiber_not_alive, fiber_active, ok, err}
use shredular.Ruby.{Ruby}
use shredular.Fiber.{Fiber, unknown, suspended, check_suspended, from_value}

module _ {S : Type 0} (ruby : Ruby S) (f : Fiber unknown) (s : S) where
  -- A fiber passes as suspended exactly when Ruby reports it alive and it is not the one that runs; it
  -- passes as itself. A dead fiber is refused as such, also if it is the current one.
  pub check_suspended_lem :
      (g : Fiber suspended)
      → ((check_suspended ruby f s ≡ ok g) ↔ (
          (ruby.rb_fiber_alive_p s f.raw ≡ ruby.q_true)
          × (ruby.rb_fiber_current s ≢ f.raw)
          × (g.raw ≡ f.raw)))
        × ((check_suspended ruby f s ≡ err (error runtime_error fiber_not_alive))
            ↔ (ruby.rb_fiber_alive_p s f.raw ≢ ruby.q_true))
        × ((check_suspended ruby f s ≡ err (error runtime_error fiber_active))
            ↔ ((ruby.rb_fiber_alive_p s f.raw ≡ ruby.q_true) × (ruby.rb_fiber_current s ≡ f.raw)))
  unfolding check_suspended
  check_suspended_lem g = (
    (λ e. ground arith, λ e. ground arith),
    (λ e. ground arith, λ e. ground arith),
    (λ e. ground arith, λ e. ground arith),
  )

module _ {S : Type 0} (ruby : Ruby S) where
  pub check_suspended_ok :
      (f : Fiber unknown) (s : S)
      → ruby.rb_fiber_alive_p s f.raw ≡ ruby.q_true
      → ruby.rb_fiber_current s ≢ f.raw
      → check_suspended ruby f s ≡ ok (record { raw = f.raw })
  unfolding check_suspended
  check_suspended_ok f s alive other = ground arith

  pub from_value_ok :
      (v : Value) (s : S)
      → ruby.rb_obj_is_fiber s v ≡ ruby.q_true
      → from_value ruby v s ≡ ok (record { raw = v })
  unfolding from_value
  from_value_ok v s fiber = ground arith
