-- ===== src/Ruby.antt =====
-- What the program calls of the Ruby VM through magnus and rb-sys. None of it is in this repository,
-- so it is a parameter: `S` is the state of the process, which another fiber may change at will while
-- it runs. A call that the source makes under `protect` gives Ruby's exception as `fail`.
use shredular.Base.{List, ℤ}
use shredular.Errors.{Value, ExceptionClass, Message}
use shredular.Async.{M}

pub record Ruby (S : Type 0) : Type 0 where
  pub q_true : Value
  pub q_nil : Value
  pub integer : ℤ → Value
  pub class_value : ExceptionClass → Value
  pub rb_fiber_current : S → Value
  pub rb_fiber_alive_p : S → Value → Value
  pub rb_obj_is_fiber : S → Value → Value
  pub rb_fiber_yield : List Value → M S Value
  pub rb_fiber_resume : Value → List Value → M S Value
  pub rb_fiber_transfer : Value → List Value → M S Value
  pub rb_fiber_raise : Value → List Value → M S Value
  pub string_new : Message → M S Value
  pub new_instance : ExceptionClass → Value → M S Value
