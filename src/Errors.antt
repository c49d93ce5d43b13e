-- ===== src/Errors.antt =====
-- ext/shreduler/src/errors.rs, and the error values of the magnus crate as the program builds and
-- takes them apart.
use Prim.Native.String.{String}
use shredular.Base.{ℕ, Option, none, some}

-- A Ruby value as the machine word `VALUE`.
abbrev pub Value : Type 0
Value = ℕ

-- The exception classes that the program raises: those of Ruby, those that it defines, and the
-- class that a caller hands in.
pub data ExceptionClass : Type 0 where
  standard_error runtime_error type_error not_imp_error timeout_error : ExceptionClass
  base_error ready_error poisoned_cell_error : ExceptionClass
  given : Value → ExceptionClass

-- The `desc` of a wait with a timeout.
pub data Operation : Type 0 where
  reading writing unblocking_fiber : Operation

-- The message of an error, one constructor for each text or format string of the program, with the
-- numbers that it prints (a duration as seconds and nanoseconds). What else it prints, such as the text
-- of another error or, but for one, a class name, is left out, and texts that differ only in a capital are one.
pub data Message : Type 0 where
  already_mutably_borrowed already_borrowed : Message
  fiber_not_alive fiber_active not_a_fiber : Message
  runtime_is_closed could_not_build_runtime : Message
  could_not_unblock_fiber : Message
  timed_out : Operation → ℕ → ℕ → Message
  invalid_io_interests : ℕ → Message
  priority_not_valid : Message
  could_not_wait : Message
  error_joining_futures : Message
  error_waiting_for_io : Message
  cannot_read_more : ℕ → ℕ → Message
  cannot_write_more : ℕ → ℕ → Message
  could_not_get_flags could_not_set_flags : ℕ → Message
  could_not_create_stream could_not_create_backing_io : ℕ → Message
  could_not_resolve : Message
  invalid_wait_flags : ℕ → Message
  invalid_pid : ℕ → Message
  failed_signal_watcher : Message
  expected_io_buffer : String → Message
  conversion_failed : Message
  not_implemented : Message

-- `magnus::Error`: an error still to be raised, an exception object, or a pending jump.
pub data Error : Type 0 where
  error : ExceptionClass → Message → Error
  exception : Value → Error
  jump : ℕ → Error

-- The parent that `define_error` is given.
pub superclass : ExceptionClass → Option ExceptionClass
superclass base_error = some standard_error
superclass ready_error = some base_error
superclass poisoned_cell_error = some standard_error
superclass _ = none

-- The macros `new_base_error!`, `new_ready_error!`, `new_type_error!` and `new_timeout_error!`.
abbrev pub new_base_error : Message → Error
new_base_error m = error base_error m

abbrev pub new_ready_error : Message → Error
new_ready_error m = error ready_error m

abbrev pub new_type_error : Message → Error
new_type_error m = error type_error m

abbrev pub new_timeout_error : Message → Error
new_timeout_error m = error timeout_error m

-- A `Result` whose error is any type.
pub data Result {ℓ κ} (A : Type ℓ) (E : Type κ) : Type (ℓ ⊔ κ) where
  ok : A → Result A E
  err : E → Result A E
