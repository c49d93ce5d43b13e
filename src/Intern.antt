-- ===== src/Intern.antt =====
-- ext/shreduler/src/intern.rs: names, classes and an array of Ruby that are made once.
use Prim.Native.String.{String}
use shredular.Errors.{Value, Error, Result, ok, err}
use shredular.Async.{M, pure, panics, ◌>>=◌, ◌>>◌}

-- The places that `memoize!` of the magnus crate keeps, one for each use of it, also in fiber.rs and
-- tokio_scheduler.rs.
pub data Memo : Type 0 where
  fileno_id try_convert_id io_class timeout_module empty_array_object fiber_class_place
        scheduler_class_place :
      Memo

-- `memoize!` gives what its place keeps, and makes it first if there is nothing. `const_get` looks up a
-- constant of `Object`.
pub record Interning (S : Type 0) : Type 0 where
  pub memoize : Memo → M S Value → M S Value
  pub new_id : String → M S Value
  pub const_get : String → M S (Result Value Error)
  pub register_mark_object : Value → M S (Unit {0})
  pub array_new : M S Value

module _ {S : Type 0} (interning : Interning S) where
  open interning use {memoize, new_id, const_get, register_mark_object, array_new}

  abbrev pub fileno : M S Value
  fileno = memoize fileno_id (new_id "fileno")

  abbrev pub try_convert : M S Value
  try_convert = memoize try_convert_id (new_id "try_convert")

  abbrev unwrap : Result Value Error → M S Value
  unwrap (ok v) = pure v
  unwrap (err e) = panics

  -- A constant, kept from the garbage collector.
  abbrev pub marked_const : String → M S Value
  marked_const name = do
    found ← const_get name
    value ← unwrap found
    register_mark_object value
    pure value

  abbrev pub io : M S Value
  io = memoize io_class (marked_const "IO")

  abbrev pub timeout : M S Value
  timeout = memoize timeout_module (marked_const "Timeout")

  unfoldable pub empty_array : M S Value
  empty_array =
      memoize empty_array_object do array ← array_new; register_mark_object array; pure array
