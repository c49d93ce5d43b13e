-- ===== src/IoBuffer/UnitTests.antt =====
-- The unit tests of ext/shreduler/src/io_buffer.rs, as programs that panic where an assertion fails.
use Prim.Native.String.{String}
use text.Mathlib.Text.{◌==◌ as str_eq}
use shredular.Base.{ℕ, zero, suc, Bool, true, false, List, [], ◌∷◌, ◌==◌, ◌&&◌}
use shredular.Errors.{Value, Error, Result, ok, err}
use shredular.Async.{M, pure, panics, reads, attempt, ◌>>=◌, ◌>>◌}
use shredular.Ruby.{Ruby}
use shredular.Fiber.{current, into_value}
use shredular.IoBuffer.{Buffers, try_convert, as_slice, as_mut_slice}

-- `==` of slices.
abbrev pub eq_bytes : List ℕ → List ℕ → Bool
eq_bytes [] [] = true
eq_bytes [] (y ∷ ys) = false
eq_bytes (x ∷ xs) [] = false
eq_bytes (x ∷ xs) (y ∷ ys) = (x == y) && eq_bytes xs ys

-- `[0; n]`.
abbrev pub zeros : ℕ → List ℕ
zeros zero = []
zeros (suc n) = 0 ∷ zeros n

module _ {S A : Type 0} where
  abbrev unwrap : Result A Error → M S A
  unwrap (ok a) = pure a
  unwrap (err e) = panics

  abbrev unwrap_err : Result A Error → M S Error
  unwrap_err (ok a) = panics
  unwrap_err (err e) = pure e

abbrev pub assert : {S : Type 0} → Bool → M S (Unit {0})
assert true = pure tt
assert false = panics

-- `eval` is `eval!`, and `to_string` is that of magnus' errors.
module _ {S : Type 0} (ruby : Ruby S) (buffers : Buffers S) (is_typed_data : Value → Bool)
    (classname : Value → String) (eval : String → M S (Result Value Error))
    (to_string : Error → String) where
  unfoldable pub test_it_fails_to_convert_non_io_buffer : M S (Unit {0})
  test_it_fails_to_convert_non_io_buffer = do
    no_nil ← unwrap_err (try_convert is_typed_data classname ruby.q_nil)
    assert (str_eq (to_string no_nil) "TypeError: expected an IO::Buffer, got NilClass")
    fiber_value ← reads (λ s. into_value (current ruby s))
    no_fiber ← unwrap_err (try_convert is_typed_data classname fiber_value)
    assert (str_eq "TypeError: expected an IO::Buffer, got Fiber" (to_string no_fiber))

  abbrev made : String → M S Value
  made source = do
    value ← eval source
    io_buffer ← unwrap value
    unwrap (try_convert is_typed_data classname io_buffer)

  unfoldable pub test_it_converts_io_buffer : M S (Unit {0})
  test_it_converts_io_buffer = do
    io_buffer ← made "IO::Buffer.new"
    assert (str_eq "IO::Buffer" (classname io_buffer))

  unfoldable pub test_as_mut_slice : M S (Unit {0})
  test_as_mut_slice = do
    io_buffer ← made "IO::Buffer.new"
    slice ← attempt (as_mut_slice buffers io_buffer)
    (base, size) ← unwrap slice
    bytes ← reads (buffers.from_raw_parts base size)
    assert (eq_bytes (zeros 65536) bytes)

  unfoldable pub test_as_slice : M S (Unit {0})
  test_as_slice = do
    io_buffer ← made "IO::Buffer.for('foo')"
    result ← attempt (as_slice buffers io_buffer)
    slice ← unwrap result
    assert (eq_bytes (102 ∷ 111 ∷ 111 ∷ []) slice)
