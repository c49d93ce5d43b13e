-- ===== src/Tests/Buffers.antt =====
-- The unit tests of ext/shreduler/src/io_buffer.rs, where the buffer 60 is new and 61 is one for a text.
use Prim.Native.String.{String, ◌++◌}
use text.Mathlib.Text.{◌==◌ as str_eq}
use shredular.Base.{ℕ, Bool, true, not, ◌==◌, ==_self, ◌≡◌, refl, ap, if◌then◌else◌, List, [], ◌∷◌}
use shredular.Errors.{Value, Error, error, type_error, expected_io_buffer, Result, ok}
use shredular.Async.{M, done}
use shredular.Fiber.{current}
use shredular.IoBuffer.{Buffers, try_convert, as_slice, as_mut_slice}
use shredular.IoBuffer.UnitTests.{
  eq_bytes, zeros, assert, test_it_fails_to_convert_non_io_buffer, test_it_converts_io_buffer,
  test_as_mut_slice, test_as_slice,
}
use shredular.Tests.World.{World, ruby, idle}

abbrev buffers : Buffers World
buffers = record {
  rb_io_buffer_get_bytes_for_reading = λ v s. (done (4096, if v == 60 then 65536 else 3), s);
  rb_io_buffer_get_bytes_for_writing = λ v s. (done (4096, if v == 60 then 65536 else 3), s);
  from_raw_parts = λ base size s. if size == 3 then 102 ∷ 111 ∷ 111 ∷ [] else zeros size;
}

abbrev classname : Value → String
classname v =
    if v == 60
    then "IO::Buffer"
    else if v == 61
    then "IO::Buffer"
    else if v == ruby.q_nil
    then "NilClass"
    else "Fiber"

abbrev is_typed_data : Value → Bool
is_typed_data v = not (v == ruby.q_nil)

abbrev eval : String → M World (Result Value Error)
eval source s = (done (ok (if str_eq source "IO::Buffer.new" then 60 else 61)), s)

abbrev to_string : Error → String
to_string (error type_error (expected_io_buffer got)) =
    "TypeError: expected an IO::Buffer, got " ++ got
to_string e = "another error"

fails_to_convert_non_io_buffer_pass :
    test_it_fails_to_convert_non_io_buffer ruby buffers is_typed_data classname eval to_string idle
    ≡ (done tt, idle)
unfolding test_it_fails_to_convert_non_io_buffer try_convert current
fails_to_convert_non_io_buffer_pass = refl

converts_io_buffer_pass :
    test_it_converts_io_buffer ruby buffers is_typed_data classname eval to_string idle
    ≡ (done tt, idle)
unfolding test_it_converts_io_buffer try_convert
converts_io_buffer_pass = refl

eq_bytes_self : (xs : List ℕ) → eq_bytes xs xs ≡ true
eq_bytes_self [] = refl
eq_bytes_self (x ∷ xs) = rw (==_self x) (eq_bytes_self xs)

as_mut_slice_pass :
    test_as_mut_slice ruby buffers is_typed_data classname eval to_string idle ≡ (done tt, idle)
unfolding test_as_mut_slice try_convert as_mut_slice
as_mut_slice_pass = ap (λ b. assert b idle) (eq_bytes_self (zeros 65536))

as_slice_pass :
    test_as_slice ruby buffers is_typed_data classname eval to_string idle ≡ (done tt, idle)
unfolding test_as_slice try_convert as_slice
as_slice_pass = refl
