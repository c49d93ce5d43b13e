-- ===== src/IoBuffer.antt =====
-- ext/shreduler/src/io_buffer.rs: which Ruby values are taken for an `IO::Buffer`, and its slices.
pub mod UnitTests
use Prim.Native.String.{String}
use text.Mathlib.Text.{◌==◌ as str_eq}
use shredular.Base.{ℕ, List, Bool, not, if◌then◌else◌}
use shredular.Errors.{Value, Error, Result, ok, err, new_type_error, expected_io_buffer}
use shredular.Async.{M, pure, reads, ◌>>=◌}

-- Whether a value is a typed data object, and the name of its class.
unfoldable pub try_convert : (Value → Bool) → (Value → String) → Value → Result Value Error
try_convert is_typed_data classname value =
    if not (is_typed_data value)
    then err (new_type_error (expected_io_buffer (classname value)))
    else if not (str_eq (classname value) "IO::Buffer")
    then err (new_type_error (expected_io_buffer (classname value)))
    else ok value

-- What Ruby says of a buffer: where its bytes are and how many, or an error, which `protect` catches; and
-- the bytes of that part of the memory.
pub record Buffers (S : Type 0) : Type 0 where
  pub rb_io_buffer_get_bytes_for_reading : Value → M S (ℕ × ℕ)
  pub rb_io_buffer_get_bytes_for_writing : Value → M S (ℕ × ℕ)
  pub from_raw_parts : ℕ → ℕ → S → List ℕ

module _ {S : Type 0} (buffers : Buffers S) where
  open buffers use {
    rb_io_buffer_get_bytes_for_reading, rb_io_buffer_get_bytes_for_writing, from_raw_parts,
  }

  unfoldable pub as_slice : Value → M S (List ℕ)
  as_slice v = do
    (base, size) ← rb_io_buffer_get_bytes_for_reading v
    reads (from_raw_parts base size)

  -- Where the slice is, and its length.
  unfoldable pub as_mut_slice : Value → M S (ℕ × ℕ)
  as_mut_slice v = do (base, size) ← rb_io_buffer_get_bytes_for_writing v; pure (base, size)
