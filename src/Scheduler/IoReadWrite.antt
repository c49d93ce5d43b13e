-- ===== src/Scheduler/IoReadWrite.antt =====
-- ext/shreduler/src/tokio_scheduler/io_read_write.rs, the reads and writes of `BackingIo` in
-- ruby_io.rs, and the slices of io_buffer.rs.
pub mod Amounts
pub mod Udp
use Prim.Native.String.{String}
use shredular.IoBuffer
use shredular.IoBuffer.{Buffers, as_slice, as_mut_slice}
use shredular.Base.{
  ℕ, Bool, true, false, Option, none, some, List, length, pos, neg_ℕ, ltb, leb, ◌==◌, if◌then◌else◌,
}
use shredular.Errors.{
  Value, Error, Result, ok, err, new_base_error, cannot_read_more, cannot_write_more, reading,
  writing,
}
use shredular.Async.{M, pure, throw, panics, lift, finally, ◌>>=◌, ◌>>◌}
use shredular.Ruby.{Ruby}
use shredular.RubyIo.{
  Io, IoError, BackingIo, unix_socket, tcp_socket, file, udp_socket, RubyIo, new_with_interest,
  with_nonblock, guard_drop,
}
use shredular.TimeoutDuration.{TimeoutDuration, is_zero}
use shredular.Scheduler.{Carriers, Process, Block, Tokio, spawn_and_transfer, rtodo}
use shredular.Scheduler.Timeout.{Timers, with_timeout}

-- tokio's buffered reads and writes of a handle, and the bytes of an `IO::Buffer`. A number stands for
-- a `BufReader`; `read_buffered reader h n` reads through it, from `h`, into a slice of `n` bytes, and its
-- drop discards the bytes that it still holds. `unknown_errno` is `Errno::UnknownErrno`.
pub record Streams (S H : Type 0) : Type 0 where
  pub buf_reader_new : M S ℕ
  pub read_buffered : ℕ → H → ℕ → M S (Result ℕ IoError)
  pub drop_buf_reader : ℕ → S → S
  pub flush_handle : H → M S (Result (Unit {0}) IoError)
  pub write_all_handle : H → List ℕ → M S (Result (Unit {0}) IoError)
  pub buffers : Buffers S
  pub is_typed_data : Value → Bool
  pub classname : Value → String
  pub unknown_errno : ℕ

module _ {S H : Type 0} (streams : Streams S H) where
  open streams use {read_buffered, drop_buf_reader, flush_handle, write_all_handle, unknown_errno}

  -- The methods of `AsyncRead` and `AsyncWrite` go by the kind of handle; UDP is a `todo!`.
  abbrev pub on_handle : {A : Type 0} → (H → M S A) → BackingIo H → M S A
  on_handle f (unix_socket h) = f h
  on_handle f (tcp_socket h) = f h
  on_handle f (file h) = f h
  on_handle f (udp_socket h) = panics

  -- `?` on a `std::io::Result` in a function that returns one.
  abbrev pub or_return :
      {A B : Type 0} → (A → M S (Result B IoError)) → Result A IoError → M S (Result B IoError)
  or_return k (ok a) = k a
  or_return k (err e) = pure (err e)

  abbrev pub assert : Bool → M S (Unit {0})
  assert true = pure tt
  assert false = panics

  abbrev pub read_body : ℕ → BackingIo H → ℕ → ℕ → M S (Result ℕ IoError)
  read_body reader backing len min = do
    assert (leb min len)
    ret ← on_handle (λ h. read_buffered reader h min) backing
    flushed ← on_handle flush_handle backing
    or_return (λ _. pure ret) flushed

  -- The reader is moved in, and dropped at the end. `len` is the length of the slice `buf`.
  unfoldable pub read_at_least : ℕ → BackingIo H → ℕ → ℕ → M S (Result ℕ IoError)
  read_at_least reader backing len min =
      finally (read_body reader backing len min) (drop_buf_reader reader)

  unfoldable pub write_at_least : BackingIo H → List ℕ → ℕ → M S (Result ℕ IoError)
  write_at_least backing buf min = do
    assert (leb min (length buf))
    written ← on_handle (λ h. write_all_handle h buf) backing
    or_return
        (λ _. do
          flushed ← on_handle flush_handle backing
          or_return (λ _. pure (ok (length buf))) flushed)
        written

  abbrev pub errno_of : IoError → ℕ
  errno_of e = elim (e.raw_os_error) [ some n ↦ n | none ↦ unknown_errno ]

module _ {c : Carriers} {H Interest Readiness : Type 0} (ruby : Ruby (Process c)) (tokio : Tokio c)
    (timers : Timers c) (io : Io (Process c) H Interest Readiness)
    (streams : Streams (Process c) H) where
  -- The number of bytes, or the negated errno.
  abbrev pub answer : Result ℕ IoError → Block c
  answer (ok amt) = pure (ruby.integer (pos amt))
  answer (err e) = pure (ruby.integer (neg_ℕ (errno_of streams e)))

  abbrev pub amount : ℕ → ℕ → ℕ
  amount minimum len = if minimum == 0 then len else minimum

  unfoldable pub read_guarded : RubyIo H → Value → ℕ → Block c
  read_guarded r buffer minimum = do
    (base, len) ← as_mut_slice streams.buffers buffer
    if ltb len minimum then throw (new_base_error (cannot_read_more minimum len)) else do
      bufreader ← streams.buf_reader_new
      result ← read_at_least streams bufreader r.backing_io len (amount minimum len)
      answer result

  unfoldable pub read_future : RubyIo H → Value → ℕ → Block c
  read_future r buffer minimum = do
    nonblock ← with_nonblock io r
    finally (read_guarded r buffer minimum) (guard_drop io nonblock)

  -- A timeout of zero is no timeout.
  abbrev pub some_timeout : TimeoutDuration → Option TimeoutDuration
  some_timeout timeout = if is_zero timeout then none else some timeout

  unfoldable pub io_read : Value → Value → ℕ → TimeoutDuration → Block c
  io_read io_value buffer minimum timeout = do
    r ← new_with_interest io io_value io.readable
    spawn_and_transfer ruby tokio
        (with_timeout timers reading (some_timeout timeout) (read_future r buffer minimum))

  unfoldable pub write_guarded : RubyIo H → Value → ℕ → Block c
  write_guarded r buffer minimum = do
    bytes ← as_slice streams.buffers buffer
    if ltb (length bytes) minimum
        then throw (new_base_error (cannot_write_more minimum (length bytes)))
        else do
          result ← write_at_least streams r.backing_io bytes (amount minimum (length bytes))
          answer result

  unfoldable pub write_future : RubyIo H → Value → ℕ → Block c
  write_future r buffer minimum = do
    nonblock ← with_nonblock io r
    finally (write_guarded r buffer minimum) (guard_drop io nonblock)

  unfoldable pub io_write : Value → Value → ℕ → TimeoutDuration → Block c
  io_write io_value buffer minimum timeout = do
    r ← new_with_interest io io_value io.writable
    checked ← lift (IoBuffer.try_convert streams.is_typed_data streams.classname buffer)
    spawn_and_transfer ruby tokio
        (with_timeout timers writing (some_timeout timeout) (write_future r checked minimum))

  -- Both are stubs.
  abbrev pub io_pread : ℕ → List ℕ → ℕ → ℕ → ℕ → M (Process c) ℕ
  io_pread io buffer from length offset = rtodo

  abbrev pub io_pwrite : ℕ → List ℕ → ℕ → ℕ → ℕ → M (Process c) ℕ
  io_pwrite io buffer from length offset = rtodo
