-- ===== src/Scheduler/IoReadWrite/Udp.antt =====
-- Reading and writing a UDP socket, which `BackingIo` of ext/shreduler/src/ruby_io.rs leaves as `todo!`.
use shredular.Base.{ℕ, true, false, ◌≤◌, ◌≡◌, List, length, arith, ltb, leb}
use shredular.Errors.{Value}
use shredular.Async.{done, panic}
use shredular.IoBuffer.{as_slice, as_mut_slice}
use shredular.Ruby.{Ruby}
use shredular.RubyIo.{Io, udp_socket, RubyIo, NonBlockGuard, with_nonblock, guard_drop}
use shredular.Scheduler.{Carriers, Process, Tokio}
use shredular.Scheduler.Timeout.{Timers}
use shredular.Scheduler.IoReadWrite.{
  Streams, read_at_least, write_at_least, amount, read_guarded, read_future, write_guarded,
  write_future,
}

module _ {c : Carriers} {H Interest Readiness : Type 0} (ruby : Ruby (Process c)) (tokio : Tokio c)
    (timers : Timers c) (io : Io (Process c) H Interest Readiness)
    (streams : Streams (Process c) H) where
  amount-le :
      (minimum len : ℕ) → minimum ≤ len → amount ruby tokio timers io streams minimum len ≤ len
  amount-le minimum len le = ground arith

  -- Where the guard could be made and the buffer holds the minimum, the futures of `io_read` and of
  -- `io_write` on a UDP socket panic, whatever the minimum is, and the guard is dropped.
  udp_panics :
      (v : Value) (h : H) (buffer : Value) (minimum base len : ℕ) (bytes : List ℕ)
      (g : NonBlockGuard) (reader : ℕ) (s t u x w : Process c)
      → with_nonblock io (record { value = v; backing_io = udp_socket h }) s ≡ (done g, t)
      → as_mut_slice streams.buffers buffer t ≡ (done (base, len), u)
      → minimum ≤ len
      → streams.buf_reader_new u ≡ (done reader, x)
      → as_slice streams.buffers buffer t ≡ (done bytes, w)
      → minimum ≤ length bytes
      → let r : RubyIo H = record { value = v; backing_io = udp_socket h } in
        (read_future ruby tokio timers io streams r buffer minimum s
          ≡ (panic, guard_drop io g (streams.drop_buf_reader reader x)))
        × (write_future ruby tokio timers io streams r buffer minimum s
            ≡ (panic, guard_drop io g w))
  unfolding read_future read_guarded read_at_least write_future write_guarded write_at_least
  udp_panics v h buffer minimum base len bytes g reader s t u x w guarded sliced fits new_reader
        read holds =
      let a = amount-le minimum len fits in
      let b = amount-le minimum (length bytes) holds in
      let small : ltb len minimum ≡ false = ground arith in
      let enough : leb (amount ruby tokio timers io streams minimum len) len ≡ true =
        ground arith in
      let small' : ltb (length bytes) minimum ≡ false = ground arith in
      let enough' : leb (amount ruby tokio timers io streams minimum (length bytes)) (length bytes)
          ≡ true =
        ground arith in
      (rw (guarded, sliced, small, new_reader, enough), rw (guarded, read, small', enough'))
