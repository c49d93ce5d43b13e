-- ===== src/Tests/Unread.antt =====
-- Reads from a kernel that holds bytes, and reads and writes of a UDP socket.
use shredular.Base.{ℕ, ◌≡◌, refl, true, List, [], ◌∷◌, length, drop, ltb, if◌then◌else◌}
use shredular.Errors.{ok}
use shredular.Async.{done, panic}
use shredular.IoBuffer.{as_mut_slice}
use shredular.RubyIo.{
  tcp_socket, udp_socket, RubyIo, NonBlockGuard, with_nonblock, guard_new, guard_drop,
  backing_raw_fd,
}
use shredular.Scheduler.IoReadWrite.{Streams, read_future, read_guarded, read_at_least}
use shredular.Tests.World.{World, ruby, tokio, timers, idle}
use shredular.Tests.Descriptors.{io}

-- The kernel's bytes are kept in the log.
abbrev hold : List ℕ → World → World
hold bytes s = record s { outside = record (s.outside) { log = bytes } }

abbrev least : ℕ → ℕ → ℕ
least m n = if ltb m n then m else n

-- A reader with room for four bytes, and a buffer of seven.
abbrev streams : Streams World ℕ
streams = record {
  buf_reader_new = λ s. (done 0, s);
  read_buffered = λ reader h max s.
      (done (ok (least max (length s.outside.log))), hold (drop 4 s.outside.log) s);
  drop_buf_reader = λ reader s. s;
  flush_handle = λ h s. (done (ok tt), s);
  write_all_handle = λ h bytes s. (done (ok tt), s);
  buffers = record {
    rb_io_buffer_get_bytes_for_reading = λ v s. (done (4096, 3), s);
    rb_io_buffer_get_bytes_for_writing = λ v s. (done (4096, 7), s);
    from_raw_parts = λ base size s. (1 ∷ 2 ∷ 3 ∷ []);
  };
  is_typed_data = λ v. true;
  classname = λ v. "IO::Buffer";
  unknown_errno = 0;
}

abbrev socket : RubyIo ℕ
socket = record { value = 40; backing_io = tcp_socket 5 }

abbrev arrived : World
arrived = hold (1 ∷ 2 ∷ 3 ∷ 4 ∷ 5 ∷ []) idle

-- Two bytes are wanted, and four are taken.
two_read :
    read_future ruby tokio timers io streams socket 60 2 arrived ≡ (done 5, hold (5 ∷ []) arrived)
unfolding as_mut_slice read_future read_guarded read_at_least with_nonblock guard_new guard_drop
    backing_raw_fd
two_read = refl

abbrev datagrams : RubyIo ℕ
datagrams = record { value = 40; backing_io = udp_socket 5 }

abbrev guard : NonBlockGuard
guard = record { raw_fd = 5; old_flags = 1 }

abbrev non_blocking : World
non_blocking = record idle { outside = record (idle.outside) { flags = 2049 } }

udp_read_panics :
    read_future ruby tokio timers io streams datagrams 60 3 idle
    ≡ (panic, guard_drop io guard non_blocking)
unfolding read_future read_guarded read_at_least as_mut_slice with_nonblock guard_new guard_drop
    backing_raw_fd
udp_read_panics = refl
