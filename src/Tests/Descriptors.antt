-- ===== src/Tests/Descriptors.antt =====
-- Descriptors: their flags, and waits, reads, writes and selects on them.

use shredular.Base.{
  ℕ, ◌+◌, ◌%◌, ◌≡◌, refl, List, [], ◌∷◌, none, some, true, ◌||◌, arith, ltb, leb, ◌==◌, ◌-◌, ap,
  sym, if◌then◌else◌,
}
use shredular.Errors.{Value, ok}
use shredular.Async.{done, panic, finally, M, ◌>>=◌}
use shredular.RubyIo.{
  Io, tcp_socket, RubyIo, NonBlockGuard, guard_new, guard_drop, with_nonblock, ruby_ready,
  backing_ready, backing_raw_fd,
}
use shredular.RubyIo.NonBlock.{FcntlLaws, guard_restores, guards_overlap}
use shredular.Scheduler.IoWait.{Events, try_from, wait_future, wait_guarded}
use shredular.Scheduler.IoReadWrite.{Streams}
use shredular.Tests.World.{World, interning, ruby, tokio, timers, idle, note}

abbrev with_flags : ℕ → World → World
with_flags f s = record s { outside = record (s.outside) { flags = f } }

-- F_SETFL sets what is above 2048, and leaves the rest as it is.
abbrev set_flags : ℕ → World → World
set_flags f s = with_flags (f - f % 2048 + s.outside.flags % 2048) s

-- Every IO is a TCP socket; the flag from 2048 on is O_NONBLOCK, and others are below it.
abbrev pub io : Io World ℕ ℕ ℕ
io = record {
  readable = 1;
  writable = 2;
  or_interest = λ i j. if i == j then i else 3;
  is_readable = λ i. i == 1 || i == 3;
  is_writable = λ i. i == 2 || i == 3;
  ready_readable = 1;
  ready_writable = 2;
  or_ready = λ i j. if i == j then i else 3;
  classname = λ v. "TCPSocket";
  interning = interning;
  funcall = λ v id args s. (done 40, s);
  funcall_fd = λ v id s. (done 5, s);
  from_std = λ stream fd s. (done (ok fd), s);
  file_from_raw_fd = λ fd s. (done fd, s);
  as_raw_fd = λ h. h;
  wait_ready = λ h i s. (done (ok i), s);
  get_flags = λ fd s. (done (ok s.outside.flags), s);
  set_flags = λ fd f s. (done (ok tt), set_flags f s);
  from_bits_truncate = λ f. f;
  or_nonblock = λ f. f % 2048 + 2048;
}

get_flags_lem :
    (fd f : ℕ) (s t : World)
    → io.get_flags fd s ≡ (done (ok f), t)
    → (f ≡ s.outside.flags) × (t.outside.flags ≡ s.outside.flags)
get_flags_lem fd f s t e = (cc, cc)

set_flags_lem :
    (fd f : ℕ) (s t : World)
    → io.set_flags fd f s ≡ (done (ok tt), t)
    → (t.outside.flags - t.outside.flags % 2048 ≡ f - f % 2048)
      × (t.outside.flags % 2048 ≡ s.outside.flags % 2048)
set_flags_lem fd f s t e =
    let set : t.outside.flags ≡ f - f % 2048 + s.outside.flags % 2048 =
      ap (λ p. p.1.outside.flags) (sym e) in
    (omega arith, omega arith)

all_flags_lem : (f g : ℕ) → f - f % 2048 ≡ g - g % 2048 → f % 2048 ≡ g % 2048 → f ≡ g
all_flags_lem f g x y = omega arith

leb-settable : (f g : ℕ) → f - f % 2048 ≡ g - g % 2048 → leb 2048 f ≡ leb 2048 g
leb-settable f g e = ground arith

leb-or : (f : ℕ) → leb 2048 (io.or_nonblock f) ≡ true
leb-or f = ground arith

abbrev fcntl_laws : FcntlLaws io
fcntl_laws = record {
  flags = λ fd s. s.outside.flags;
  settable = λ f. f - f % 2048;
  fixed = λ f. f % 2048;
  all_flags = all_flags_lem;
  get_flags_ok = get_flags_lem;
  set_flags_ok = set_flags_lem;
  settable-truncate = λ f. refl;
  is_nonblock = λ f. leb 2048 f;
  is_nonblock-settable = leb-settable;
  is_nonblock-or = leb-or;
}

-- A section that panics.
abbrev panicking : M World Value
panicking s = (panic, note 1 s)

abbrev first : NonBlockGuard
first = record { raw_fd = 5; old_flags = 1 }

abbrev second : NonBlockGuard
second = record { raw_fd = 5; old_flags = 2049 }

made_first : guard_new io 5 idle ≡ (done first, with_flags 2049 idle)
unfolding guard_new
made_first = refl

made_second : guard_new io 5 (with_flags 2049 idle) ≡ (done second, with_flags 2049 idle)
unfolding guard_new
made_second = refl

guard_restores_example :
    (fcntl_laws.is_nonblock 2049 ≡ true)
    × ((do g ← guard_new io 5; finally panicking (guard_drop io g)) idle ≡ (panic, note 1 idle))
    × (fcntl_laws.flags 5 (note 1 idle) ≡ fcntl_laws.flags 5 idle)
guard_restores_example =
    guard_restores io fcntl_laws 5 panicking idle (with_flags 2049 idle) (note 1 idle) first
      made_first refl refl

guards_overlap_example :
    (guard_drop io second (guard_drop io first (with_flags 2049 idle)) ≡ with_flags 2049 idle)
    × (fcntl_laws.flags 5 (guard_drop io first (with_flags 2049 idle)) ≡ 1)
    × (fcntl_laws.is_nonblock 2049 ≡ true)
guards_overlap_example =
    guards_overlap io fcntl_laws 5 idle (with_flags 2049 idle) (with_flags 2049 idle) idle
      (with_flags 2049 idle) first second made_first made_second refl refl

-- READABLE is 1, PRIORITY 2 and WRITABLE 4, as in Ruby.
abbrev pub events : Events
events = record {
  readable = 1;
  writable = 4;
  priority = 2;
  from_bits = λ bits. if ltb bits 8 then some bits else none;
  contains = λ bits b. ltb b (bits % (b + b) + 1);
}

read_and_write : try_from events io 5 ≡ ok io.readable
unfolding try_from
read_and_write = refl

abbrev socket : RubyIo ℕ
socket = record { value = 40; backing_io = tcp_socket 5 }

-- A wait for writing answers 1, which is READABLE.
waited : wait_future ruby tokio timers events io socket io.writable idle ≡ (done 3, idle)
unfolding wait_future wait_guarded with_nonblock guard_new guard_drop backing_raw_fd ruby_ready
    backing_ready
waited = refl

-- A read gives at most five bytes, and every buffer holds seven.
abbrev seven_bytes : List ℕ
seven_bytes = 1 ∷ 2 ∷ 3 ∷ 4 ∷ 5 ∷ 6 ∷ 7 ∷ []

abbrev pub streams : Streams World ℕ
streams = record {
  buf_reader_new = λ s. (done 0, s);
  read_buffered = λ reader h max s. (done (ok (if ltb max 5 then max else 5)), s);
  drop_buf_reader = λ reader s. s;
  flush_handle = λ h s. (done (ok tt), s);
  write_all_handle = λ h bytes s. (done (ok tt), s);
  buffers = record {
    rb_io_buffer_get_bytes_for_reading = λ v s. (done (4096, 7), s);
    rb_io_buffer_get_bytes_for_writing = λ v s. (done (4096, 7), s);
    from_raw_parts = λ base size s. seven_bytes;
  };
  is_typed_data = λ v. true;
  classname = λ v. "IO::Buffer";
  unknown_errno = 0;
}
