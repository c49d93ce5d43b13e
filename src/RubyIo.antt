-- ===== src/RubyIo.antt =====
-- ext/shreduler/src/ruby_io.rs: a Ruby IO over a tokio handle, and the guard that makes its
-- descriptor non-blocking for a while.
pub mod NonBlock
pub mod Ownership
use Prim.Native.String.{String}
use text.Mathlib.Text.{◌==◌ as str_eq}
use shredular.Intern
use shredular.Intern.{Interning}
use shredular.Base.{
  ℕ, Bool, true, false, List, [], ◌∷◌, ◌||◌, ◌&&◌, Option, none, some, if◌then◌else◌,
}
use shredular.Errors.{
  Value, Error, Result, ok, err, new_base_error, new_type_error, new_ready_error,
  could_not_get_flags, could_not_set_flags, could_not_create_stream, could_not_create_backing_io,
  could_not_wait,
}
use shredular.Async.{M, Outcome, done, fail, pure, throw, finally, ◌>>=◌, ◌>>◌}

-- `std::io::Error`, of which the program reads the number of the system's error, if it has one.
pub record IoError : Type 0 where
  pub raw_os_error : Option ℕ

-- The enum `BackingIo`, over tokio's handles.
pub data BackingIo (H : Type 0) : Type 0 where
  unix_socket tcp_socket file udp_socket : H → BackingIo H

-- Which standard library type takes the descriptor before tokio does.
pub data Stream : Type 0 where
  unix_stream tcp_stream udp_stream : Stream

-- What the program calls of the kernel, of tokio's handles `H`, and of tokio's `Interest` and `Ready`.
-- `S` is the state of the process. `funcall` calls a method of Ruby, and `funcall_fd` one without
-- arguments that gives a descriptor.
pub record Io (S H Interest Readiness : Type 0) : Type 0 where
  pub readable : Interest
  pub writable : Interest
  pub or_interest : Interest → Interest → Interest
  pub is_readable : Interest → Bool
  pub is_writable : Interest → Bool
  pub ready_readable : Readiness
  pub ready_writable : Readiness
  pub or_ready : Readiness → Readiness → Readiness
  pub classname : Value → String
  pub interning : Interning S
  pub funcall : Value → Value → List Value → M S Value
  pub funcall_fd : Value → Value → M S ℕ
  pub from_std : Stream → ℕ → M S (Result H IoError)
  pub file_from_raw_fd : ℕ → M S H
  pub as_raw_fd : H → ℕ
  pub wait_ready : H → Interest → M S (Result Readiness IoError)
  pub get_flags : ℕ → M S (Result ℕ IoError)
  pub set_flags : ℕ → ℕ → M S (Result (Unit {0}) IoError)
  pub from_bits_truncate : ℕ → ℕ
  pub or_nonblock : ℕ → ℕ

-- The field is `Some` until the value is dropped; dropping it forgets the handle, so that the descriptor
-- stays open, and changes nothing else.
pub record RubyIo (H : Type 0) : Type 0 where
  pub value : Value
  pub backing_io : BackingIo H

pub record NonBlockGuard : Type 0 where
  pub raw_fd : ℕ
  pub old_flags : ℕ

-- `Display` of `BackingIo`.
unfoldable pub display : {H : Type 0} → BackingIo H → String
display (unix_socket h) = "UNIXSocket"
display (tcp_socket h) = "TCPSocket"
display (file h) = "File"
display (udp_socket h) = "UDPSocket"

module _ {S H Interest Readiness : Type 0} (io : Io S H Interest Readiness) where
  open io use {
    readable, writable, is_readable, is_writable, ready_readable, ready_writable, or_ready,
    classname, interning, funcall, funcall_fd, from_std, file_from_raw_fd, wait_ready, get_flags,
    set_flags, from_bits_truncate, or_nonblock,
  }

  -- `map_err(..)?` on a result whose error is replaced.
  abbrev pub or_error : {A E : Type 0} → Error → Result A E → M S A
  or_error e (ok a) = pure a
  or_error e (err x) = throw e

  stream_io : Stream → (H → BackingIo H) → ℕ → M S (BackingIo H)
  stream_io stream wrap raw_fd = do
    made ← from_std stream raw_fd
    h ← or_error (new_type_error (could_not_create_stream raw_fd)) made
    pure (wrap h)

  file_io : ℕ → M S (BackingIo H)
  file_io raw_fd = do h ← file_from_raw_fd raw_fd; pure (file h)

  by_class : String → ℕ → M S (BackingIo H)
  by_class name raw_fd =
      if str_eq name "UNIXSocket"
      then stream_io unix_stream unix_socket raw_fd
      else if str_eq name "IO" || str_eq name "File"
      then file_io raw_fd
      else if str_eq name "UDPSocket"
      then stream_io udp_stream udp_socket raw_fd
      else if str_eq name "Socket" || str_eq name "TCPServer" || str_eq name "TCPSocket"
      then stream_io tcp_stream tcp_socket raw_fd
      else throw (new_type_error (could_not_create_backing_io raw_fd))

  unfoldable pub from_value_and_raw_fd : Value → ℕ → M S (BackingIo H)
  unfolding by_class stream_io file_io
  from_value_and_raw_fd value raw_fd = by_class (classname value) raw_fd

  socket_ready : H → Interest → M S Readiness
  socket_ready h interest = do
    result ← wait_ready h interest
    or_error (new_ready_error could_not_wait) result

  -- A file is ready for whatever is asked of it.
  file_ready : Interest → M S Readiness
  file_ready interest =
      if is_readable interest && is_writable interest
      then pure (or_ready ready_readable ready_writable)
      else if is_readable interest
      then pure ready_readable
      else if is_writable interest
      then pure ready_writable
      else throw (new_ready_error could_not_wait)

  unfoldable pub backing_ready : BackingIo H → Interest → M S Readiness
  unfolding socket_ready file_ready
  backing_ready (unix_socket h) interest = socket_ready h interest
  backing_ready (tcp_socket h) interest = socket_ready h interest
  backing_ready (file h) interest = file_ready interest
  backing_ready (udp_socket h) interest = socket_ready h interest

  unfoldable pub backing_raw_fd : BackingIo H → ℕ
  backing_raw_fd (unix_socket h) = io.as_raw_fd h
  backing_raw_fd (tcp_socket h) = io.as_raw_fd h
  backing_raw_fd (file h) = io.as_raw_fd h
  backing_raw_fd (udp_socket h) = io.as_raw_fd h

  -- `NonBlockGuard::new` and its `Drop`.
  unfoldable pub guard_new : ℕ → M S NonBlockGuard
  guard_new fd = do
    got ← get_flags fd
    flags ← or_error (new_base_error (could_not_get_flags fd)) got
    set ← set_flags fd (or_nonblock (from_bits_truncate flags))
    or_error (new_base_error (could_not_set_flags fd)) set
    pure (record { raw_fd = fd; old_flags = from_bits_truncate flags })

  unfoldable pub guard_drop : NonBlockGuard → S → S
  guard_drop g s = (set_flags g.raw_fd g.old_flags s).1

  unfoldable pub new_with_interest : Value → Interest → M S (RubyIo H)
  new_with_interest value interest = do
    klass ← Intern.io interning
    try_convert ← Intern.try_convert interning
    converted ← funcall klass try_convert (value ∷ [])
    fileno ← Intern.fileno interning
    fd ← funcall_fd value fileno
    backing ← from_value_and_raw_fd value fd
    pure (record { value = value; backing_io = backing })

  unfoldable pub with_nonblock : RubyIo H → M S NonBlockGuard
  with_nonblock r = guard_new (backing_raw_fd r.backing_io)

  abbrev pub or_ready_error : {A : Type 0} → Outcome A × S → Outcome A × S
  or_ready_error (fail e, s) = (fail (new_ready_error could_not_wait), s)
  or_ready_error (done a, s) = (done a, s)
  or_ready_error (Outcome.panic, s) = (Outcome.panic, s)
  or_ready_error (Outcome.dropped, s) = (Outcome.dropped, s)
  or_ready_error (Outcome.starved, s) = (Outcome.starved, s)

  -- `RubyIo::ready`.
  unfoldable pub ruby_ready : RubyIo H → Interest → M S (Value × Readiness)
  ruby_ready r interest = do
    ready ← λ s. or_ready_error (backing_ready r.backing_io interest s)
    pure (r.value, ready)

  -- `Drop` of a `RubyIo` takes the handle out and forgets it, so that nothing of the handle's own drop
  -- is run.
  unfoldable pub ruby_drop : RubyIo H → S → S
  ruby_drop r s = s
