-- ===== src/Tests/Handles.antt =====
-- Two handles for one descriptor, one after the other.
use shredular.Base.{
  ℕ, ◌≡◌, ◌⊎◌, inl, inr, refl, false, Bool-cases, arith, ltb, ◌==◌, if◌then◌else◌, none,
}
use shredular.Errors.{ok, err, new_type_error, could_not_create_stream}
use shredular.Async.{Outcome, done, fail}
use shredular.RubyIo.{Io, BackingIo, tcp_socket, file, from_value_and_raw_fd, ruby_drop}
use shredular.RubyIo.Ownership.{OwnershipLaws, from_value_and_raw_fd-ruby_drop}
use shredular.Tests.World.{World, idle}
use shredular.Tests.Descriptors.{io}

-- The descriptor is open (0), or registered too (1), or closed (2).
abbrev set_state : ℕ → World → World
set_state n s = record s { outside = record (s.outside) { flags = n } }

abbrev polling : Io World ℕ ℕ ℕ
polling = record io {
  from_std = λ stream fd s.
      if s.outside.flags == 0
      then (done (ok fd), set_state 1 s)
      else (done (err (record { raw_os_error = none })), set_state 2 s);
}

polling_laws : OwnershipLaws polling
polling_laws = record {
  is_open = λ fd s. ltb s.outside.flags 2;
  is_registered = λ fd s. s.outside.flags == 1;
  from_std_returns = λ stream fd s. elim (Bool-cases (s.outside.flags == 0)) [
    | inl opened ↦ (ok fd, set_state 1 s, rw opened)
    | inr taken ↦ (err (record { raw_os_error = none }), set_state 2 s, rw taken)
  ];
  from_std_failed = λ stream fd s t e made. ground (arith, made);
  from_std_made = λ stream fd s t h made. ground (arith, made);
  file_made = λ fd s. (fd, refl);
}

abbrev opened : World
opened = set_state 0 idle

made : from_value_and_raw_fd polling 40 5 opened ≡ (done (tcp_socket 5), set_state 1 opened)
unfolding from_value_and_raw_fd
made = refl

abbrev again : Outcome (BackingIo ℕ) × World
again =
    from_value_and_raw_fd polling 40 5
      (ruby_drop polling (record { value = 40; backing_io = tcp_socket 5 }) (set_state 1 opened))

from_value_and_raw_fd-ruby_drop_example :
    ((h : ℕ) × (tcp_socket 5 ≡ file h) × (set_state 1 opened ≡ opened))
    ⊎ ((again.0 ≡ fail (new_type_error (could_not_create_stream 5)))
        × (polling_laws.is_open 5 again.1 ≡ false))
from_value_and_raw_fd-ruby_drop_example =
    from_value_and_raw_fd-ruby_drop polling polling_laws 40 5 opened (set_state 1 opened)
      (tcp_socket 5) made
