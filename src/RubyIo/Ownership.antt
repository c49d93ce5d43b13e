-- ===== src/RubyIo/Ownership.antt =====
-- Whose a descriptor is, in `BackingIo::from_value_and_raw_fd` and the `Drop` of `RubyIo`
-- (ext/shreduler/src/ruby_io.rs).
use Prim.Native.String.{String}
use text.Mathlib.Text.{◌==◌ as str_eq}
use shredular.Base.{ℕ, Bool, true, false, ◌||◌, ◌≡◌, ◌⊎◌, inl, inr, sym, ◌∙◌, subst, Bool-cases}
use shredular.Errors.{
  Value, Result, ok, err, new_type_error, could_not_create_stream, could_not_create_backing_io,
}
use shredular.Async.{Outcome, done, fail}
use shredular.RubyIo.{
  Io, IoError, BackingIo, Stream, unix_stream, udp_stream, tcp_stream, unix_socket, tcp_socket,
  udp_socket, file, from_value_and_raw_fd, stream_io, file_io, by_class, ruby_drop,
}

-- Sockets of the standard library own their descriptor: tokio's `from_std` takes the socket, registers
-- the descriptor with the kernel's poll, and drops the socket, which closes the descriptor, where that
-- fails. A descriptor that is registered already is refused (EEXIST). `File::from_raw_fd` registers
-- nothing.
pub record OwnershipLaws {S H Interest Readiness : Type 0} (io : Io S H Interest Readiness)
    : Type 0 where
  pub is_open : ℕ → S → Bool
  pub is_registered : ℕ → S → Bool
  pub from_std_returns :
      (stream : Stream) (fd : ℕ) (s : S)
      → (r : Result H IoError) × (t : S) × (io.from_std stream fd s ≡ (done r, t))
  pub from_std_failed :
      (stream : Stream) (fd : ℕ) (s t : S) (e : IoError)
      → io.from_std stream fd s ≡ (done (err e), t)
      → is_open fd t ≡ false
  pub from_std_made :
      (stream : Stream) (fd : ℕ) (s t : S) (h : H)
      → io.from_std stream fd s ≡ (done (ok h), t)
      → is_registered fd s ≡ false × is_registered fd t ≡ true
  pub file_made : (fd : ℕ) (s : S) → (h : H) × (io.file_from_raw_fd fd s ≡ (done h, s))

module _ {S H Interest Readiness : Type 0} (io : Io S H Interest Readiness)
    (laws : OwnershipLaws io) where
  open laws use {
    is_open, is_registered, from_std_returns, from_std_failed, from_std_made, file_made,
  }

  -- A stream is made and registered, where it was not before, or its descriptor is closed.
  abbrev Owned : {A : Type 0} → ℕ → S → Outcome A × S → Type 0
  Owned {A} fd s p =
      ((a : A) × (p.0 ≡ done a) × (is_registered fd s ≡ false) × (is_registered fd p.1 ≡ true))
      ⊎ ((p.0 ≡ fail (new_type_error (could_not_create_stream fd))) × (is_open fd p.1 ≡ false))

  stream_io-Owned :
      (stream : Stream) (wrap : H → BackingIo H) (fd : ℕ) (s : S)
      → Owned fd s (stream_io io stream wrap fd s)
  unfolding stream_io
  stream_io-Owned stream wrap fd s = by_result (from_std_returns stream fd s)
    where
      by_result :
          ((r : Result H IoError) × (t : S) × (io.from_std stream fd s ≡ (done r, t)))
          → Owned fd s (stream_io io stream wrap fd s)
      by_result (ok h, t, e) =
          let (before, now) = from_std_made stream fd s t h e in
          inl (wrap h, rw e, before, rw e now)
      by_result (err x, t, e) = inr (rw e, rw e (from_std_failed stream fd s t x e))

  -- The three ways of a class name.
  abbrev Chosen : String → Type 0
  Chosen name =
      ((stream : Stream) × (wrap : H → BackingIo H) × ((fd : ℕ) (s : S)
          → by_class io name fd s ≡ stream_io io stream wrap fd s))
      ⊎ ((fd : ℕ) (s : S) → by_class io name fd s ≡ file_io io fd s)
      ⊎ ((fd : ℕ) (s : S)
          → by_class io name fd s ≡ (fail (new_type_error (could_not_create_backing_io fd)), s))

  chosen : (name : String) → Chosen name
  unfolding by_class
  chosen name = elim (Bool-cases (str_eq name "UNIXSocket")) [
    | inl unix ↦ inl (unix_stream, unix_socket, λ fd s. rw unix)
    | inr not_unix ↦ elim (Bool-cases (str_eq name "IO" || str_eq name "File")) [
      | inl is_file ↦ inr (inl (λ fd s. rw (not_unix, is_file)))
      | inr not_file ↦ elim (Bool-cases (str_eq name "UDPSocket")) [
        | inl udp ↦ inl (udp_stream, udp_socket, λ fd s. rw (not_unix, not_file, udp))
        | inr not_udp ↦
            elim (Bool-cases
              (str_eq name "Socket" || str_eq name "TCPServer" || str_eq name "TCPSocket")) [
                | inl tcp ↦
                    inl (tcp_stream, tcp_socket, λ fd s. rw (not_unix, not_file, not_udp, tcp))
                | inr none_of_them ↦
                    inr (inr (λ fd s. rw (not_unix, not_file, not_udp, none_of_them)))
              ]
      ]
    ]
  ]

  registered_after :
      {A : Type 0} (fd : ℕ) (s t : S) (a : A) → Owned fd s (done a, t) → is_registered fd t ≡ true
  registered_after fd s t a (inl (x, e, before, now)) = now
  registered_after fd s t a (inr (e, closed)) = cc

  refused :
      {A : Type 0} (fd : ℕ) (s : S) (p : Outcome A × S)
      → is_registered fd s ≡ true
      → Owned fd s p
      → (p.0 ≡ fail (new_type_error (could_not_create_stream fd))) × (is_open fd p.1 ≡ false)
  refused fd s p r (inl (x, e, before, now)) = cc
  refused fd s p r (inr closed) = closed

  -- By what is documented of `from_std` and of the kernel's poll, when an IO has got its handle, either
  -- the handle is a file and nothing else has changed; or after the `RubyIo` is dropped, asking once more
  -- for a handle of the same descriptor ends in "could not create", with the descriptor closed.
  pub from_value_and_raw_fd-ruby_drop :
      (value : Value) (fd : ℕ) (s t : S) (b : BackingIo H)
      → from_value_and_raw_fd io value fd s ≡ (done b, t)
      → let again =
          from_value_and_raw_fd io value fd
            (ruby_drop io (record { value = value; backing_io = b }) t) in
        ((h : H) × (b ≡ file h) × (t ≡ s))
        ⊎ ((again.0 ≡ fail (new_type_error (could_not_create_stream fd)))
            × (is_open fd again.1 ≡ false))
  unfolding from_value_and_raw_fd ruby_drop file_io
  from_value_and_raw_fd-ruby_drop value fd s t b e = elim (chosen (io.classname value)) [
    | inl (stream, wrap, is) ↦
        let now : is_registered fd t ≡ true =
          registered_after fd s t b
            (subst (Owned fd s) (sym (is fd s) ∙ e) (stream_io-Owned stream wrap fd s)) in
        inr (rw (is fd t) (refused fd t _ now (stream_io-Owned stream wrap fd t)))
    | inr (inl is) ↦ let (h, made) = file_made fd s in inl (h, cc (is fd s), cc (is fd s))
    | inr (inr is) ↦ absurd (cc (is fd s))
  ]
