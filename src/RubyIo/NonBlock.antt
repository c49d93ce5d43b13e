-- ===== src/RubyIo/NonBlock.antt =====
-- What `NonBlockGuard` of ext/shreduler/src/ruby_io.rs does to the flags of a descriptor.
use shredular.Base.{ℕ, Bool, true, ◌≡◌, refl, sym, ap, ◌∙◌}
use shredular.Errors.{Error, Result, ok, err}
use shredular.Async.{Outcome, done, M, finally, ◌>>=◌}
use shredular.Async.Rules.{bind-eq-done}
use shredular.RubyIo.{Io, IoError, NonBlockGuard, guard_new, guard_drop, or_error}

-- What `fcntl` documents for a call that succeeds. F_GETFL gives the flags. Some of them F_SETFL can change,
-- O_NONBLOCK among them, and it sets these as it is told; the others, such as the access mode, it ignores
-- and leaves as they are. nix knows those that can be changed.
pub record FcntlLaws {S H Interest Readiness : Type 0} (io : Io S H Interest Readiness)
    : Type 0 where
  pub flags : ℕ → S → ℕ
  pub settable : ℕ → ℕ
  pub fixed : ℕ → ℕ
  pub all_flags : (f g : ℕ) → settable f ≡ settable g → fixed f ≡ fixed g → f ≡ g
  pub get_flags_ok :
      (fd f : ℕ) (s t : S)
      → io.get_flags fd s ≡ (done (ok f), t)
      → (f ≡ flags fd s) × (flags fd t ≡ flags fd s)
  pub set_flags_ok :
      (fd f : ℕ) (s t : S)
      → io.set_flags fd f s ≡ (done (ok tt), t)
      → (settable (flags fd t) ≡ settable f) × (fixed (flags fd t) ≡ fixed (flags fd s))
  pub settable-truncate : (f : ℕ) → settable (io.from_bits_truncate f) ≡ settable f
  pub is_nonblock : ℕ → Bool
  pub is_nonblock-settable : (f g : ℕ) → settable f ≡ settable g → is_nonblock f ≡ is_nonblock g
  pub is_nonblock-or : (f : ℕ) → is_nonblock (io.or_nonblock f) ≡ true

module _ {S H Interest Readiness : Type 0} (io : Io S H Interest Readiness)
    (laws : FcntlLaws io) where
  open laws use {
    flags, settable, fixed, all_flags, get_flags_ok, set_flags_ok, settable-truncate, is_nonblock,
    is_nonblock-settable, is_nonblock-or,
  }

  or_error-done :
      {A E : Type 0} (e : Error) (r : Result A E) {a : A} {s t : S}
      → or_error io e r s ≡ (done a, t)
      → (r ≡ ok a) × (s ≡ t)
  or_error-done e (ok a) h = (cc, cc)
  or_error-done e (err x) h = cc

  -- A guard that was made holds the flags from before, as far as nix knows them, and has made the descriptor
  -- non-blocking.
  guard_new-done :
      (fd : ℕ) (s t : S) (g : NonBlockGuard)
      → guard_new io fd s ≡ (done g, t)
      → (g.raw_fd ≡ fd)
        × (settable g.old_flags ≡ settable (flags fd s))
        × (is_nonblock (flags fd t) ≡ true)
        × (fixed (flags fd t) ≡ fixed (flags fd s))
  unfolding guard_new
  guard_new-done fd s t g e =
      let (got, u, was_got, e1) = bind-eq-done (io.get_flags fd s) _ e in
      let (f, v, checked, e2) = bind-eq-done (or_error io _ got u) _ e1 in
      let (is_got, is_u) = or_error-done _ got checked in
      let (set, w, was_set, e3) = bind-eq-done (io.set_flags fd _ v) _ e2 in
      let (x, y, checked', e4) = bind-eq-done (or_error io _ set w) _ e3 in
      let (is_set, is_w) = or_error-done _ set checked' in
      let is_t : y ≡ t = cc in
      let is_g : record { raw_fd = fd; old_flags = io.from_bits_truncate f } ≡ g = cc in
      let (is_f, same) = get_flags_ok fd f s u (cc) in
      let (as_told, others) = set_flags_ok fd (io.or_nonblock (io.from_bits_truncate f)) v t (cc) in
      (
        ap (λ h. h.raw_fd) (sym is_g),
        ap (λ h. settable h.old_flags) (sym is_g) ∙ settable-truncate f ∙ ap settable is_f,
        is_nonblock-settable _ _ as_told ∙ is_nonblock-or (io.from_bits_truncate f),
        others ∙ ap (λ z. fixed (flags fd z)) (sym is_u) ∙ ap fixed same,
      )

  guard_drop-done :
      (g : NonBlockGuard) (s t : S)
      → io.set_flags g.raw_fd g.old_flags s ≡ (done (ok tt), t)
      → guard_drop io g s ≡ t
  unfolding guard_drop
  guard_drop-done g s t e = ap (λ (w : Outcome (Result (Unit {0}) IoError) × S). w.1) e

  -- A section under a guard that could be made begins with the descriptor non-blocking. However the section
  -- ends, by a value, an error, a panic or by being dropped at an await, its outcome is passed on; and if
  -- it leaves the flags that F_SETFL cannot change as they are, and F_SETFL succeeds when the guard is
  -- dropped, then all flags are afterwards what they were before.
  pub guard_restores :
      {A : Type 0} (fd : ℕ) (body : M S A) (s t u : S) (g : NonBlockGuard)
      → guard_new io fd s ≡ (done g, t)
      → fixed (flags fd (body t).1) ≡ fixed (flags fd t)
      → io.set_flags g.raw_fd g.old_flags (body t).1 ≡ (done (ok tt), u)
      → let whole = (do g ← guard_new io fd; finally body (guard_drop io g)) s in
        (is_nonblock (flags fd t) ≡ true) × (whole ≡ ((body t).0, u)) × (flags fd u ≡ flags fd s)
  guard_restores fd body s t u g made kept dropped =
      let (is_fd, old, blocks, others) = guard_new-done fd s t g made in
      let (put_back, left) =
        set_flags_ok fd g.old_flags (body t).1 u
          (rw (sym (ap (λ n. io.set_flags n g.old_flags (body t).1) is_fd)) dropped) in
      (
        blocks,
        rw (made, guard_drop-done g (body t).1 u dropped) refl,
        all_flags _ _ (put_back ∙ old) (left ∙ kept ∙ others),
      )

  -- Of two guards of one descriptor that are made in a row, the drop of the first, where F_SETFL succeeds,
  -- gives the descriptor its old flags while the second is alive, and the drop of the second, where it
  -- succeeds too, leaves it non-blocking.
  pub guards_overlap :
      (fd : ℕ) (s t u v w : S) (a b : NonBlockGuard)
      → guard_new io fd s ≡ (done a, t)
      → guard_new io fd t ≡ (done b, u)
      → io.set_flags a.raw_fd a.old_flags u ≡ (done (ok tt), v)
      → io.set_flags b.raw_fd b.old_flags v ≡ (done (ok tt), w)
      → (guard_drop io b (guard_drop io a u) ≡ w)
        × (flags fd (guard_drop io a u) ≡ flags fd s)
        × (is_nonblock (flags fd w) ≡ true)
  guards_overlap fd s t u v w a b first second drop_a drop_b =
      let (a_fd, a_old, a_blocks, a_others) = guard_new-done fd s t a first in
      let (b_fd, b_old, b_blocks, b_others) = guard_new-done fd t u b second in
      let (a_back, a_left) = set_flags_ok fd a.old_flags u v (cc) in
      let (b_back, b_left) = set_flags_ok fd b.old_flags v w (cc) in
      (
        rw (guard_drop-done a u v drop_a) (guard_drop-done b v w drop_b),
        rw (guard_drop-done a u v drop_a)
            (all_flags _ _ (a_back ∙ a_old) (a_left ∙ b_others ∙ a_others)),
        is_nonblock-settable _ _ (b_back ∙ b_old) ∙ a_blocks,
      )
