-- ===== src/Scheduler/IoReadWrite/Amounts.antt =====
-- How much `io_read` and `io_write` of ext/shreduler/src/tokio_scheduler/io_read_write.rs transfer.
use shredular.Base.{
  ℕ, ◌≤◌, ◌≡◌, ◌⊎◌, inl, inr, refl, sym, List, length, pos, neg_ℕ, arith, ltb, leb, subst,
}
use shredular.Errors.{Value, Result, ok, err, new_base_error, cannot_write_more}
use shredular.Async.{done, pure, finally, ◌>>=◌}
use shredular.Async.Rules.{bind-eq-done, after-eq-done, done-injective, if-throw-done}
use shredular.IoBuffer.{as_slice}
use shredular.Ruby.{Ruby}
use shredular.RubyIo.{Io, IoError, BackingIo, RubyIo, with_nonblock, guard_drop}
use shredular.Scheduler.{Carriers, Process, Tokio}
use shredular.Scheduler.Timeout.{Timers}
use shredular.Scheduler.IoReadWrite.{
  Streams, on_handle, or_return, assert, write_at_least, errno_of, answer, amount, write_guarded,
  write_future,
}

-- A read into a slice gives no more bytes than the slice has.
pub record StreamsLaws {S H : Type 0} (streams : Streams S H) : Type 0 where
  pub read_fits :
      (reader : ℕ) (h : H) (max n : ℕ) (s t : S)
      → streams.read_buffered reader h max s ≡ (done (ok n), t)
      → n ≤ max

module _ {S H : Type 0} (streams : Streams S H) where
  or_return-ok :
      {n : ℕ} (ret : Result ℕ IoError) (r : Result (Unit {0}) IoError) (s t : S)
      → or_return streams (λ _. pure ret) r s ≡ (done (ok n), t)
      → ret ≡ ok n
  or_return-ok ret (ok x) s t e = done-injective e
  or_return-ok ret (err x) s t e = cc

  write_at_least-all :
      (b : BackingIo H) (buf : List ℕ) (min n : ℕ) (s t : S)
      → write_at_least streams b buf min s ≡ (done (ok n), t)
      → n ≡ length buf
  unfolding write_at_least
  write_at_least-all b buf min n s t e =
      let (_, u, _, after_assert) = bind-eq-done (assert streams (leb min (length buf)) s) _ e in
      let (written, v, _, after_write) =
        bind-eq-done (on_handle streams (λ h. streams.write_all_handle h buf) b u) _ after_assert in
      flushed-all written v after_write
    where
      flushed-all :
          (written : Result (Unit {0}) IoError) (v : S)
          → or_return streams
              (λ _. do
                flushed ← on_handle streams streams.flush_handle b
                or_return streams (λ _. pure (ok (length buf))) flushed)
              written
              v
            ≡ (done (ok n), t)
          → n ≡ length buf
      flushed-all (err x) v h = cc
      flushed-all (ok x) v h =
          let (flushed, w, _, after_flush) =
            bind-eq-done (on_handle streams streams.flush_handle b v) _ h in
          cc (or_return-ok (ok (length buf)) flushed w t after_flush)

module _ {c : Carriers} {H Interest Readiness : Type 0} (ruby : Ruby (Process c)) (tokio : Tokio c)
    (timers : Timers c) (io : Io (Process c) H Interest Readiness)
    (streams : Streams (Process c) H) where
  -- The number of bytes is `n`, or the answer is a negated errno.
  abbrev pub Reports : Value → (ℕ → Type 0) → Type 0
  Reports v P =
      ((n : ℕ) × P n × (v ≡ ruby.integer (pos n)))
      ⊎ ((e : IoError) × (v ≡ ruby.integer (neg_ℕ (errno_of streams e))))

  answer-Reports :
      (P : ℕ → Type 0) (r : Result ℕ IoError) (v : Value) (s t : Process c)
      → answer ruby tokio timers io streams r s ≡ (done v, t)
      → ((n : ℕ) → r ≡ ok n → P n)
      → Reports v P
  answer-Reports P (ok n) v s t e p = inl (n, p n refl, sym (done-injective e))
  answer-Reports P (err x) v s t e p = inr (x, sym (done-injective e))

  -- A write that succeeds found a buffer of at least the minimum length, and reports an error number,
  -- or the length of the whole buffer, whatever the minimum is.
  pub write_future-amount :
      (r : RubyIo H) (buffer : Value) (minimum : ℕ) (s t : Process c) (v : Value)
      → write_future ruby tokio timers io streams r buffer minimum s ≡ (done v, t)
      → (bytes : List ℕ) × (before : Process c) × (after : Process c) × (as_slice streams.buffers
            buffer before
          ≡ (done bytes, after))
        × (minimum ≤ length bytes)
        × Reports v (λ n. n ≡ length bytes)
  unfolding write_future write_guarded
  write_future-amount r buffer minimum s t v e =
      let (g, u, _, under) =
        bind-eq-done (with_nonblock io r s)
          (λ g.
            finally (write_guarded ruby tokio timers io streams r buffer minimum) (guard_drop io g))
          e in
      let (w, body, _) =
        after-eq-done (write_guarded ruby tokio timers io streams r buffer minimum u)
          (guard_drop io g) under in
      let (bytes, x, sliced, rest) = bind-eq-done (as_slice streams.buffers buffer u) _ body in
      let (fits, write) =
        if-throw-done (ltb (length bytes) minimum)
          (new_base_error (cannot_write_more minimum (length bytes))) _ rest in
      let (result, y, was_written, answered) =
        bind-eq-done
          (write_at_least streams r.backing_io bytes
            (amount ruby tokio timers io streams minimum (length bytes)) x)
          _ write in
      (
        bytes,
        u,
        x,
        sliced,
        ground arith,
        answer-Reports (λ n. n ≡ length bytes) result v y w answered
            (λ n is.
              write_at_least-all streams r.backing_io bytes
                (amount ruby tokio timers io streams minimum (length bytes)) n x y
                (subst
                  (λ a.
                    write_at_least streams r.backing_io bytes
                      (amount ruby tokio timers io streams minimum (length bytes)) x
                    ≡ (done a, y))
                  is was_written)),
      )
