-- ===== src/Scheduler/IoWait/Interests.antt =====
-- What `io_wait` of ext/shreduler/src/tokio_scheduler/io_wait.rs waits for, and what it answers.
use shredular.Base.{ℕ, ◌≡◌, ◌⊎◌, sym, true, false, pos, arith}
use shredular.Errors.{Value, new_base_error, priority_not_valid, ok, err}
use shredular.Async.{done, finally}
use shredular.Async.Rules.{bind-eq-done, after-eq-done, done-injective}
use shredular.Ruby.{Ruby}
use shredular.RubyIo.{Io, RubyIo, with_nonblock, guard_drop, ruby_ready}
use shredular.Scheduler.{Carriers, Process, Tokio}
use shredular.Scheduler.Timeout.{Timers}
use shredular.Scheduler.IoWait.{Events, try_from, wait_guarded, wait_future, or_not_ready}

module _ {S H Interest Readiness : Type 0} (events : Events) (io : Io S H Interest Readiness) where
  -- Bits with PRIORITY are refused; any other bits with READABLE give the interest READABLE alone, also
  -- if they contain WRITABLE too; and all that are left give WRITABLE, also if they are empty.
  pub try_from_lem :
      (bits : ℕ)
      → ((events.contains bits events.priority ≡ true)
          × (try_from events io bits ≡ err (new_base_error priority_not_valid)))
        ⊎ ((events.contains bits events.priority ≡ false)
            × (events.contains bits events.readable ≡ true)
            × (try_from events io bits ≡ ok io.readable))
        ⊎ ((events.contains bits events.priority ≡ false)
            × (events.contains bits events.readable ≡ false)
            × (try_from events io bits ≡ ok io.writable))
  unfolding try_from
  try_from_lem bits = ground arith

module _ {c : Carriers} {H Interest Readiness : Type 0} (ruby : Ruby (Process c)) (tokio : Tokio c)
    (timers : Timers c) (events : Events) (io : Io (Process c) H Interest Readiness) where
  wait_guarded_answer :
      (r : RubyIo H) (interests : Interest) (s t : Process c) (v : Value)
      → wait_guarded ruby tokio timers events io r interests s ≡ (done v, t)
      → v ≡ ruby.integer (pos events.readable)
  unfolding wait_guarded
  wait_guarded_answer r interests s t v e =
      let (_, _, _, answered) =
        bind-eq-done (or_not_ready ruby tokio timers events io (ruby_ready io r interests s)) _ e in
      sym (done-injective answered)

  -- Whatever was waited for, a wait that succeeds answers with the bit of READABLE.
  pub wait_future_answer :
      (r : RubyIo H) (interests : Interest) (s t : Process c) (v : Value)
      → wait_future ruby tokio timers events io r interests s ≡ (done v, t)
      → v ≡ ruby.integer (pos events.readable)
  unfolding wait_future
  wait_future_answer r interests s t v e =
      let (g, u, _, guarded) =
        bind-eq-done (with_nonblock io r s)
          (λ g. finally (wait_guarded ruby tokio timers events io r interests) (guard_drop io g))
          e in
      let (w, answered, _) =
        after-eq-done (wait_guarded ruby tokio timers events io r interests u) (guard_drop io g)
          guarded in
      wait_guarded_answer r interests u w v answered
