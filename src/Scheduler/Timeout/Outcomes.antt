-- ===== src/Scheduler/Timeout/Outcomes.antt =====
-- What a wait with a deadline gives (ext/shreduler/src/tokio_scheduler/timeout_after.rs).
use shredular.Base.{◌≡◌, ◌⊎◌, inl, inr, refl, none, some}
use shredular.Errors.{Value, new_timeout_error, Operation, timed_out}
use shredular.Async.{Outcome, done, fail, panic, dropped, starved, pure, attempt, kept, bind, ◌>>=◌}
use shredular.TimeoutDuration.{TimeoutDuration, into_std}
use shredular.Scheduler.{Carriers, Process, Block}
use shredular.Scheduler.Timeout.{
  Timers, deadline, with_timeout, with_timeout_no_raise, or_nil, or_timeout,
}

-- tokio's `timeout_at` gives either what the future gives, or nothing because the deadline came first;
-- the future is then dropped in whatever state of the process it has reached.
pub record TimersLaws {c : Carriers} (timers : Timers c) : Type 0 where
  pub in_time_or_late :
      (i : c.Instant) (f : Block c) (s : Process c)
      → (timers.timeout_at i f s ≡ (do r ← attempt f; pure (some r)) s)
        ⊎ ((t : Process c) × (timers.timeout_at i f s ≡ (done none, t)))

module _ {c : Carriers} (timers : Timers c) where
  in_time-or_timeout :
      (desc : Operation) (d : TimeoutDuration) (p : Outcome Value × Process c)
      → bind (bind (kept p) (λ r. pure (some r))) (or_timeout timers desc (into_std d)) ≡ p
  in_time-or_timeout desc d (done a, s) = refl
  in_time-or_timeout desc d (fail e, s) = refl
  in_time-or_timeout desc d (panic, s) = refl
  in_time-or_timeout desc d (dropped, s) = refl
  in_time-or_timeout desc d (starved, s) = refl

  in_time-or_nil :
      (nil : Value) (p : Outcome Value × Process c)
      → bind (bind (kept p) (λ r. pure (some r))) (or_nil timers nil) ≡ p
  in_time-or_nil nil (done a, s) = refl
  in_time-or_nil nil (fail e, s) = refl
  in_time-or_nil nil (panic, s) = refl
  in_time-or_nil nil (dropped, s) = refl
  in_time-or_nil nil (starved, s) = refl

  -- With a deadline that can be computed, and by what tokio documents of `timeout_at`, either
  -- both waits give exactly what the future gives, and leave the process as it does; or the
  -- deadline comes first, and one gives Timeout::Error with the name of the operation and the
  -- duration, the other nil.
  with_timeout_cases :
      (laws : TimersLaws timers) (desc : Operation) (nil : Value) (d : TimeoutDuration)
      (f : Block c) (s : Process c) (i : c.Instant)
      → timers.checked_add (timers.now s.outside) d.duration ≡ some i
      → ((with_timeout timers desc (some d) f s ≡ f s)
          × (with_timeout_no_raise timers nil (some d) f s ≡ f s))
        ⊎ ((t : Process c) × (timers.timeout_at i f s ≡ (done none, t))
            × (with_timeout timers desc (some d) f s
                ≡ (fail (new_timeout_error (timed_out desc d.duration.secs d.duration.nanos)), t))
            × (with_timeout_no_raise timers nil (some d) f s ≡ (done nil, t)))
  unfolding with_timeout with_timeout_no_raise deadline
  with_timeout_cases laws desc nil d f s i sum = elim (laws.in_time_or_late i f s) [
    | inl e ↦
        inl (rw (sum, e) (in_time-or_timeout desc d (f s)), rw (sum, e) (in_time-or_nil nil (f s)))
    | inr (t, e) ↦ inr (t, e, rw (sum, e), rw (sum, e))
  ]

  -- With a deadline past the range of the clock both waits panic, and the future is not polled.
  pub with_timeout_overflow :
      (desc : Operation) (nil : Value) (d : TimeoutDuration) (f : Block c) (s : Process c)
      → timers.checked_add (timers.now s.outside) d.duration ≡ none
      → (with_timeout timers desc (some d) f s ≡ (panic, s))
        × (with_timeout_no_raise timers nil (some d) f s ≡ (panic, s))
  unfolding with_timeout with_timeout_no_raise deadline
  with_timeout_overflow desc nil d f s sum = (rw sum, rw sum)
