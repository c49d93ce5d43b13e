-- ===== src/Scheduler/ProcessWait/Never.antt =====
-- Waits of ext/shreduler/src/tokio_scheduler/process_wait.rs that cannot end.
use shredular.Base.{
  ℕ, zero, suc, ◌≤◌, ◌<◌, ◌≡◌, ◌⊎◌, inl, inr, refl, Bool, true, false, Option, none, some, arith,
  i32_min, i32_minus_one,
}
use shredular.Errors.{Value, Error, new_base_error, invalid_pid, invalid_wait_flags}
use shredular.Async.{done, fail, M, ◌>>=◌}
use shredular.FiberFuture.{Poll, pending}
use shredular.Scheduler.ProcessWait.{Wait, wait_target, try_wait, turn, poll, or_invalid, report}

-- The numbers that stand for a process group other than the caller's.
abbrev pub IsGroup : ℕ → Type 0
IsGroup raw_pid = (i32_min ≤ raw_pid) × (raw_pid < i32_minus_one)

module _ {S : Type 0} (wait : Wait S) where
  wait_target_group :
      (raw_pid : ℕ)
      → IsGroup raw_pid
      → wait_target wait raw_pid ≡ fail (new_base_error (invalid_pid raw_pid))
  unfolding wait_target
  wait_target_group raw_pid g = ground arith

  -- Flags that rustix does not know, or the pid of a group, make `try_wait` fail before it asks the
  -- kernel.
  try_wait_fails :
      (raw_pid flags : ℕ) (s : S)
      → (wait.from_bits flags ≡ none) ⊎ IsGroup raw_pid
      → (e : Error) × (try_wait wait raw_pid flags s ≡ (fail e, s))
  unfolding try_wait
  try_wait_fails raw_pid flags s (inl bad) = (new_base_error (invalid_wait_flags flags), rw bad)
  try_wait_fails raw_pid flags s (inr group) = by_flags (wait.from_bits flags)
    where
      by_flags :
          (options : Option wait.Options)
          → (e : Error) × ((do
            o ← or_invalid wait flags options
            pid ← λ (t : S). (wait_target wait raw_pid, t)
            result ← wait.waitpid pid o
            report wait raw_pid result)
                s
              ≡ (fail e, s))
      by_flags none = (new_base_error (invalid_wait_flags flags), refl)
      by_flags (some o) =
          (new_base_error (invalid_pid raw_pid), rw (wait_target_group raw_pid group))

  turn_failed :
      (again : M S (Poll Value)) (b : Bool) (e : Error) (s : S)
      → (b ≡ false → (again s).0 ≡ done pending)
      → (turn wait again b (fail e, s)).0 ≡ done pending
  turn_failed again true e s h = refl
  turn_failed again false e s h = h refl

  -- If each delivered signal lowers a measure of the signals that are left, then for such flags or pids
  -- a poll ends within one turn more than the measure, and is pending, whatever the children of the
  -- process do: the error is never given to the fiber that waits.
  pub poll_stays_pending :
      (left : S → ℕ) (raw_pid flags : ℕ)
      → ((s : S) → (wait.poll_recv s).0 ≡ false → left (wait.poll_recv s).1 < left s)
      → (wait.from_bits flags ≡ none) ⊎ IsGroup raw_pid
      → (n : ℕ) (s : S) → left s < n
      → (poll wait n raw_pid flags s).0 ≡ done pending
  unfolding poll
  poll_stays_pending left raw_pid flags falls bad zero s h = absurd (omega arith)
  poll_stays_pending left raw_pid flags falls bad (suc n) s h =
      let (e, fails) = try_wait_fails raw_pid flags (wait.poll_recv s).1 bad in
      rw fails (
        turn_failed (poll wait n raw_pid flags) (wait.poll_recv s).0 e (wait.poll_recv s).1
          (λ delivered.
            poll_stays_pending left raw_pid flags falls bad n (wait.poll_recv s).1
              (omega (arith, falls s delivered))))
