-- ===== src/Scheduler/ProcessWait/Target.antt =====
-- Which process `try_wait` of ext/shreduler/src/tokio_scheduler/process_wait.rs waits for.
use shredular.Base.{ℕ, ◌≤◌, ◌<◌, ◌≡◌, ◌≢◌, ◌⊎◌, none, arith, i32_min, i32_mod, i32_minus_one}
use shredular.Errors.{new_base_error, invalid_pid}
use shredular.Async.{done, fail}
use shredular.Scheduler.ProcessWait.{Wait, wait_target, raw_pid_max, unwrapped}

module _ {S : Type 0} (wait : Wait S) where
  -- Zero waits for the group of the caller, a positive pid for that process, and -1 for the process
  -- with the greatest pid that there can be. Every other negative number is refused.
  pub wait_target_lem :
      (raw_pid : ℕ)
      → raw_pid < i32_mod
      → ((raw_pid ≡ 0) × (wait_target wait raw_pid ≡ done none))
        ⊎ ((0 < raw_pid)
            × (raw_pid < i32_min)
            × (wait_target wait raw_pid ≡ unwrapped wait (wait.from_raw raw_pid)))
        ⊎ ((raw_pid ≡ i32_minus_one)
            × (wait_target wait raw_pid ≡ unwrapped wait (wait.from_raw raw_pid_max)))
        ⊎ ((i32_min ≤ raw_pid)
            × (raw_pid ≢ i32_minus_one)
            × (wait_target wait raw_pid ≡ fail (new_base_error (invalid_pid raw_pid))))
  unfolding wait_target
  wait_target_lem raw_pid b = ground arith
