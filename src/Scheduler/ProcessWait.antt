-- ===== src/Scheduler/ProcessWait.antt =====
-- ext/shreduler/src/tokio_scheduler/process_wait.rs: waiting for a child process.
pub mod Target
pub mod Never
pub mod Inside
use shredular.Base.{
  ℕ, zero, suc, Bool, true, false, Option, none, some, ◌==◌, if◌then◌else◌, i32_min, i32_minus_one,
  i32_wrapping_neg, i32_lt,
}
use shredular.Errors.{
  Value, Error, Result, ok, err, new_base_error, invalid_pid, invalid_wait_flags,
  failed_signal_watcher,
}
use shredular.Async.{
  Outcome, done, fail, panic, dropped, starved, M, pure, throw, panics, modify, ◌>>=◌, ◌>>◌,
}
use shredular.Ruby.{Ruby}
use shredular.FiberFuture.{Poll, ready, pending}
use shredular.Scheduler.{Carriers, Process, Block, Tokio, spawn_and_transfer}

-- The data that a `Process::Status` is given.
pub record RbProcessStatus : Type 0 where
  pub pid : ℕ
  pub status : ℕ
  pub error : ℕ

-- Its stream of signals is in the state.
pub record PidWaiter : Type 0 where
  pub pid : ℕ
  pub flags : ℕ

-- rustix, tokio's signal stream, and Ruby's allocation; the words are 32-bit patterns. `from_raw` has
-- no result for a number that is no pid. `waitpid` gives an errno, nothing if no child has ended, or
-- the raw status of one that has. `signal_child` makes the stream of SIGCHLD, and `poll_recv` says
-- whether it is pending. `await_poll` polls to the end.
pub record Wait (S : Type 0) : Type 1 where
  pub Pid : Type 0
  pub Options : Type 0
  pub from_raw : ℕ → Option Pid
  pub from_bits : ℕ → Option Options
  pub waitpid : Option Pid → Options → M S (Result (Option ℕ) ℕ)
  pub signal_child : M S (Result (Unit {0}) (Unit {0}))
  pub poll_recv : S → Bool × S
  pub allocate : M S Value
  pub is_typed_data : Value → Bool
  pub xmalloc : M S (Unit {0})
  pub set_data : Value → RbProcessStatus → S → S
  pub await_poll : M S (Poll Value) → M S Value

-- `RawPid::MAX`.
abbrev pub raw_pid_max : ℕ
raw_pid_max = 0x7fff_ffff

module _ {S : Type 0} (wait : Wait S) where
  open wait use {
    Pid, Options, from_raw, from_bits, waitpid, poll_recv, allocate, is_typed_data, xmalloc,
    set_data,
  }

  -- `Some(Pid::from_raw(n).unwrap())`
  abbrev pub unwrapped : Option Pid → Outcome (Option Pid)
  unwrapped (some p) = done (some p)
  unwrapped none = panic

  -- The `let pid = ..` of `try_wait`.
  unfoldable pub wait_target : ℕ → Outcome (Option Pid)
  wait_target raw_pid =
      if raw_pid == 0
      then done none
      else if raw_pid == i32_minus_one
      then unwrapped (from_raw raw_pid_max)
      else if i32_lt (i32_wrapping_neg raw_pid) raw_pid
      then unwrapped (from_raw raw_pid)
      else if i32_lt 0 raw_pid
      then unwrapped (from_raw raw_pid)
      else fail (new_base_error (invalid_pid raw_pid))

  abbrev pub or_unwrap : Bool → M S (Unit {0})
  or_unwrap true = pure tt
  or_unwrap false = panics

  -- `ProcessStatus::new`, with `build_struct_data`.
  unfoldable pub status_new : ℕ → ℕ → ℕ → M S Value
  status_new pid status error = do
    allocated ← allocate
    or_unwrap (is_typed_data allocated)
    xmalloc
    modify (set_data allocated (record { pid = pid; status = status; error = error }))
    pure allocated

  abbrev pub some_value : M S Value → M S (Option Value)
  some_value m = do v ← m; pure (some v)

  -- The `match waitpid(pid, options)`. `raw_pid` is the number that was asked for.
  abbrev pub report : ℕ → Result (Option ℕ) ℕ → M S (Option Value)
  report raw_pid (ok none) = pure none
  report raw_pid (err errno) = some_value (status_new i32_minus_one 0 errno)
  report raw_pid (ok (some s)) = some_value (status_new raw_pid s 0)

  abbrev pub or_invalid : ℕ → Option Options → M S Options
  or_invalid flags (some options) = pure options
  or_invalid flags none = throw (new_base_error (invalid_wait_flags flags))

  unfoldable pub try_wait : ℕ → ℕ → M S (Option Value)
  try_wait raw_pid flags = do
    options ← or_invalid flags (from_bits flags)
    pid ← λ s. (wait_target raw_pid, s)
    result ← waitpid pid options
    report raw_pid result

  -- `PidWaiter::new`, and its error.
  abbrev pub or_no_signal : Result (Unit {0}) (Unit {0}) → M S (Unit {0})
  or_no_signal (ok x) = pure x
  or_no_signal (err e) = throw (new_base_error failed_signal_watcher)

  unfoldable pub waiter_new : ℕ → ℕ → M S PidWaiter
  waiter_new pid flags = do
    signal ← wait.signal_child
    or_no_signal signal
    pure (record { pid = pid; flags = flags })

  -- `PidWaiter::poll`, for at most so many turns of its loop. An error of `try_wait` is logged.
  abbrev pub turn : M S (Poll Value) → Bool → Outcome (Option Value) × S → Outcome (Poll Value) × S
  turn again registered (done (some status), s) = (done (ready status), s)
  turn again true (done none, s) = (done pending, s)
  turn again false (done none, s) = again s
  turn again true (fail e, s) = (done pending, s)
  turn again false (fail e, s) = again s
  turn again registered (panic, s) = (panic, s)
  turn again registered (dropped, s) = (dropped, s)
  turn again registered (starved, s) = (starved, s)

  unfoldable pub poll : ℕ → ℕ → ℕ → M S (Poll Value)
  poll zero pid flags s = (starved, s)
  poll (suc n) pid flags s =
      let (registered_interest, t) = poll_recv s in
      turn (poll n pid flags) registered_interest (try_wait pid flags t)

-- `process_wait`, with `n` turns for each poll.
unfoldable pub process_wait :
    {c : Carriers} → Ruby (Process c) → Tokio c → Wait (Process c) → ℕ → ℕ → ℕ → Block c
process_wait ruby tokio wait n pid flags =
    spawn_and_transfer ruby tokio
      do waiter ← waiter_new wait pid flags; wait.await_poll (poll wait n waiter.pid waiter.flags)
