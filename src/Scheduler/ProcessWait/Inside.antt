-- ===== src/Scheduler/ProcessWait/Inside.antt =====
-- Where a wait of ext/shreduler/src/tokio_scheduler/process_wait.rs takes place.
use shredular.Base.{
  ℕ, zero, suc, ◌≡◌, ◌≢◌, refl, ap, subst, ◌∙◌, i32_minus_one, Bool, false, Option, none, some,
}
use shredular.Errors.{Value, Error, Result, ok, err}
use shredular.Async.{Outcome, done, fail, panic, dropped, starved, M, pure, ◌>>=◌}
use shredular.Async.Rules.{bind-eq-done}
use shredular.FiberFuture.{Poll, pending}
use shredular.Scheduler.ProcessWait.{
  Wait, wait_target, try_wait, turn, poll, status_new, or_invalid, report,
}

-- POSIX: without WNOHANG, `waitpid` comes back when a child has ended, or with an error.
pub record WaitpidLaws {S : Type 0} (wait : Wait S) (no_hang : wait.Options → Bool) : Type 0 where
  pub comes_back :
      (pid : Option wait.Pid) (o : wait.Options) (s t : S)
      → no_hang o ≡ false
      → wait.waitpid pid o s ≢ (done (ok none), t)

module _ {S : Type 0} (wait : Wait S) (no_hang : wait.Options → Bool)
    (laws : WaitpidLaws wait no_hang) where
  -- What was reported with nothing more to wait for had nothing to report.
  report-none :
      (raw_pid : ℕ) (r : Result (Option ℕ) ℕ) (s t : S)
      → report wait raw_pid r s ≡ (done none, t)
      → r ≡ ok none
  report-none raw_pid (ok none) s t e = refl
  report-none raw_pid (ok (some x)) s t e =
      let (v, u, made, given) =
        bind-eq-done (status_new wait raw_pid x 0 s) (λ v. pure (some v)) e in
      cc
  report-none raw_pid (err x) s t e =
      let (v, u, made, given) =
        bind-eq-done (status_new wait i32_minus_one 0 x s) (λ v. pure (some v)) e in
      cc

  -- The rest of `try_wait`, after the flags.
  abbrev after_flags : ℕ → wait.Options → M S (Option Value)
  after_flags raw_pid options = do
    pid ← λ s. (wait_target wait raw_pid, s)
    result ← wait.waitpid pid options
    report wait raw_pid result

  try_wait-ne-none :
      (raw_pid flags : ℕ) (o : wait.Options) (s t : S)
      → wait.from_bits flags ≡ some o
      → no_hang o ≡ false
      → try_wait wait raw_pid flags s ≢ (done none, t)
  unfolding try_wait
  try_wait-ne-none raw_pid flags o s t known hangs e =
      let asked : after_flags raw_pid o s ≡ (done none, t) =
        subst
          (λ (x : Option wait.Options).
            (do options ← or_invalid wait flags x; after_flags raw_pid options) s ≡ (done none, t))
          known e in
      let (pid, u, targeted, rest) =
        bind-eq-done (wait_target wait raw_pid, s)
          (λ pid. do result ← wait.waitpid pid o; report wait raw_pid result) asked in
      let (r, v, waited, reported) =
        bind-eq-done (wait.waitpid pid o u) (report wait raw_pid) rest in
      laws.comes_back pid o u v hangs
        (waited ∙ ap (λ x. (done x, v)) (report-none raw_pid r v t reported))

  -- Some run of `try_wait` has ended in an error.
  abbrev pub Failed : ℕ → ℕ → Type 0
  Failed raw_pid flags =
      (e : Error) × (s : S) × (t : S) × (try_wait wait raw_pid flags s ≡ (fail e, t))

  turn-pending :
      (raw_pid flags : ℕ) (again : M S (Poll Value)) (b : Bool) (p : Outcome (Option Value) × S)
      (s t : S)
      → try_wait wait raw_pid flags s ≡ p
      → p ≢ (done none, p.1)
      → ((u : S) → again u ≡ (done pending, t) → Failed raw_pid flags)
      → turn wait again b p ≡ (done pending, t)
      → Failed raw_pid flags
  turn-pending raw_pid flags again b (done (some v), u) s t is ne later e = cc
  turn-pending raw_pid flags again b (done none, u) s t is ne later e = absurd (ne refl)
  turn-pending raw_pid flags again b (fail x, u) s t is ne later e = (x, s, u, is)
  turn-pending raw_pid flags again b (panic, u) s t is ne later e = cc
  turn-pending raw_pid flags again b (dropped, u) s t is ne later e = cc
  turn-pending raw_pid flags again b (starved, u) s t is ne later e = cc

  -- By what POSIX says of `waitpid`, with flags without WNOHANG, as `Process.wait` passes them, a poll of
  -- a process wait is pending only if `try_wait` ended in an error: while the child runs, the wait takes
  -- place inside the poll, on the thread that drives all other fibers.
  poll-pending :
      (n raw_pid flags : ℕ) (o : wait.Options) (s t : S)
      → wait.from_bits flags ≡ some o
      → no_hang o ≡ false
      → poll wait n raw_pid flags s ≡ (done pending, t)
      → Failed raw_pid flags
  unfolding poll
  poll-pending zero raw_pid flags o s t known hangs e = cc
  poll-pending (suc n) raw_pid flags o s t known hangs e =
      let u : S = (wait.poll_recv s).1 in
      turn-pending raw_pid flags (poll wait n raw_pid flags) (wait.poll_recv s).0
        (try_wait wait raw_pid flags u) u t refl
        (try_wait-ne-none raw_pid flags o u (try_wait wait raw_pid flags u).1 known hangs)
        (λ v. poll-pending n raw_pid flags o v t known hangs) e
