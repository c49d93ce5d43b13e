-- ===== src/Scheduler/Interrupts.antt =====
-- ext/shreduler/src/thread.rs: the loop that asks Ruby for interrupts once a second.
use shredular.Base.{ℕ, zero, suc, ◌≢◌}
use shredular.Errors.{Value}
use shredular.Async.{Outcome, done, fail, panic, dropped, starved, M, bind, ◌>>◌}

module _ {S : Type 0} where
  abbrev pub checked : M S Value → Outcome (Unit {0}) × S → Outcome Value × S
  checked again (done x, s) = again s
  checked again (fail e, s) = (fail e, s)
  checked again (panic, s) = (panic, s)
  checked again (dropped, s) = (dropped, s)
  checked again (starved, s) = (starved, s)

-- `tick` waits for the interval, and `check_ints` is `rb_thread_check_ints` under `protect`.
module _ {S : Type 0} (tick : M S (Unit {0})) (check_ints : M S (Unit {0})) where
  -- At most so many turns of the loop.
  unfoldable pub check_interrupts : ℕ → M S Value
  check_interrupts zero = λ s. (starved, s)
  check_interrupts (suc n) = do tick; λ s. checked (check_interrupts n) (check_ints s)

  ends_checked :
      (again : M S Value) (v : Value)
      → ((t : S) → (again t).0 ≢ done v)
      → (r : Outcome (Unit {0}) × S) → (checked again r).0 ≢ done v
  ends_checked again v never (done x, t) = never t
  ends_checked again v never (fail e, t) = λ h. cc
  ends_checked again v never (panic, t) = λ h. cc
  ends_checked again v never (dropped, t) = λ h. cc
  ends_checked again v never (starved, t) = λ h. cc

  ends_bound :
      (again : M S Value) (v : Value)
      → ((t : S) → (again t).0 ≢ done v)
      → (r : Outcome (Unit {0}) × S) → (bind r (λ _. again)).0 ≢ done v
  ends_bound again v never (done x, t) = never t
  ends_bound again v never (fail e, t) = λ h. cc
  ends_bound again v never (panic, t) = λ h. cc
  ends_bound again v never (dropped, t) = λ h. cc
  ends_bound again v never (starved, t) = λ h. cc

  -- However many turns the loop takes, it does not end with a value.
  pub check_interrupts-ne-done : (n : ℕ) (s : S) (v : Value) → (check_interrupts n s).0 ≢ done v
  unfolding check_interrupts
  check_interrupts-ne-done zero s v = λ h. cc
  check_interrupts-ne-done (suc n) s v =
      let never : (t : S) → (check_interrupts n t).0 ≢ done v =
        λ t. check_interrupts-ne-done n t v in
      ends_bound (λ t. checked (check_interrupts n) (check_ints t)) v
        (λ t. ends_checked (check_interrupts n) v never (check_ints t)) (tick s)
