-- ===== src/TimeoutDuration.antt =====
-- ext/shreduler/src/timeout_duration.rs: how long to wait, as a Ruby value and as a `Duration`.
use shredular.Base.{ℕ, ◌*◌, Bool, ◌&&◌, ◌==◌, if◌then◌else◌}
use shredular.Errors.{Value, Error, Result, ok, err}
use shredular.Async.{Outcome, done, fail, panic, dropped, starved}

-- `std::time::Duration`.
pub record Duration : Type 0 where
  pub secs : ℕ
  pub nanos : ℕ

pub record TimeoutDuration : Type 0 where
  pub duration : Duration

abbrev pub from_secs : ℕ → Duration
from_secs n = record { secs = n; nanos = 0 }

abbrev pub far_future_duration : Duration
far_future_duration = from_secs (86400 * 365 * 30)

unfoldable pub into_std : TimeoutDuration → Duration
into_std t = t.duration

abbrev eq_duration : Duration → Duration → Bool
eq_duration d e = d.secs == e.secs && d.nanos == e.nanos

unfoldable pub is_zero : TimeoutDuration → Bool
is_zero t = eq_duration t.duration (from_secs 0)

unfoldable pub far_future : TimeoutDuration
far_future = record { duration = far_future_duration }

-- What the conversion asks of Ruby: the class of the value, and its conversions to `u64` and `f64`.
-- `Float` is the type of `f64`; `from_secs_f64` has no result where the standard library panics.
pub record Numeric (Float : Type 0) : Type 0 where
  pub is_nil : Value → Bool
  pub is_integer : Value → Bool
  pub to_u64 : Value → Result ℕ Error
  pub to_f64 : Value → Result Float Error
  pub from_secs_f64 : Float → Outcome Duration

module _ {Float : Type 0} (num : Numeric Float) where
  open num use {is_nil, is_integer, to_u64, to_f64, from_secs_f64}

  abbrev or_fail : {A : Type 0} → Result A Error → (A → Outcome Duration) → Outcome Duration
  or_fail (ok a) k = k a
  or_fail (err e) k = fail e

  abbrev timeout : Outcome Duration → Outcome TimeoutDuration
  timeout (done d) = done (record { duration = d })
  timeout (fail e) = fail e
  timeout panic = panic
  timeout dropped = dropped
  timeout starved = starved

  unfoldable pub try_convert : Value → Outcome TimeoutDuration
  try_convert value = timeout (
      if is_nil value
      then done far_future_duration
      else if is_integer value
      then or_fail (to_u64 value) (λ n. done (from_secs n))
      else or_fail (to_f64 value) from_secs_f64)
