-- ===== src/Nilable.antt =====
-- ext/shreduler/src/nilable.rs: a converted argument, or nil.
use shredular.Base.{Bool, true, false, Option, none, some, if◌then◌else◌}
use shredular.Errors.{Error, Result, ok, err}

pub data Nilable (T : Type 0) : Type 0 where
  value : T → Nilable T
  nil : Nilable T

module _ {T : Type 0} where
  abbrev converted : Result T Error → Result (Nilable T) Error
  converted (ok t) = ok (value t)
  converted (err e) = err e

  -- `is_nil` and `convert` are what Ruby and `T` say of the value.
  unfoldable pub try_convert : Bool → Result T Error → Result (Nilable T) Error
  try_convert is_nil convert = if is_nil then ok nil else converted convert

  unfoldable pub into_option : Nilable T → Option T
  into_option (value t) = some t
  into_option nil = none

  unfoldable pub is_some : Nilable T → Bool
  is_some (value t) = true
  is_some nil = false

  unfoldable pub is_none : Nilable T → Bool
  is_none (value t) = false
  is_none nil = true
