-- ===== src/Fiber.antt =====
-- ext/shreduler/src/fiber.rs: a Ruby fiber under a marker for the state that the program takes it to
-- be in.
pub mod Order
pub mod Checks
use shredular.Base.{Bool, not, List, [], ◌∷◌, ltb, ◌==◌, if◌then◌else◌, ℕ}
use Prim.Native.Nat.{compare, Ordering}
use shredular.Errors.{
  Value, Error, error, exception, jump, runtime_error, type_error, fiber_not_alive, fiber_active,
  not_a_fiber, Result, ok, err,
}
use shredular.Async.{M, pure, throw, ◌>>=◌}
use shredular.Ruby.{Ruby}

-- The marker types.
pub data State : Type 0 where
  running suspended terminated unknown : State

pub record Fiber (s : State) : Type 0 where
  pub raw : Value

-- Relabels a fiber without a check.
abbrev pub as_suspended : {s : State} → Fiber s → Fiber suspended
as_suspended f = record { raw = f.raw }

abbrev pub as_unknown : {s : State} → Fiber s → Fiber unknown
as_unknown f = record { raw = f.raw }

-- `IntoValue`.
abbrev pub into_value : {s : State} → Fiber s → Value
into_value f = f.raw

module _ {s : State} where
  -- `PartialEq`, `Ord` and `Hash` go by the raw value; `write` is the hasher.
  unfoldable pub eq : Fiber s → Fiber s → Bool
  eq f g = f.raw == g.raw

  unfoldable pub cmp : Fiber s → Fiber s → Ordering
  cmp f g = compare f.raw g.raw

  unfoldable pub hash : {H : Type 0} → (H → ℕ → H) → Fiber s → H → H
  hash write f h = write h f.raw

module _ {S : Type 0} (ruby : Ruby S) where
  open ruby use {
    q_true, class_value, rb_fiber_current, rb_fiber_alive_p, rb_obj_is_fiber, rb_fiber_yield,
    rb_fiber_resume, rb_fiber_transfer, rb_fiber_raise, string_new,
  }

  unfoldable pub current : S → Fiber running
  current s = record { raw = rb_fiber_current s }

  unfoldable pub is_current : {m : State} → Fiber m → S → Bool
  unfolding current
  is_current f s = (current s).raw == f.raw

  unfoldable pub is_alive : {m : State} → Fiber m → S → Bool
  is_alive f s = rb_fiber_alive_p s f.raw == q_true

  unfoldable pub check_suspended : Fiber unknown → S → Result (Fiber suspended) Error
  unfolding is_alive is_current
  check_suspended f s =
      if not (is_alive f s)
      then err (error runtime_error fiber_not_alive)
      else if is_current f s
      then err (error runtime_error fiber_active)
      else ok (as_suspended f)

  unfoldable pub from_value : Value → S → Result (Fiber unknown) Error
  from_value value s =
      if not (rb_obj_is_fiber s value == q_true)
      then err (error type_error not_a_fiber)
      else ok (record { raw = value })

  unfoldable pub suspend : Fiber running → List Value → M S (Fiber suspended)
  suspend f args = do fiber ← rb_fiber_yield args; pure (record { raw = fiber })

  unfoldable pub resume : Fiber suspended → List Value → M S Value
  resume f args = rb_fiber_resume f.raw args

  unfoldable pub transfer : Fiber suspended → List Value → M S Value
  transfer f args = rb_fiber_transfer f.raw args

  unfoldable pub transfer_running : Fiber running → List Value → M S Value
  transfer_running f args = rb_fiber_transfer f.raw args

  unfoldable pub raise : Fiber suspended → Error → M S Value
  raise f (error klass message) = do
    text ← string_new message
    rb_fiber_raise f.raw (class_value klass ∷ text ∷ [])
  raise f (exception e) = rb_fiber_raise f.raw (e ∷ [])
  raise f (jump t) = throw (jump t)
