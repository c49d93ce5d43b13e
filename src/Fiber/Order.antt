-- ===== src/Fiber/Order.antt =====
-- The contracts of `Eq`, `Ord` and `Hash`, which a `HashMap` keyed by fibers relies on.
use Prim.Native.Nat.{Ordering}
use shredular.Base.{ℕ, true, false, ◌⊎◌, ◌≡◌, ◌↔◌, arith}
use shredular.Fiber.{State, Fiber, eq, cmp, hash}

-- Equality tells fibers apart exactly as identity does, `cmp` says `Equal` exactly then, and `Less`
-- one way round exactly when it says `Greater` the other way; equal fibers are hashed alike.
pub eq-cmp-hash :
    {H : Type 0} (write : H → ℕ → H) (h : H) (s : State) (f g : Fiber s)
    → ((eq f g ≡ true) ↔ (f ≡ g))
      × ((eq f g ≡ true) ↔ (cmp f g ≡ Ordering.eq))
      × ((cmp f g ≡ Ordering.lt) ↔ (cmp g f ≡ Ordering.gt))
      × ((eq f g ≡ false) ⊎ (hash write f h ≡ hash write g h))
unfolding eq cmp hash
eq-cmp-hash write h s f g = (
  (λ e. ground arith, λ e. ground arith),
  (λ e. ground arith, λ e. ground arith),
  (λ e. ground arith, λ e. ground arith),
  ground arith,
)
