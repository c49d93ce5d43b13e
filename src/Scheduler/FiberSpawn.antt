-- ===== src/Scheduler/FiberSpawn.antt =====
-- ext/shreduler/src/tokio_scheduler/fiber_spawn.rs: running a block in a fiber of its own.
use Prim.Native.String.{String}
use shredular.Base.{Bool, List, [], ◌∷◌, ◌≡◌, ◌≢◌, if◌then◌else◌}
use shredular.Errors.{Value, Error, Result, ok, err}
use shredular.Async.{Outcome, done, fail, M, pure, reads, checks, attempt, ◌>>=◌, ◌>>◌}
use shredular.Intern.{Interning, fiber_class_place, marked_const}
use shredular.Ruby.{Ruby}
use shredular.Fiber.{
  Fiber, unknown, suspended, eq, current, as_unknown, check_suspended, transfer, raise, into_value,
}
use shredular.Fiber.Checks.{check_suspended_ok}
use shredular.Scheduler.{Carriers, Process}

-- A Ruby `Proc`, called with its arguments.
abbrev pub Proc : Carriers → Type 0
Proc c = List Value → M (Process c) Value

-- What `Fiber::new_nonblocking` calls: `memoize!`, hashes, symbols, false, and a method called with a
-- block.
pub record FiberClass (S : Type 0) : Type 0 where
  pub interning : Interning S
  pub hash_new : M S Value
  pub aset : Value → Value → Value → M S (Unit {0})
  pub symbol : String → Value
  pub q_false : Value
  pub funcall_with_block : Value → String → Value → (List Value → M S Value) → M S Value

module _ {S : Type 0} (calls : FiberClass S) where
  open calls use {interning, hash_new, aset, symbol, q_false, funcall_with_block}

  unfoldable pub fiber_class : M S Value
  fiber_class = interning.memoize fiber_class_place (marked_const interning "Fiber")

  -- The call of `Fiber.new` in `new_nonblocking`.
  unfoldable pub fiber_new_nonblocking : (List Value → M S Value) → M S Value
  fiber_new_nonblocking block = do
    kwargs ← hash_new
    aset kwargs (symbol "blocking") q_false
    klass ← fiber_class
    funcall_with_block klass "new" kwargs block

-- `fiber_new` is `Fiber.new(blocking: false)` with a block.
module _ {c : Carriers} (ruby : Ruby (Process c)) (fiber_new : Proc c → M (Process c) Value) where
  unfoldable pub is_current_fiber_root : Process c → Bool
  unfolding eq current
  is_current_fiber_root s = eq s.root_fiber (as_unknown (current ruby s))

  abbrev pub give_back : Fiber suspended → Result Value Error → M (Process c) Value
  give_back f (ok v) = transfer ruby f (v ∷ [])
  give_back f (err e) = raise ruby f e

  -- The block that `Proc::from_fn` makes.
  unfoldable pub wrapped : Fiber unknown → Proc c → Proc c
  wrapped transfer_back_to block args = do
    result ← attempt (block args)
    back ← checks (check_suspended ruby transfer_back_to)
    give_back back result

  unfoldable pub new_nonblocking : Proc c → M (Process c) (Fiber suspended)
  new_nonblocking block = do fiber ← fiber_new block; pure (record { raw = fiber })

  unfoldable pub fiber_impl : Proc c → M (Process c) Value
  fiber_impl block = do
    transfer_back_to ← reads (λ s. as_unknown (current ruby s))
    is_root ← reads is_current_fiber_root
    fiber ← new_nonblocking (if is_root then block else wrapped transfer_back_to block)
    returned ← transfer ruby fiber []
    pure (into_value fiber)

  abbrev pub outcome : Result Value Error → Outcome Value
  outcome (ok v) = done v
  outcome (err e) = fail e

  -- When the block of a fiber that another fiber made ends, with a value or with an error, control and
  -- that result go to the maker, if it is alive and does not run.
  pub wrapped_gives_back :
      (maker : Fiber unknown) (block : Proc c) (args : List Value) (s t : Process c)
      (result : Result Value Error)
      → block args s ≡ (outcome result, t)
      → ruby.rb_fiber_alive_p t maker.raw ≡ ruby.q_true
      → ruby.rb_fiber_current t ≢ maker.raw
      → wrapped maker block args s ≡ give_back (record { raw = maker.raw }) result t
  unfolding wrapped
  wrapped_gives_back maker block args s t (ok v) ends alive other =
      rw (ends, check_suspended_ok ruby maker t alive other)
  wrapped_gives_back maker block args s t (err e) ends alive other =
      rw (ends, check_suspended_ok ruby maker t alive other)
