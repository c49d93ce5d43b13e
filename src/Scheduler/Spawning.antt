-- ===== src/Scheduler/Spawning.antt =====
-- `spawn` of ext/shreduler/src/tokio_scheduler.rs, with the set free and with the set borrowed.
use native.Mathlib.Decide.{ℕ_discrete}
use shredular.Base.{◌≢◌, ◌⊎◌, inl, inr, ◌≡◌, [], ◌∷◌, ◌++◌, refl, arith}
use shredular.Errors.{error, runtime_error, fiber_active, poisoned_cell_error, already_borrowed}
use shredular.GcCell.Borrowing.{
  IsFree, IsHeld, with_value, held_with, try_borrow_mut_free, try_borrow_mut_held, drop-write,
}
use shredular.Async.{done, fail}
use shredular.Ruby.{Ruby}
use shredular.Fiber.{check_suspended, transfer}
use shredular.Scheduler.{
  Carriers, Process, Block, Task, Tokio, TokioLaws, set_futures, spawn, spawn_into,
  spawn_and_transfer,
}

module _ {c : Carriers} (ruby : Ruby (Process c)) (tokio : Tokio c) where
  abbrev pub new_task : Block c → Process c → Task c
  new_task future s = record {
    future = tokio.box_pin future;
    fiber = record { raw = ruby.rb_fiber_current s };
  }

  pub spawn-eq :
      (future : Block c) (s : Process c)
      → IsFree s.futures_to_run
      → spawn ruby tokio future s ≡ (
          let (handle, js) = tokio.spawn_task s.futures_to_run.value (new_task future s) in
          (done handle, set_futures (with_value js) s))
  unfolding spawn
  spawn-eq future s f =
      rw (try_borrow_mut_free s.futures_to_run f, spawn_into)
        (rw (
          drop-write (held_with s.futures_to_run.value)
            (tokio.spawn_task s.futures_to_run.value (new_task future s)).1 (omega arith)))

  -- With no guard alive on the set, and by what tokio documents of `JoinSet::spawn`, `spawn` adds
  -- one task at the end of the set, which is the future under the fiber that runs now, and frees
  -- the set again; the handle is that of `JoinSet::spawn`, and the root fiber, the runtime, the
  -- blockers and all outside the scheduler stay as they were.
  pub spawn-IsFree :
      (laws : TokioLaws tokio) (future : Block c) (s : Process c)
      → IsFree s.futures_to_run
      → let t = (spawn ruby tokio future s).1 in
        ((spawn ruby tokio future s).0
          ≡ done (tokio.spawn_task s.futures_to_run.value (new_task future s)).0)
        × (tokio.tasks t.futures_to_run.value
            ≡ tokio.tasks s.futures_to_run.value ++ new_task future s ∷ [])
        × IsFree t.futures_to_run
        × (t.root_fiber ≡ s.root_fiber)
        × (t.runtime ≡ s.runtime)
        × (t.blockers ≡ s.blockers)
        × (t.outside ≡ s.outside)
  unfolding spawn
  spawn-IsFree laws future s f = rw (spawn-eq future s f) (
    refl,
    laws.tasks-spawn_task s.futures_to_run.value (new_task future s),
    omega arith,
    refl,
    refl,
    refl,
    refl,
  )

  -- While the set is borrowed mutably, `spawn` is refused and changes nothing.
  pub spawn_held :
      (future : Block c) (s : Process c)
      → IsHeld s.futures_to_run
      → spawn ruby tokio future s ≡ (fail (error poisoned_cell_error already_borrowed), s)
  unfolding spawn
  spawn_held future s h = rw (try_borrow_mut_held s.futures_to_run h, spawn_into)

  -- The process with the future in the set.
  abbrev pub with_task : Block c → Process c → Process c
  with_task future s =
      set_futures (with_value (tokio.spawn_task s.futures_to_run.value (new_task future s)).1) s

  -- With the set free and the root fiber alive, `spawn_and_transfer` puts the future into the set and
  -- transfers to the root fiber; if the root fiber is the one that runs, it ends in "fiber active"
  -- instead, with the future left in the set.
  pub spawn_and_transfer_lem :
      (future : Block c) (s : Process c)
      → IsFree s.futures_to_run
      → ruby.rb_fiber_alive_p (with_task future s) s.root_fiber.raw ≡ ruby.q_true
      → ((ruby.rb_fiber_current (with_task future s) ≢ s.root_fiber.raw)
          × (spawn_and_transfer ruby tokio future s
              ≡ ruby.rb_fiber_transfer s.root_fiber.raw [] (with_task future s)))
        ⊎ ((ruby.rb_fiber_current (with_task future s) ≡ s.root_fiber.raw)
            × (spawn_and_transfer ruby tokio future s
                ≡ (fail (error runtime_error fiber_active), with_task future s)))
  unfolding spawn_and_transfer check_suspended transfer
  spawn_and_transfer_lem future s f alive =
      elim (ℕ_discrete (ruby.rb_fiber_current (with_task future s)) s.root_fiber.raw) [
        | yes active ↦ inr (active, rw (spawn-eq future s f) (ground arith))
        | no away ↦ inl (away, rw (spawn-eq future s f) (ground arith))
      ]
