-- ===== src/Scheduler/BlockUnblock/Wakes.antt =====
-- `unblock` of ext/shreduler/src/tokio_scheduler/block_unblock.rs.
use shredular.Base.{some, refl, arith, ap, ◌∙◌, ◌≡◌, ◌≢◌, ◌⊎◌, none, if◌then◌else◌}
use shredular.Errors.{
  Value, error, runtime_error, type_error, not_a_fiber, fiber_not_alive, fiber_active,
}
use shredular.GcCell.Borrowing.{IsFree, with_value, held_with, try_borrow_mut_free, drop-write}
use shredular.Async.{Outcome, done, fail}
use shredular.Ruby.{Ruby}
use shredular.Fiber.{Fiber, suspended, eq, from_value, check_suspended}
use shredular.Fiber.Checks.{check_suspended_ok, from_value_ok}
use shredular.HashMap.{FiberMap, get, insert, remove, get-insert, get-remove, get-remove_ne}
use shredular.Scheduler.{Carriers, Process, Tokio, set_blockers}
use shredular.Scheduler.Timeout.{Timers}
use shredular.Scheduler.BlockUnblock.{
  Oneshot, change_cell, change_blockers, insert_blocker, remove_blocker, wake, unblock,
}

module _ {c : Carriers} where
  change_blockers-eq :
      (f : FiberMap c.Sender → FiberMap c.Sender) (s : Process c)
      → IsFree s.blockers
      → change_blockers f s
        ≡ (done s.blockers.value, set_blockers (with_value (f s.blockers.value)) s)
  unfolding change_blockers change_cell
  change_blockers-eq f s free =
      rw (try_borrow_mut_free s.blockers free, change_cell)
        (rw (drop-write (held_with s.blockers.value) (f s.blockers.value) (omega arith)))

  -- The process with the entry of a fiber taken out of the blockers.
  abbrev pub without : Fiber suspended → Process c → Process c
  without k s = set_blockers (with_value (remove k s.blockers.value)) s

  pub remove_blocker-eq :
      (k : Fiber suspended) (s : Process c)
      → IsFree s.blockers
      → remove_blocker k s ≡ (done (get k s.blockers.value), without k s)
  unfolding remove_blocker
  remove_blocker-eq k s free = rw (change_blockers-eq (remove k) s free)

  pub insert_blocker-eq :
      (k : Fiber suspended) (tx : c.Sender) (s : Process c)
      → IsFree s.blockers
      → insert_blocker k tx s
        ≡ (done tt, set_blockers (with_value (insert k tx s.blockers.value)) s)
  unfolding insert_blocker
  insert_blocker-eq k tx s free = rw (change_blockers-eq (insert k tx) s free)

module _ {c : Carriers} (ruby : Ruby (Process c)) (tokio : Tokio c) (timers : Timers c)
    (oneshot : Oneshot c) where
  -- For a value that is a fiber, alive and not current, with the blockers free, `unblock` takes the
  -- entry of that fiber out of the blockers, and no other, and sends `true` to the sender that it held;
  -- it does nothing more if there was none.
  pub unblock_lem :
      (v : Value) (s : Process c) (j : Fiber suspended)
      → ruby.rb_obj_is_fiber s v ≡ ruby.q_true
      → ruby.rb_fiber_alive_p s v ≡ ruby.q_true
      → ruby.rb_fiber_current s ≢ v
      → IsFree s.blockers
      → (unblock ruby tokio timers oneshot v s
          ≡ wake ruby tokio timers oneshot
              (get (record { raw = v }) s.blockers.value)
              (without (record { raw = v }) s))
        × (get j (without (record { raw = v }) s).blockers.value
            ≡ (if eq (record { raw = v }) j then none else get j s.blockers.value))
  unfolding unblock
  unblock_lem v s j fiber alive other free = (
    rw (
      from_value_ok ruby v s fiber,
      check_suspended_ok ruby (record { raw = v }) s alive other,
      remove_blocker-eq (record { raw = v }) s free,
    ),
    get-remove (record { raw = v }) j s.blockers.value,
  )

  -- Any other value is refused, with the process unchanged.
  pub unblock_refused :
      (v : Value) (s : Process c)
      → (ruby.rb_obj_is_fiber s v ≢ ruby.q_true)
        ⊎ (ruby.rb_fiber_alive_p s v ≢ ruby.q_true)
        ⊎ (ruby.rb_fiber_current s ≡ v)
      → (unblock ruby tokio timers oneshot v s ≡ (fail (error type_error not_a_fiber), s))
        ⊎ (unblock ruby tokio timers oneshot v s ≡ (fail (error runtime_error fiber_not_alive), s))
        ⊎ (unblock ruby tokio timers oneshot v s ≡ (fail (error runtime_error fiber_active), s))
  unfolding unblock from_value check_suspended
  unblock_refused v s h = ground arith

  -- An `unblock` in a process with the blockers as the registration of a sender left them.
  pub unblock_registered :
      (f : Fiber suspended) (tx : c.Sender) (s u : Process c)
      → IsFree s.blockers
      → u.blockers ≡ (insert_blocker f tx s).1.blockers
      → ruby.rb_obj_is_fiber u f.raw ≡ ruby.q_true
      → ruby.rb_fiber_alive_p u f.raw ≡ ruby.q_true
      → ruby.rb_fiber_current u ≢ f.raw
      → (u.blockers.value ≡ insert f tx s.blockers.value)
        × (unblock ruby tokio timers oneshot f.raw u
            ≡ wake ruby tokio timers oneshot (some tx) (without f u))
        × (get f (without f u).blockers.value ≡ none)
  unfolding insert_blocker eq
  unblock_registered f tx s u free same fiber alive away =
      let is : u.blockers ≡ with_value (insert f tx s.blockers.value) =
        same
        ∙ ap (λ (w : Outcome (Unit {0}) × Process c). w.1.blockers)
            (insert_blocker-eq f tx s free) in
      let u_free : IsFree u.blockers = rw is (record { no_reader = refl; no_writer = refl }) in
      let value : u.blockers.value ≡ insert f tx s.blockers.value = ap (λ w. w.value) is in
      let found : get f u.blockers.value ≡ some tx =
        rw value (ground (arith, get-insert f f tx s.blockers.value)) in
      let (woken, gone) = unblock_lem f.raw u f fiber alive away u_free in
      (
        value,
        woken ∙ ap (λ o. wake ruby tokio timers oneshot o (without f u)) found,
        ground (arith, gone),
      )

  -- With the blockers free, `block` registers the sender of a fiber such that in every later process
  -- with the blockers so, an `unblock` of that fiber, alive and not current, sends `true` to that very
  -- sender and takes the entry out; the entries of other fibers are at both points what they were.
  pub unblock-insert_blocker :
      (f j : Fiber suspended) (tx : c.Sender) (s u : Process c)
      → IsFree s.blockers
      → u.blockers ≡ (insert_blocker f tx s).1.blockers
      → ruby.rb_obj_is_fiber u f.raw ≡ ruby.q_true
      → ruby.rb_fiber_alive_p u f.raw ≡ ruby.q_true
      → ruby.rb_fiber_current u ≢ f.raw
      → f.raw ≢ j.raw
      → (unblock ruby tokio timers oneshot f.raw u
          ≡ wake ruby tokio timers oneshot (some tx) (without f u))
        × (get f (without f u).blockers.value ≡ none)
        × (get j u.blockers.value ≡ get j s.blockers.value)
        × (get j (without f u).blockers.value ≡ get j s.blockers.value)
  unfolding insert_blocker eq
  unblock-insert_blocker f j tx s u free same fiber alive away other =
      let (value, woken, gone) = unblock_registered f tx s u free same fiber alive away in
      let kept : get j u.blockers.value ≡ get j s.blockers.value =
        rw value (ground (arith, get-insert f j tx s.blockers.value)) in
      (woken, gone, kept, get-remove_ne f j u.blockers.value other ∙ kept)
