-- ===== src/Scheduler/BlockUnblock/Stale.antt =====
-- What `block` of ext/shreduler/src/tokio_scheduler/block_unblock.rs leaves behind after a timeout.
use shredular.Base.{◌≡◌, ◌≢◌, refl, Option, some}
use shredular.Errors.{Error, new_base_error, could_not_unblock_fiber, Result, ok, err}
use shredular.GcCell.Borrowing.{IsFree}
use shredular.Async.{Outcome, done, fail, panic, dropped, starved, bind}
use shredular.Ruby.{Ruby}
use shredular.Fiber.{Fiber, suspended, current}
use shredular.TimeoutDuration.{TimeoutDuration}
use shredular.HashMap.{get, get-remove_ne}
use shredular.Scheduler.{Carriers, Process, Tokio}
use shredular.Scheduler.Timeout.{Timers, with_timeout}
use shredular.Errors.{unblocking_fiber}
use shredular.Scheduler.BlockUnblock.{
  Oneshot, receive, or_could_not_unblock, block_future, wake, unblock,
}
use shredular.Scheduler.BlockUnblock.Wakes.{remove_blocker-eq, without, unblock_lem}

module _ {c : Carriers} (ruby : Ruby (Process c)) (tokio : Tokio c) (timers : Timers c)
    (oneshot : Oneshot c) where
  block_future_fail :
      (rx : c.Receiver) (timeout : Option TimeoutDuration) (e : Error) (s t : Process c)
      → with_timeout timers unblocking_fiber timeout (receive ruby tokio timers oneshot rx) s
        ≡ (fail e, t)
      → IsFree t.blockers
      → block_future ruby tokio timers oneshot rx timeout s
        ≡ (fail e, without (record { raw = ruby.rb_fiber_current t }) t)
  unfolding block_future current
  block_future_fail rx timeout e s t ends free = rw (ends, remove_blocker-eq _ t free)

  -- When the wait of a blocked fiber fails, as it does by its timeout, while another fiber runs
  -- and the blockers are free, the future gives the error of the wait, and what the blockers hold
  -- for the fiber stays as it is.
  pub block_future_keeps_entry :
      (rx : c.Receiver) (timeout : Option TimeoutDuration) (e : Error) (s t : Process c)
      (blocked : Fiber suspended)
      → with_timeout timers unblocking_fiber timeout (receive ruby tokio timers oneshot rx) s
        ≡ (fail e, t)
      → IsFree t.blockers
      → ruby.rb_fiber_current t ≢ blocked.raw
      → ((block_future ruby tokio timers oneshot rx timeout s).0 ≡ fail e)
        × (get blocked (block_future ruby tokio timers oneshot rx timeout s).1.blockers.value
            ≡ get blocked t.blockers.value)
  block_future_keeps_entry rx timeout e s t blocked ends free other =
      rw (block_future_fail rx timeout e s t ends free) (
        refl,
        get-remove_ne (record { raw = ruby.rb_fiber_current t }) blocked t.blockers.value other,
      )

  wake_gone :
      (tx : c.Sender) (s : Process c)
      → (oneshot.send tx ruby.q_true s).0 ≡ done (err tt)
      → (wake ruby tokio timers oneshot (some tx) s).0
        ≡ fail (new_base_error could_not_unblock_fiber)
  wake_gone tx s e = gone (oneshot.send tx ruby.q_true s) e
    where
      gone :
          (p : Outcome (Result (Unit {0}) (Unit {0})) × Process c)
          → p.0 ≡ done (err tt)
          → (bind p (or_could_not_unblock ruby tokio timers oneshot)).0
            ≡ fail (new_base_error could_not_unblock_fiber)
      gone (done (err x), s') h = refl
      gone (done (ok x), s') h = cc
      gone (fail x, s') h = cc
      gone (panic, s') h = cc
      gone (dropped, s') h = cc
      gone (starved, s') h = cc

  -- When the wait of a blocked fiber fails while another fiber runs, with the blockers free, its
  -- sender registered and every send to that sender refused, then an `unblock` of the fiber
  -- afterwards, alive and not current, ends in the error "could not unblock fiber".
  pub unblock_after_timeout :
      (rx : c.Receiver) (timeout : Option TimeoutDuration) (e : Error) (s t : Process c)
      (blocked : Fiber suspended) (tx : c.Sender)
      → with_timeout timers unblocking_fiber timeout (receive ruby tokio timers oneshot rx) s
        ≡ (fail e, t)
      → IsFree t.blockers
      → ruby.rb_fiber_current t ≢ blocked.raw
      → get blocked t.blockers.value ≡ some tx
      → ((w : Process c) → (oneshot.send tx ruby.q_true w).0 ≡ done (err tt))
      → let u = (block_future ruby tokio timers oneshot rx timeout s).1 in
        ruby.rb_obj_is_fiber u blocked.raw ≡ ruby.q_true
        → ruby.rb_fiber_alive_p u blocked.raw ≡ ruby.q_true
        → ruby.rb_fiber_current u ≢ blocked.raw
        → (unblock ruby tokio timers oneshot blocked.raw u).0
          ≡ fail (new_base_error could_not_unblock_fiber)
  unblock_after_timeout rx timeout e s t blocked tx ends free other entry gone fiber alive away =
      let u : Process c = (block_future ruby tokio timers oneshot rx timeout s).1 in
      let (_, kept) = block_future_keeps_entry rx timeout e s t blocked ends free other in
      let u_free : IsFree u.blockers =
        rw (block_future_fail rx timeout e s t ends free)
          (record { no_reader = refl; no_writer = refl }) in
      let (woken, _) =
        unblock_lem ruby tokio timers oneshot blocked.raw u blocked fiber alive away u_free in
      rw (woken, kept, entry) (wake_gone tx (without blocked u) (gone (without blocked u)))
