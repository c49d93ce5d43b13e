-- ===== src/Scheduler/BlockUnblock/Woken.antt =====
-- A fiber that is blocked and then unblocked
-- (ext/shreduler/src/tokio_scheduler/block_unblock.rs), from the registration of its sender to the value
-- that it is resumed with.
use shredular.Base.{◌≡◌, ◌≢◌, sym, ap, ◌∙◌, subst, Option, none}
use shredular.Errors.{Value, ok, unblocking_fiber}
use shredular.GcCell.Borrowing.{IsFree}
use shredular.Async.{done}
use shredular.Ruby.{Ruby}
use shredular.Fiber.{Fiber, suspended, current}
use shredular.TimeoutDuration.{TimeoutDuration}
use shredular.HashMap.{get}
use shredular.Scheduler.{Carriers, Process, Tokio}
use shredular.Scheduler.Timeout.{Timers, with_timeout}
use shredular.Scheduler.BlockUnblock.{Oneshot, insert_blocker, receive, block_future, unblock}
use shredular.Scheduler.BlockUnblock.Wakes.{remove_blocker-eq, without, unblock_registered}

-- What tokio documents of a oneshot channel: a send to a receiver that listens leaves the value for it,
-- and receiving gives that value. Neither touches the scheduler.
pub record OneshotLaws {c : Carriers} (oneshot : Oneshot c) : Type 1 where
  pub Paired : c.Sender → c.Receiver → Type 0
  pub Listens : c.Receiver → Process c → Type 0
  pub Holds : c.Receiver → Value → Process c → Type 0
  pub send_holds :
      (tx : c.Sender) (rx : c.Receiver) (v : Value) (s : Process c)
      → Paired tx rx
      → Listens rx s
      → (t : Process c) × (oneshot.send tx v s ≡ (done (ok tt), t))
        × Holds rx v t
        × (t.scheduler ≡ s.scheduler)
  pub recv_holds :
      (rx : c.Receiver) (v : Value) (s : Process c)
      → Holds rx v s
      → (t : Process c) × (oneshot.recv rx s ≡ (done (ok v), t)) × (t.scheduler ≡ s.scheduler)

module _ {c : Carriers} (ruby : Ruby (Process c)) (tokio : Tokio c) (timers : Timers c)
    (oneshot : Oneshot c) (laws : OneshotLaws oneshot) where
  open laws use {Paired, Listens, Holds, send_holds, recv_holds}

  block_future_held :
      (rx : c.Receiver) (timeout : Option TimeoutDuration) (v : Value) (w : Process c)
      → Holds rx v w
      → IsFree w.blockers
      → with_timeout timers unblocking_fiber timeout (receive ruby tokio timers oneshot rx) w
        ≡ receive ruby tokio timers oneshot rx w
      → (block_future ruby tokio timers oneshot rx timeout w).0 ≡ done v
  unfolding block_future receive current
  block_future_held rx timeout v w held free in_time =
      let (t, got, kept) = recv_holds rx v w held in
      let t_free : IsFree t.blockers =
        subst (λ (x : shredular.Scheduler.TokioScheduler c). IsFree x.blockers) (sym kept) free in
      rw (in_time, got, remove_blocker-eq (record { raw = ruby.rb_fiber_current t }) t t_free)

  -- By what tokio documents of a oneshot channel: the sender of a fiber is registered, and in a later
  -- process with the blockers so, the fiber being alive and not current and its receiver listening, an
  -- `unblock` of the fiber succeeds, and its entry is gone; and when in a process after it the channel
  -- still holds what it held, the blockers are free, and the deadline has not come, then the future of
  -- the blocked fiber gives `true`.
  pub block_future-unblock :
      (f : Fiber suspended) (tx : c.Sender) (rx : c.Receiver) (timeout : Option TimeoutDuration)
      (s u w : Process c)
      → Paired tx rx
      → IsFree s.blockers
      → u.blockers ≡ (insert_blocker f tx s).1.blockers
      → ruby.rb_obj_is_fiber u f.raw ≡ ruby.q_true
      → ruby.rb_fiber_alive_p u f.raw ≡ ruby.q_true
      → ruby.rb_fiber_current u ≢ f.raw
      → Listens rx (without f u)
      → ((v : Value) → Holds rx v (unblock ruby tokio timers oneshot f.raw u).1 → Holds rx v w)
      → IsFree w.blockers
      → with_timeout timers unblocking_fiber timeout (receive ruby tokio timers oneshot rx) w
        ≡ receive ruby tokio timers oneshot rx w
      → ((unblock ruby tokio timers oneshot f.raw u).0 ≡ done tt)
        × (get f (unblock ruby tokio timers oneshot f.raw u).1.blockers.value ≡ none)
        × ((block_future ruby tokio timers oneshot rx timeout w).0 ≡ done ruby.q_true)
  block_future-unblock f tx rx timeout s u w paired free same fiber alive away listens stays w_free
        in_time =
      let (_, woken, gone) =
        unblock_registered ruby tokio timers oneshot f tx s u free same fiber alive away in
      let (t, sent, held, kept) = send_holds tx rx ruby.q_true (without f u) paired listens in
      let is_t : unblock ruby tokio timers oneshot f.raw u ≡ (done tt, t) = woken ∙ rw sent in
      (
        ap (λ x. x.0) is_t,
        ap (λ x. get f x.1.blockers.value) is_t ∙ ap (λ x. get f x.blockers.value) kept ∙ gone,
        block_future_held rx timeout ruby.q_true w
            (stays ruby.q_true (subst (λ x. Holds rx ruby.q_true x.1) (sym is_t) held)) w_free
            in_time,
      )
