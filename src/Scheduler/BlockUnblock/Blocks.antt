-- ===== src/Scheduler/BlockUnblock/Blocks.antt =====
-- `block` of ext/shreduler/src/tokio_scheduler/block_unblock.rs up to the transfer.
use shredular.Base.{◌≡◌, ◌≢◌, ◌⊎◌, inl, inr, ap, ◌∙◌, [], ◌∷◌, ◌++◌, Option, some, arith}
use shredular.GcCell.Borrowing.{IsFree, with_value}
use shredular.Async.{done}
use shredular.Errors.{Value}
use shredular.Ruby.{Ruby}
use shredular.Fiber.{Fiber, suspended, current, eq}
use shredular.TimeoutDuration.{TimeoutDuration}
use shredular.HashMap.{FiberMap, get, insert, get-insert}
use shredular.Scheduler.{Block, Carriers, Process, Tokio, TokioLaws, set_blockers}
use shredular.Scheduler.Spawning.{new_task, with_task, spawn_and_transfer_lem}
use shredular.Scheduler.Timeout.{Timers}
use shredular.Scheduler.BlockUnblock.{Oneshot, block_future, block}
use shredular.Scheduler.BlockUnblock.Wakes.{insert_blocker-eq}

get-insert_self :
    {V : Type 0} (f : Fiber suspended) (v : V) (m : FiberMap V) → get f (insert f v m) ≡ some v
unfolding eq
get-insert_self f v m = ground (arith, get-insert f f v m)

-- The case of a fiber that is not the root fiber.
transferred : {A Q R : Type 0} {x y : A} → ((x ≢ y) × Q) ⊎ ((x ≡ y) × R) → x ≢ y → Q
transferred (inl (_, q)) away = q
transferred (inr (here, _)) away = absurd (away here)

module _ {c : Carriers} (ruby : Ruby (Process c)) (tokio : Tokio c) (timers : Timers c)
    (oneshot : Oneshot c) where
  -- The process with the sender of the running fiber registered.
  abbrev pub registered : c.Sender → Process c → Process c
  registered tx u =
      set_blockers
        (with_value (insert (record { raw = ruby.rb_fiber_current u }) tx u.blockers.value)) u

  -- The process that `block` gives control away in.
  abbrev pub blocked_in : c.Sender → c.Receiver → Option TimeoutDuration → Process c → Process c
  blocked_in tx rx timeout u =
      with_task ruby tokio (block_future ruby tokio timers oneshot rx timeout) (registered tx u)

  -- A fiber that is not the root fiber, with the cells of the scheduler free, the root fiber alive, and
  -- by what tokio documents of `JoinSet::spawn`, gives control to the root fiber by `block`. It then has
  -- the sender of a new channel as its entry, and the last task of the set is the future that waits for
  -- the receiver of that channel, under the fiber.
  pub block_lem :
      TokioLaws tokio
      → (timeout : Option TimeoutDuration) (s u : Process c) (tx : c.Sender) (rx : c.Receiver)
      → oneshot.channel s ≡ (done (tx, rx), u)
      → IsFree u.blockers
      → IsFree u.futures_to_run
      → ruby.rb_fiber_current (registered tx u) ≡ ruby.rb_fiber_current u
      → ruby.rb_fiber_alive_p (blocked_in tx rx timeout u) u.root_fiber.raw ≡ ruby.q_true
      → ruby.rb_fiber_current (blocked_in tx rx timeout u) ≢ u.root_fiber.raw
      → let t = blocked_in tx rx timeout u in
        (block ruby tokio timers oneshot timeout s ≡ ruby.rb_fiber_transfer u.root_fiber.raw [] t)
        × (get (record { raw = ruby.rb_fiber_current u }) t.blockers.value ≡ some tx)
        × (tokio.tasks t.futures_to_run.value
            ≡ tokio.tasks u.futures_to_run.value
              ++ record {
                future = tokio.box_pin (block_future ruby tokio timers oneshot rx timeout);
                fiber = record { raw = ruby.rb_fiber_current u };
              }
                ∷ [])
  unfolding block current
  block_lem laws timeout s u tx rx made free futures_free runs alive away =
      let f : Fiber suspended = record { raw = ruby.rb_fiber_current u } in
      let future : Block c = block_future ruby tokio timers oneshot rx timeout in
      (
        rw (made, insert_blocker-eq f tx u free)
            (transferred
              (spawn_and_transfer_lem ruby tokio future (registered tx u) futures_free alive) away),
        get-insert_self f tx u.blockers.value,
        laws.tasks-spawn_task u.futures_to_run.value (new_task ruby tokio future (registered tx u))
            ∙ ap
                (λ (v : Value).
                  tokio.tasks u.futures_to_run.value
                  ++ record { future = tokio.box_pin future; fiber = record { raw = v } } ∷ [])
                runs,
      )
