-- ===== src/Tests/Turns.antt =====
-- The turns of the session that the other tests of sessions follow, from the code that takes them.
use mathlib.Core.List.{Mem, Memᴰ, Perm}
use mathlib.Core.Logic.{∥∥₁_elim}
use native.Mathlib.Nat.{ℕ_set}
use shredular.Base.{◌≡◌, ◌⊎◌, refl, [], ◌∷◌, some, arith, sym, subst, true}
use shredular.Errors.{ok, jump}
use shredular.Async.{done, pure, ◌>>=◌, fail}
use shredular.Fiber.{Fiber, unknown, check_suspended}
use shredular.FiberFuture.{resume_with}
use shredular.Scheduler.{spawn_and_transfer}
use shredular.Scheduler.FiberSpawn.{fiber_impl}
use shredular.Scheduler.Run.{round, run_loop}
use shredular.Scheduler.Session.{Ledger, Session, active, waiting, making, start, later, ran}
use shredular.Scheduler.Run.Joins.{fibers}
use shredular.Scheduler.Run.Waiting.{FuturesFree, waiting as waiting_on}
use shredular.Scheduler.Session.Interrupts.{interrupt-Step}
use shredular.Scheduler.Session.Ledger.{picks, is_waiting}
use shredular.Scheduler.Session.Making.{fiber_impl-Step}
use shredular.Scheduler.Session.Progress.{wait-Step, join-Step}
use shredular.Scheduler.Session.Rounds.{Resumes, Loses, Closes, round-Step}
use shredular.Tests.Accounts.{select, select_laws, join_laws, select_root}
use shredular.Tests.Sessions.{
  fiber_new, fiber, process_of, task_of, begun, one_made, two_made, one_waits, block, StepIn,
  begun-Begun, makes_first, to_two, to_waiting, joins,
}
use shredular.Tests.World.{World, idle, note, carriers, ruby, tokio, tokio_laws, nil_value}

wait-Step_example :
    (spawn_and_transfer ruby tokio (pure nil_value) two_made.process
      ≡ (done nil_value, note 3 (process_of 7 (task_of 7 ∷ []))))
    × ((l : Ledger) × StepIn two_made
          (record { process = process_of 3 (task_of 7 ∷ []); ledger = l })
        × Memᴰ (fiber 7, waiting) l)
wait-Step_example =
    wait-Step ruby tokio fiber_new select tokio_laws select_laws join_laws select_root begun
      two_made (pure nil_value) (process_of 3 (task_of 7 ∷ [])) begun-Begun to_two
      (λ e. omega (arith, e)) (λ e. omega (arith, e)) refl ((refl, refl), refl)

join-Step_example :
    Mem (fiber 7) (picks is_waiting one_waits.ledger)
    × (¬ Mem (fiber 7) (fibers tokio (process_of 3 [])))
    × (check_suspended ruby (fiber 7) (process_of 3 []) ≡ ok (record { raw = 7 }))
    × (round ruby tokio select one_waits.process
        ≡ (do returned ← resume_with ruby (fiber 7) (ok nil_value); pure true) (process_of 3 []))
    × ((l : Ledger) × StepIn one_waits (record { process = process_of 7 []; ledger = l })
        × Memᴰ (fiber 7, active) l)
join-Step_example =
    join-Step ruby tokio fiber_new select tokio_laws select_laws join_laws select_root begun
      one_waits (record { fiber = fiber 7; value = ok nil_value }) (process_of 3 [])
      (process_of 7 []) begun-Begun to_waiting refl joins refl refl ((refl, refl), refl)

fiber_impl-Step_example :
    (fiber_impl ruby fiber_new block one_made.process
      ≡ (do returned ← ruby.rb_fiber_transfer 7 []; pure 7) (process_of 5 []))
    × ((l : Ledger) × StepIn one_made (record { process = process_of 7 []; ledger = l })
        × Memᴰ (fiber 7, active) l
        × ((ruby.rb_fiber_current one_made.process ≡ 3) ⊎ Memᴰ (fiber 5, making (fiber 7)) l))
fiber_impl-Step_example =
    fiber_impl-Step ruby tokio fiber_new select tokio_laws select_laws join_laws select_root begun
      one_made block 7 (process_of 5 []) (process_of 7 []) begun-Begun (later start makes_first)
      refl (refl, refl) (λ e. omega (arith, e)) ((λ e. cc), tt) ((refl, refl), refl)

only_seven_waits :
    (f : Fiber unknown)
    → Mem f (picks is_waiting one_waits.ledger)
    → ruby.rb_fiber_alive_p (process_of 3 []) f.raw ≡ ruby.q_true
only_seven_waits f m = ∥∥₁_elim m (ℕ_set _ _) (λ n. alive_of n)
  where
    alive_of : Memᴰ f (fiber 7 ∷ []) → ruby.rb_fiber_alive_p (process_of 3 []) f.raw ≡ ruby.q_true
    alive_of (Memᴰ.head is) =
        subst (λ (g : Fiber unknown). ruby.rb_fiber_alive_p (process_of 3 []) g.raw ≡ ruby.q_true)
          (sym is) refl
    alive_of (Memᴰ.tail n) = elim n [ ]

round-Step_example :
    Resumes ruby tokio fiber_new select tokio_laws select_laws join_laws select_root one_waits
      (process_of 3 [])
    ⊎ Loses ruby tokio fiber_new select tokio_laws select_laws join_laws select_root one_waits
        (process_of 3 [])
    ⊎ Closes ruby tokio fiber_new select tokio_laws select_laws join_laws select_root one_waits
        (process_of 3 [])
round-Step_example =
    round-Step ruby tokio fiber_new select tokio_laws select_laws join_laws select_root begun
      one_waits (some (ok (record { fiber = fiber 7; value = ok nil_value }))) (process_of 3 [])
      begun-Begun to_waiting refl joins refl only_seven_waits
      (λ v alive. (process_of v [], ((refl, refl), refl)))

-- A signal comes while the fiber 7 waits.
abbrev signalled : World
signalled = record (process_of 3 (task_of 7 ∷ [])) {
  outside = record (idle.outside) { running = 3; clock = 99 };
}

abbrev at_signal : Session carriers
at_signal = record { process = signalled; ledger = one_waits.ledger }

signal_comes : StepIn one_waits at_signal
signal_comes = ran ((refl, refl), refl) refl

interrupt-Step_example :
    (run_loop ruby tokio select 4 signalled ≡ (fail (jump 5), signalled))
    × StepIn at_signal at_signal
    × Perm (fibers tokio signalled) (picks is_waiting one_waits.ledger)
    × FuturesFree signalled
interrupt-Step_example =
    interrupt-Step ruby tokio fiber_new select tokio_laws select_laws join_laws select_root begun
      at_signal 3 (jump 5) (waiting_on signalled) begun-Begun (later to_waiting signal_comes) refl
      refl refl
