-- ===== src/Tests/Blocked.antt =====
-- A fiber that blocks and is unblocked through a channel that keeps its value, and what is marked.
use shredular.Base.{
  ℕ, ◌≡◌, ◌≢◌, false, refl, subst, List, [], ◌∷◌, ◌++◌, none, some, contains, arith,
}
use shredular.Errors.{Value, Result, ok, err, unblocking_fiber}
use shredular.Async.{Outcome, done, pure}
use shredular.Fiber.{Fiber, suspended, eq, from_value, check_suspended}
use shredular.GcCell.{try_borrow_mut, drop_ref_mut, write}
use shredular.GcCell.Borrowing.{IsFree, with_value}
use shredular.HashMap.{get, insert, remove}
use shredular.Scheduler.{set_blockers, spawn}
use shredular.Scheduler.Mark.{mark, spawn-mark}
use shredular.Scheduler.Timeout.{with_timeout}
use shredular.Scheduler.BlockUnblock.{
  Oneshot, block, block_future, unblock, insert_blocker, remove_blocker, change_blockers,
  change_cell, receive,
}
use shredular.Scheduler.BlockUnblock.Blocks.{blocked_in, block_lem}
use shredular.Scheduler.BlockUnblock.Woken.{OneshotLaws, block_future-unblock}
use shredular.Tests.World.{
  World, carriers, ruby, tokio, tokio_laws, timers, oneshot, idle, note, nil_value, true_value,
}

-- The fiber 4 is blocked with the sender 6.
abbrev blocked : Fiber suspended
blocked = record { raw = 4 }

abbrev in_root : World
in_root = record idle { outside = record (idle.outside) { running = 3 } }

abbrev blocking : World
blocking = set_blockers (with_value ((blocked, 6) ∷ [])) in_root

-- What was sent lies on top of the log.
abbrev newest : List ℕ → Result Value (Unit {0})
newest [] = err tt
newest (v ∷ vs) = ok v

abbrev keeping : Oneshot carriers
keeping = record {
  channel = λ s. (done (6, 6), s);
  send = λ tx v s. (done (ok tt), note v s);
  recv = λ rx s. (done (newest s.outside.log), s);
}

abbrev keeping_laws : OneshotLaws keeping
keeping_laws = record {
  Paired = λ tx rx. tx ≡ rx;
  Listens = λ rx s. Unit {0};
  Holds = λ rx v s. newest s.outside.log ≡ ok v;
  send_holds = λ tx rx v s p l. (note v s, refl, refl, refl);
  recv_holds = λ rx v s h. (s, rw h, refl);
}

abbrev woken : World
woken = note true_value (set_blockers (with_value []) in_root)

registered_blocking : blocking.blockers ≡ (insert_blocker blocked 6 in_root).1.blockers
unfolding insert_blocker change_blockers change_cell insert eq try_borrow_mut drop_ref_mut write
registered_blocking = refl

in_root-IsFree : IsFree in_root.blockers
in_root-IsFree = record { no_reader = refl; no_writer = refl }

woken-IsFree : IsFree woken.blockers
woken-IsFree = record { no_reader = refl; no_writer = refl }

root-ne-blocked : blocking.outside.running ≢ blocked.raw
root-ne-blocked h = omega arith

waited :
    with_timeout timers unblocking_fiber none (receive ruby tokio timers keeping 6) woken
    ≡ receive ruby tokio timers keeping 6 woken
unfolding with_timeout
waited = refl

abbrev unblocked : Outcome (Unit {0}) × World
unblocked = unblock ruby tokio timers keeping 4 blocking

unblocked-woken : unblocked.1 ≡ woken
unfolding unblock remove_blocker change_blockers change_cell remove eq get try_borrow_mut
    drop_ref_mut write from_value check_suspended
unblocked-woken = refl

block_future-unblock_example :
    (unblocked.0 ≡ done tt)
    × (get blocked unblocked.1.blockers.value ≡ none)
    × ((block_future ruby tokio timers keeping 6 none woken).0 ≡ done true_value)
block_future-unblock_example =
    block_future-unblock ruby tokio timers keeping keeping_laws blocked 6 6 none in_root blocking
      woken refl in_root-IsFree registered_blocking refl refl root-ne-blocked tt
      (λ v held. subst (λ (w : World). newest w.outside.log ≡ ok v) unblocked-woken held)
      woken-IsFree waited

-- The fiber 2 blocks.
idle-blockers-IsFree : IsFree idle.blockers
idle-blockers-IsFree = record { no_reader = refl; no_writer = refl }

idle-futures-IsFree : IsFree idle.futures_to_run
idle-futures-IsFree = record { no_reader = refl; no_writer = refl }

two-ne-root : idle.outside.running ≢ idle.root_fiber.raw
two-ne-root h = omega arith

abbrev after_block : World
after_block = blocked_in ruby tokio timers oneshot 6 6 none idle

block_lem_example :
    (block ruby tokio timers oneshot none idle ≡ ruby.rb_fiber_transfer 3 [] after_block)
    × (get (record { raw = 2 }) after_block.blockers.value ≡ some 6)
    × (tokio.tasks after_block.futures_to_run.value
        ≡ tokio.tasks idle.futures_to_run.value
          ++ record { future = 0; fiber = record { raw = 2 } } ∷ [])
block_lem_example =
    block_lem ruby tokio timers oneshot tokio_laws none idle idle 6 6 refl idle-blockers-IsFree
      idle-futures-IsFree refl refl two-ne-root

-- The fiber 2 waits for a future while the fiber 4 is blocked.
abbrev one_blocked : World
one_blocked = set_blockers (with_value ((blocked, 6) ∷ [])) idle

one_blocked-IsFree : IsFree one_blocked.futures_to_run
one_blocked-IsFree = record { no_reader = refl; no_writer = refl }

two-ne-three : one_blocked.root_fiber.raw ≢ one_blocked.outside.running
two-ne-three h = omega arith

no_entry : get (record { raw = 2 }) one_blocked.blockers.value ≡ none
unfolding get eq
no_entry = refl

abbrev spawned : World
spawned = (spawn ruby tokio (pure nil_value) one_blocked).1

spawn-mark_example :
    (tokio.tasks spawned.futures_to_run.value
      ≡ tokio.tasks one_blocked.futures_to_run.value
        ++ record { future = 0; fiber = record { raw = 2 } } ∷ [])
    × (one_blocked.outside.running ≡ 2)
    × ((mark 1 spawned.scheduler []).0 ≡ done tt)
    × (contains 2 (mark 1 spawned.scheduler []).1 ≡ false)
spawn-mark_example =
    spawn-mark ruby tokio tokio_laws (pure nil_value) one_blocked one_blocked-IsFree two-ne-three
      no_entry
