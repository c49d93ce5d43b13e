-- ===== src/Scheduler/Run/Terminates.antt =====
-- How many rounds the loop of ext/shreduler/src/tokio_scheduler/close.rs needs.
use shredular.Base.{
  ℕ, zero, suc, ◌+◌, ◌≤◌, ◌<◌, ◌≡◌, ◌≢◌, ◌∙◌, sym, ap, refl, length, Bool, length-Perm, true, some,
  none, arith, inl, inr, Bool-cases, subst,
}
use shredular.Errors.{Result, Error, ok, err}
use shredular.GcCell.{GcCell, try_borrow_mut}
use shredular.Async.{Outcome, M, done, starved, pure}
use shredular.Async.Rules.{bind-ne-starved, bind-state, bind-eq-done}
use shredular.Ruby.{Ruby}
use shredular.FiberFuture.{ResumableFiber, resume_if_alive}
use shredular.FiberFuture.Frames.{Keeps, Returns, resume_if_alive-keeps, resume_if_alive-returns}
use shredular.Scheduler.Run.Frames.{round-IsFree}
use shredular.Scheduler.Run.Joins.{fibers, JoinLaws, selected_of}
use shredular.Scheduler.Run.Waiting.{SelectLaws, FuturesFree, waiting, take_task-eq}
use shredular.Scheduler.{Carriers, Process, Tokio, set_futures}
use shredular.Scheduler.Run.{
  Joined, JoinError, Selected, joined, interrupted, on_selected, abort_all_tasks, release_futures,
  wait_held, take_task, under_guard, dispatch, round, run_loop, continue,
}

module _ {c : Carriers} (ruby : Ruby (Process c)) (tokio : Tokio c)
    (select : M (Process c) Selected) (returns : Returns ruby)
    (select_returns : (s : Process c) → (select s).0 ≢ starved) where
  on_selected-returns :
      (sel : Selected) (s : Process c) → (on_selected ruby tokio select sel s).0 ≢ starved
  unfolding on_selected
  on_selected-returns (joined t) s h = cc
  on_selected-returns (interrupted e) s h = cc

  wait_held-returns : (s : Process c) → (wait_held ruby tokio select s).0 ≢ starved
  unfolding wait_held
  wait_held-returns s =
      bind-ne-starved (select s) (on_selected ruby tokio select) (select_returns s)
        (λ sel t _. on_selected-returns sel t)

  under_guard-returns :
      (s : Process c) (r : Result (GcCell c.JoinSet) Error)
      → (under_guard ruby tokio select s r).0 ≢ starved
  under_guard-returns s (ok held) = wait_held-returns (set_futures held s)
  under_guard-returns s (err e) = λ h. cc

  take_task-returns : (s : Process c) → (take_task ruby tokio select s).0 ≢ starved
  unfolding take_task
  take_task-returns s = under_guard-returns s (try_borrow_mut s.futures_to_run)

  dispatch-returns : (j : Joined) (s : Process c) → (dispatch ruby tokio select j s).0 ≢ starved
  unfolding dispatch
  dispatch-returns none s = λ h. cc
  dispatch-returns (some (err e)) s = λ h. cc
  dispatch-returns (some (ok r)) s =
      bind-ne-starved _ _ (resume_if_alive-returns ruby returns r s) (λ a t _ h. cc)

  round-returns : (s : Process c) → (round ruby tokio select s).0 ≢ starved
  unfolding round
  round-returns s =
      bind-ne-starved (take_task ruby tokio select s) (dispatch ruby tokio select)
        (take_task-returns s) (λ j t _. dispatch-returns j t)

  -- The futures that are in the set, with those that the program will still spawn.
  module _ (sel_laws : SelectLaws tokio select) (joins : JoinLaws tokio select)
      (keeps_free : Keeps ruby FuturesFree) (to_spawn : c.Outside → ℕ) where
    abbrev pub todo : Process c → ℕ
    todo s = length (fibers tokio s) + to_spawn s.outside

    on_selected-outside :
        (sel : Selected) (s : Process c)
        → (on_selected ruby tokio select sel s).1.outside ≡ s.outside
    unfolding on_selected abort_all_tasks
    on_selected-outside (joined t) s = refl
    on_selected-outside (interrupted e) s = refl

    take_task-to_spawn :
        (s : Process c)
        → FuturesFree s
        → to_spawn (select (waiting s)).1.outside ≤ to_spawn s.outside
        → to_spawn (take_task ruby tokio select s).1.outside ≤ to_spawn s.outside
    unfolding wait_held release_futures
    take_task-to_spawn s f fewer = rw (take_task-eq ruby tokio select s f) (
        bind-state (λ t. to_spawn t.outside ≤ to_spawn s.outside) (select (waiting s))
          (on_selected ruby tokio select) fewer
          (λ sel t le.
            subst (λ o. to_spawn o ≤ to_spawn s.outside) (sym (on_selected-outside sel t)) le))

    -- A join takes one task out of the set.
    take_task-todo :
        (r : Result ResumableFiber JoinError) (s t : Process c)
        → FuturesFree s
        → to_spawn (select (waiting s)).1.outside ≤ to_spawn s.outside
        → take_task ruby tokio select s ≡ (done (some r), t)
        → todo t < todo s
    take_task-todo (ok r) s t f fewer took =
        let (u, selected, same) = selected_of ruby tokio select (some (ok r)) s t f took in
        let fewer' : to_spawn t.outside ≤ to_spawn s.outside =
          subst (λ p. to_spawn p.1.outside ≤ to_spawn s.outside) took
            (take_task-to_spawn s f fewer) in
        let one : length (fibers tokio s) ≡ suc (length (fibers tokio t)) =
          length-Perm (joins.takes (waiting s) u r selected) ∙ ap (λ xs. suc (length xs)) same in
        omega arith
    take_task-todo (err e) s t f fewer took =
        let (u, selected, same) = selected_of ruby tokio select (some (err e)) s t f took in
        let fewer' : to_spawn t.outside ≤ to_spawn s.outside =
          subst (λ p. to_spawn p.1.outside ≤ to_spawn s.outside) took
            (take_task-to_spawn s f fewer) in
        let (x, gone) = joins.loses (waiting s) u e selected in
        let one : length (fibers tokio s) ≡ suc (length (fibers tokio t)) =
          length-Perm gone ∙ ap (λ xs. suc (length xs)) same in
        omega arith

    module _ (waits_spend : (s : Process c) → to_spawn (select s).1.outside ≤ to_spawn s.outside)
        (fibers_spend : (k : ℕ) → Keeps ruby (λ t. todo t ≤ k)) where
      round-todo :
          (s t : Process c)
          → FuturesFree s
          → round ruby tokio select s ≡ (done true, t)
          → todo t < todo s
      unfolding round dispatch
      round-todo s t f e =
          let (j, u, took, goes_on) =
            bind-eq-done (take_task ruby tokio select s) (dispatch ruby tokio select) e in
          dispatched j u took goes_on
        where
          dispatched :
              (j : Joined) (u : Process c)
              → take_task ruby tokio select s ≡ (done j, u)
              → dispatch ruby tokio select j u ≡ (done true, t)
              → todo t < todo s
          dispatched none u took goes_on = cc
          dispatched (some (err x)) u took goes_on =
              subst (λ p. todo p.1 < todo s) goes_on
                (take_task-todo (err x) s u f (waits_spend (waiting s)) took)
          dispatched (some (ok r)) u took goes_on =
              let first = take_task-todo (ok r) s u f (waits_spend (waiting s)) took in
              let spent : todo t ≤ todo u =
                subst (λ p. todo p.1 ≤ todo u) goes_on
                  (bind-state (λ w. todo w ≤ todo u) (resume_if_alive ruby r u) (λ _. pure true)
                    (resume_if_alive-keeps ruby (λ w. todo w ≤ todo u) (fibers_spend (todo u)) r u
                      (omega arith))
                    (λ _ w q. q)) in
              omega arith

      -- If tokio keeps to its documentation, the calls of the VM and the wait come back and keep to the
      -- guard of the set, and the program spawns no more futures than it was to spawn, which is what the
      -- fibers and the wait use up, then the loop, begun with the set free, ends by itself within one round
      -- more than there are futures in the set and futures still to be spawned.
      pub run_loop-ends :
          (n : ℕ) (s : Process c)
          → FuturesFree s
          → todo s < n
          → (run_loop ruby tokio select n s).0 ≢ starved
      unfolding run_loop
      run_loop-ends zero s f h = absurd (omega arith)
      run_loop-ends (suc n) s f h =
          bind-ne-starved (round ruby tokio select s) (continue (run_loop ruby tokio select n))
            (round-returns s)
            λ more t e. elim (Bool-cases more) [
              | inl on ↦ rw on (
                  run_loop-ends n t
                    (subst (λ (p : Outcome Bool × Process c). FuturesFree p.1) e
                      (round-IsFree ruby tokio select sel_laws keeps_free s f))
                    (omega (
                      arith,
                      round-todo s t f (subst (λ b. round ruby tokio select s ≡ (done b, t)) on e),
                    )))
              | inr off ↦ rw off (λ x. cc)
            ]
