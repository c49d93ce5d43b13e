-- ===== src/Scheduler/Run/Empties.antt =====
-- What a successful run of the loop in ext/shreduler/src/tokio_scheduler/close.rs has done.
use shredular.Base.{
  ℕ, zero, suc, ◌≡◌, ◌≢◌, refl, sym, subst, ◌∙◌, ap, inl, inr, Bool-cases, [], true, false, some,
  none,
}
use shredular.Errors.{Result, Error, ok, err}
use shredular.Async.{lift, M, pure, done, fail, Outcome, bind, panic, dropped, starved}
use shredular.Async.Rules.{bind-eq-done, after-eq-done}
use shredular.Ruby.{Ruby}
use shredular.FiberFuture.{resume_if_alive}
use shredular.GcCell.{drop_ref_mut}
use shredular.FiberFuture.Frames.{Keeps}
use shredular.Scheduler.{Carriers, Process, Tokio, runtime}
use shredular.Scheduler.Run.Frames.{round-IsFree, run_loop-IsFree}
use shredular.Scheduler.Run.Waiting.{SelectLaws, FuturesFree, take_task-eq, waiting}
use shredular.Scheduler.Run.{
  Joined, Selected, joined, interrupted, on_selected, wait_held, take_task, release_futures,
  dispatch, round, run_loop, continue, run,
}

bind-ne-false :
    {S A : Type 0} (p : Outcome A × S) {t : S} → bind p (λ _. pure true) ≢ (done false, t)
bind-ne-false (done a, s) e = cc
bind-ne-false (fail x, s) e = cc
bind-ne-false (panic, s) e = cc
bind-ne-false (dropped, s) e = cc
bind-ne-false (starved, s) e = cc

module _ {c : Carriers} (ruby : Ruby (Process c)) (tokio : Tokio c)
    (select : M (Process c) Selected) where
  module _ (laws : SelectLaws tokio select) where
    dispatch-false :
        (j : Joined) (s t : Process c)
        → dispatch ruby tokio select j s ≡ (done false, t)
        → (j ≡ none) × (s ≡ t)
    unfolding dispatch
    dispatch-false none s t e = (refl, cc)
    dispatch-false (some (err x)) s t e = cc
    dispatch-false (some (ok r)) s t e = absurd (bind-ne-false (resume_if_alive ruby r s) e)

    on_selected-none :
        (sel : Selected) (s t : Process c)
        → on_selected ruby tokio select sel s ≡ (done none, t)
        → (sel ≡ joined none) × (s ≡ t)
    unfolding on_selected
    on_selected-none (joined none) s t e = (refl, cc)
    on_selected-none (joined (some r)) s t e = cc
    on_selected-none (interrupted x) s t e = cc

    wait_held-none :
        (s t : Process c)
        → wait_held ruby tokio select s ≡ (done none, t)
        → tokio.tasks t.futures_to_run.value ≡ []
    unfolding wait_held
    wait_held-none s t e =
        let (sel, u, selected, given) = bind-eq-done (select s) (on_selected ruby tokio select) e in
        let (nothing, same) = on_selected-none sel u t given in laws.empties s t (cc)

    release-value :
        (s : Process c)
        → (release_futures ruby tokio select s).futures_to_run.value ≡ s.futures_to_run.value
    unfolding release_futures drop_ref_mut
    release-value s = refl

    take_task-none :
        (s t : Process c)
        → FuturesFree s
        → take_task ruby tokio select s ≡ (done none, t)
        → tokio.tasks t.futures_to_run.value ≡ []
    take_task-none s t f e =
        let (u, waited, released) =
          after-eq-done (wait_held ruby tokio select (waiting s))
            (release_futures ruby tokio select) (sym (take_task-eq ruby tokio select s f) ∙ e) in
        subst (λ (w : Process c). tokio.tasks w.futures_to_run.value ≡ []) released
          (rw (release-value u) (wait_held-none (waiting s) u waited))

    round-false :
        (s t : Process c)
        → FuturesFree s
        → round ruby tokio select s ≡ (done false, t)
        → tokio.tasks t.futures_to_run.value ≡ []
    unfolding round
    round-false s t f e =
        let (j, u, took, disp) =
          bind-eq-done (take_task ruby tokio select s) (dispatch ruby tokio select) e in
        let (empty, same) = dispatch-false j u t disp in take_task-none s t f (cc)

    module _ (keeps : Keeps ruby FuturesFree) where
      run_loop-empties :
          (n : ℕ) (s t : Process c)
          → FuturesFree s
          → run_loop ruby tokio select n s ≡ (done tt, t)
          → tokio.tasks t.futures_to_run.value ≡ []
      unfolding run_loop
      run_loop-empties zero s t f e = cc
      run_loop-empties (suc n) s t f e =
          let (more, u, rounded, rest) =
            bind-eq-done (round ruby tokio select s) (continue (run_loop ruby tokio select n)) e in
          let u_free : FuturesFree u =
            subst FuturesFree (ap (λ w. w.1) rounded)
              (round-IsFree ruby tokio select laws keeps s f) in
          elim (Bool-cases more) [
            | inl on ↦
                run_loop-empties n u t u_free
                  (subst (λ b. continue (run_loop ruby tokio select n) b u ≡ (done tt, t)) on rest)
            | inr off ↦
                subst (λ (w : Process c). tokio.tasks w.futures_to_run.value ≡ [])
                  (ap (λ w. w.1)
                    (subst (λ b. continue (run_loop ruby tokio select n) b u ≡ (done tt, t)) off
                      rest))
                  (round-false s u f
                    (subst (λ b. round ruby tokio select s ≡ (done b, u)) off rounded))
          ]

      run-empties_by :
          (n : ℕ) (s t : Process c) (r : Result c.Runtime Error)
          → FuturesFree s
          → bind (lift r s) (λ rt. run_loop ruby tokio select n) ≡ (done tt, t)
          → (tokio.tasks t.futures_to_run.value ≡ []) × FuturesFree t
      run-empties_by n s t (ok rt) f e = (
        run_loop-empties n s t f e,
        subst FuturesFree (ap (λ w. w.1) e) (run_loop-IsFree ruby tokio select laws keeps n s f),
      )
      run-empties_by n s t (err x) f e = cc

      -- If the wait of the loop keeps its guard and reports the end only of an empty set, and
      -- calls of the VM come back with the set free if it was, then a `run` from a free set that
      -- succeeds leaves no future in the set, and the set free again.
      pub run-empties :
          (n : ℕ) (s t : Process c)
          → FuturesFree s
          → run ruby tokio select n s ≡ (done tt, t)
          → (tokio.tasks t.futures_to_run.value ≡ []) × FuturesFree t
      unfolding run
      run-empties n s t f e = run-empties_by n s t (runtime s) f e
