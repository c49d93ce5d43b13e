-- ===== src/Scheduler/Run/Close.antt =====
-- `close` of ext/shreduler/src/tokio_scheduler/close.rs.
use shredular.Base.{ℕ, ◌≡◌, sym, ap, [], Option, none, some}
use shredular.Errors.{new_base_error, runtime_is_closed}
use shredular.Async.{M, done, fail}
use shredular.Async.Rules.{bind-eq-done}
use shredular.Ruby.{Ruby}
use shredular.FiberFuture.Frames.{Keeps}
use shredular.Scheduler.{Carriers, Process, Tokio, runtime}
use shredular.Scheduler.Run.Waiting.{SelectLaws, FuturesFree}
use shredular.Scheduler.Run.Empties.{run-empties}
use shredular.Scheduler.Run.{Selected, run, shutdown, shutdown_taken, close}

module _ {c : Carriers} (ruby : Ruby (Process c)) (tokio : Tokio c)
    (select : M (Process c) Selected) where
  run_closed :
      (n : ℕ) (s : Process c)
      → s.runtime ≡ none
      → run ruby tokio select n s ≡ (fail (new_base_error runtime_is_closed), s)
  unfolding run runtime
  run_closed n s e = rw (e, runtime)

  close_closed :
      (n : ℕ) (s : Process c)
      → s.runtime ≡ none
      → close ruby tokio select n s ≡ (fail (new_base_error runtime_is_closed), s)
  unfolding close
  close_closed n s e = rw (run_closed n s e)

  shutdown_taken_lem :
      (s t : Process c) (rt : Option c.Runtime)
      → shutdown_taken ruby tokio select s rt ≡ (done tt, t)
      → (t.runtime ≡ none) × (t.futures_to_run ≡ s.futures_to_run)
  shutdown_taken_lem s t (some rt) e =
      (sym (ap (λ w. w.1.runtime) e), sym (ap (λ w. w.1.futures_to_run) e))
  shutdown_taken_lem s t none e =
      (sym (ap (λ w. w.1.runtime) e), sym (ap (λ w. w.1.futures_to_run) e))

  -- Under the same conditions on the wait and the VM as for `run`, when a `close` from a free set
  -- succeeds, all futures have been joined and the runtime is gone, so that from then on `run`
  -- and `close` give the error "runtime is closed" and change nothing.
  pub close_once :
      SelectLaws tokio select
      → Keeps ruby FuturesFree
      → (n m : ℕ) (s t : Process c) → FuturesFree s
      → close ruby tokio select n s ≡ (done tt, t)
      → (tokio.tasks t.futures_to_run.value ≡ [])
        × (run ruby tokio select m t ≡ (fail (new_base_error runtime_is_closed), t))
        × (close ruby tokio select m t ≡ (fail (new_base_error runtime_is_closed), t))
  unfolding close shutdown
  close_once laws keeps n m s t f e =
      let (_, u, ran, shut) =
        bind-eq-done (run ruby tokio select n s) (λ _. shutdown ruby tokio select) e in
      let (gone, same) = shutdown_taken_lem u t u.runtime shut in
      (
        rw same (run-empties ruby tokio select laws keeps n s u f ran).0,
        run_closed m t gone,
        close_closed m t gone,
      )
