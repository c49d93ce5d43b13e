-- ===== src/Scheduler/Run/Frames.antt =====
-- What the loop of ext/shreduler/src/tokio_scheduler/close.rs leaves of the guard of the set.
use shredular.Base.{ℕ, zero, suc, Bool, true, false, some, none}
use shredular.Errors.{ok, err}
use shredular.Async.{M}
use shredular.Async.Rules.{bind-state}
use shredular.Ruby.{Ruby}
use shredular.FiberFuture.Frames.{Keeps, resume_if_alive-keeps}
use shredular.Scheduler.{Carriers, Process, Tokio}
use shredular.Scheduler.Run.Waiting.{SelectLaws, FuturesFree, take_task-IsFree}
use shredular.Scheduler.Run.{Joined, Selected, dispatch, round, run_loop, continue}

continue-state :
    {S : Type 0} (Q : S → Type 0) (rest : M S (Unit {0})) (b : Bool) (s : S)
    → Q s
    → Q (rest s).1
    → Q (continue rest b s).1
continue-state Q rest true s q r = r
continue-state Q rest false s q r = q

module _ {c : Carriers} (ruby : Ruby (Process c)) (tokio : Tokio c)
    (select : M (Process c) Selected) where
  module _ (laws : SelectLaws tokio select) (keeps : Keeps ruby FuturesFree) where
    dispatch-IsFree :
        (j : Joined) (s : Process c)
        → FuturesFree s
        → FuturesFree (dispatch ruby tokio select j s).1
    unfolding dispatch
    dispatch-IsFree none s f = f
    dispatch-IsFree (some (err e)) s f = f
    dispatch-IsFree (some (ok r)) s f =
        bind-state FuturesFree _ _ (resume_if_alive-keeps ruby FuturesFree keeps r s f)
          (λ a t ft. ft)

    pub round-IsFree : (s : Process c) → FuturesFree s → FuturesFree (round ruby tokio select s).1
    unfolding round
    round-IsFree s f =
        bind-state FuturesFree _ _ (take_task-IsFree ruby tokio select laws s f) dispatch-IsFree

    pub run_loop-IsFree :
        (n : ℕ) (s : Process c) → FuturesFree s → FuturesFree (run_loop ruby tokio select n s).1
    unfolding run_loop
    run_loop-IsFree zero s f = f
    run_loop-IsFree (suc n) s f =
        bind-state FuturesFree (round ruby tokio select s) _ (round-IsFree s f)
          (λ b t ft. continue-state FuturesFree _ b t ft (run_loop-IsFree n t ft))
