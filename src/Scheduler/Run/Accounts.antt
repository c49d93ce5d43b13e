-- ===== src/Scheduler/Run/Accounts.antt =====
-- What becomes of every task in the loop of ext/shreduler/src/tokio_scheduler/close.rs.
use mathlib.Core.List.{Perm, perm_middle, append_assoc}
use mathlib.Core.List.Perm
use shredular.Base.{
  ℕ, zero, suc, ◌≡◌, refl, sym, subst, ap, ◌∙◌, List, [], ◌∷◌, ◌++◌, length, Bool, some, none,
}
use shredular.Errors.{ok, err}
use shredular.Async.{M, Outcome, done}
use shredular.Async.Rules.{bind-eq-done}
use shredular.Ruby.{Ruby}
use shredular.Fiber.{Fiber, unknown}
use shredular.FiberFuture.{ResumableFiber}
use shredular.FiberFuture.Frames.{Keeps}
use shredular.Scheduler.{Carriers, Process, Tokio}
use shredular.Scheduler.Run.Waiting.{SelectLaws, FuturesFree, waiting}
use shredular.Scheduler.Run.Frames.{round-IsFree}
use shredular.Scheduler.Run.Joins.{
  fibers, JoinLaws, Grows, spawned_between, selected_of, dispatch-more, dispatch_err,
  dispatch-spawned,
}
use shredular.Scheduler.Run.{Joined, Selected, run_loop, round, take_task, dispatch, continue}

-- The fibers of the futures that the rounds of a loop dispatch, in that order, those of the tasks that
-- are spawned while they are dispatched, and how many tasks could not be joined.
pub record History : Type 0 where
  pub dispatched : List (Fiber unknown)
  pub spawned : List (Fiber unknown)
  pub failed : ℕ

abbrev no_history : History
no_history = record { dispatched = []; spawned = []; failed = 0 }

module _ {c : Carriers} (ruby : Ruby (Process c)) (tokio : Tokio c)
    (select : M (Process c) Selected) where
  abbrev pub after_take : (Process c → History) → Outcome Joined × Process c → History
  after_take rest (done (some (ok r)), t) =
      let u = (dispatch ruby tokio select (some (ok r)) t).1 in
      let later = rest u in
      record {
        dispatched = r.fiber ∷ later.dispatched;
        spawned = spawned_between ruby tokio select t u ++ later.spawned;
        failed = later.failed;
      }
  after_take rest (done (some (err e)), t) =
      let later = rest t in record later { failed = suc later.failed }
  after_take rest (_, t) = no_history

  unfoldable pub history : ℕ → Process c → History
  history zero s = no_history
  history (suc n) s = after_take (history n) (take_task ruby tokio select s)

  -- What was in the set and what came in is what was dispatched and one task for each failure to join.
  abbrev pub IsBalanced : Process c → History → Type 0
  IsBalanced s h =
      (lost : List (Fiber unknown)) × (length lost ≡ h.failed)
      × Perm (fibers tokio s ++ h.spawned) (h.dispatched ++ lost)

  module _ (laws : SelectLaws tokio select) (joins : JoinLaws tokio select) where
    module _ (keeps : Keeps ruby FuturesFree)
        (grows : (s : Process c) → Keeps ruby (Grows tokio s)) where
      -- One dispatched future, and the rounds after it.
      one_more :
          (r : ResumableFiber) (s v u : Process c) (later : History)
          → Perm (fibers tokio s) (r.fiber ∷ fibers tokio v)
          → fibers tokio u ≡ fibers tokio v ++ spawned_between ruby tokio select v u
          → IsBalanced u later
          → IsBalanced s (record later {
            dispatched = r.fiber ∷ later.dispatched;
            spawned = spawned_between ruby tokio select v u ++ later.spawned;
          })
      one_more r s v u later took added (lost, counted, rest) = (
        lost,
        counted,
        Perm.trans (Perm.append_right (spawned_between ruby tokio select v u ++ later.spawned) took)
            (Perm.cons r.fiber (
              subst (λ xs. Perm xs (later.dispatched ++ lost))
                (ap (λ xs. xs ++ later.spawned) added
                  ∙ append_assoc (fibers tokio v) (spawned_between ruby tokio select v u)
                      later.spawned)
                rest)),
      )

      -- One failure to join, and the rounds after it.
      one_less :
          (s v : Process c) (later : History)
          → ((f : Fiber unknown) × Perm (fibers tokio s) (f ∷ fibers tokio v))
          → IsBalanced v later
          → IsBalanced s (record later { failed = suc later.failed })
      one_less s v later (f, took) (lost, counted, rest) = (
        f ∷ lost,
        ap suc counted,
        Perm.trans (Perm.append_right later.spawned took)
            (Perm.trans (Perm.cons f rest) (Perm.symm (perm_middle later.dispatched lost))),
      )

      after_join :
          (n : ℕ) (j : Joined) (more : Bool) (s v u t : Process c)
          → FuturesFree s
          → take_task ruby tokio select s ≡ (done j, v)
          → dispatch ruby tokio select j v ≡ (done more, u)
          → continue (run_loop ruby tokio select n) more u ≡ (done tt, t)
          → (run_loop ruby tokio select n u ≡ (done tt, t) → IsBalanced u (history n u))
          → IsBalanced s (after_take (history n) (done j, v))
      after_join n none more s v u t f took disp rest later =
          let (w, selected, same) = selected_of ruby tokio select none s v f took in
          ([], refl, rw (joins.gives (waiting s) w selected) (Perm.refl []))
      after_join n (some (err x)) more s v u t f took disp rest later =
          let (w, selected, same) = selected_of ruby tokio select (some (err x)) s v f took in
          let (on, is_u) = dispatch_err ruby tokio select x more v u disp in
          let ended : run_loop ruby tokio select n u ≡ (done tt, t) =
            subst (λ b. continue (run_loop ruby tokio select n) b u ≡ (done tt, t)) on rest in
          let (g, gone) = joins.loses (waiting s) w x selected in
          one_less s v (history n v) (g, subst (λ xs. Perm (fibers tokio s) (g ∷ xs)) same gone)
            (subst (λ (x : Process c). IsBalanced x (history n x)) (sym is_u) (later ended))
      after_join n (some (ok r)) more s v u t f took disp rest later =
          let (w, selected, same) = selected_of ruby tokio select (some (ok r)) s v f took in
          let on : run_loop ruby tokio select n u ≡ (done tt, t) =
            subst (λ b. continue (run_loop ruby tokio select n) b u ≡ (done tt, t))
              (dispatch-more ruby tokio select r more v u disp) rest in
          let d : Process c = (dispatch ruby tokio select (some (ok r)) v).1 in
          one_more r s v d (history n d)
            (subst (λ xs. Perm (fibers tokio s) (r.fiber ∷ xs)) same
              (joins.takes (waiting s) w r selected))
            (dispatch-spawned ruby tokio select grows (some (ok r)) v)
            (subst (λ (x : Process c). IsBalanced x (history n x)) (sym (ap (λ x. x.1) disp))
              (later on))

      -- If the wait keeps its guard and takes out of the set just the task that it joins, and calls of the
      -- VM leave the set free and only add tasks to it, then in a loop that succeeds from a free set the
      -- fibers of the tasks in the set at the start and of the tasks spawned while it dispatches are,
      -- up to order and as often, those of the futures that it dispatches and of as many more tasks as
      -- could not be joined, which are never resumed: no other future is lost, and none is dispatched
      -- twice.
      pub run_loop-history :
          (n : ℕ) (s t : Process c)
          → FuturesFree s
          → run_loop ruby tokio select n s ≡ (done tt, t)
          → IsBalanced s (history n s)
      unfolding run_loop history round
      run_loop-history zero s t f e = cc
      run_loop-history (suc n) s t f e =
          let (more, u, rounded, rest) =
            bind-eq-done (round ruby tokio select s) (continue (run_loop ruby tokio select n)) e in
          let (j, v, took, disp) =
            bind-eq-done (take_task ruby tokio select s) (dispatch ruby tokio select) rounded in
          let u_free : FuturesFree u =
            subst FuturesFree (ap (λ w. w.1) rounded)
              (round-IsFree ruby tokio select laws keeps s f) in
          rw took
            (after_join n j more s v u t f took disp rest (λ on. run_loop-history n u t u_free on))
