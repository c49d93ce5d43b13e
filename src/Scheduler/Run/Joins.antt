-- ===== src/Scheduler/Run/Joins.antt =====
-- What the joins and the dispatches of a round of ext/shreduler/src/tokio_scheduler/close.rs do to the
-- tasks of the set.
use mathlib.Core.List.{Perm, append-nil}
use shredular.Base.{
  ◌≡◌, refl, sym, ap, ◌∙◌, List, [], ◌∷◌, ◌++◌, map, length, drop, Bool, true, some, none,
}
use shredular.Errors.{Error, ok, err}
use shredular.Async.{M, done, pure}
use shredular.Async.Rules.{bind-eq-done, after-eq-done, bind-state}
use shredular.Ruby.{Ruby}
use shredular.Fiber.{Fiber, unknown}
use shredular.FiberFuture.{ResumableFiber, resume_if_alive}
use shredular.FiberFuture.Frames.{Keeps, resume_if_alive-keeps}
use shredular.GcCell.{drop_ref_mut}
use shredular.Scheduler.{Carriers, Process, Tokio}
use shredular.Scheduler.Run.Waiting.{FuturesFree, waiting, take_task-eq}
use shredular.Scheduler.Run.{
  Joined, JoinError, Selected, joined, interrupted, take_task, wait_held, on_selected,
  release_futures, dispatch,
}

-- The fibers of the tasks that are not yet joined.
abbrev pub fibers : {c : Carriers} → Tokio c → Process c → List (Fiber unknown)
fibers tokio s = map (λ t. t.fiber) (tokio.tasks s.futures_to_run.value)

-- `join_next` takes just the task out that it gives, also one that has panicked or was aborted, gives
-- nothing for an empty set, and takes none out when another branch of `select!` comes first.
pub record JoinLaws {c : Carriers} (tokio : Tokio c) (select : M (Process c) Selected)
    : Type 0 where
  pub takes :
      (s t : Process c) (r : ResumableFiber)
      → select s ≡ (done (joined (some (ok r))), t)
      → Perm (fibers tokio s) (r.fiber ∷ fibers tokio t)
  pub loses :
      (s t : Process c) (e : JoinError)
      → select s ≡ (done (joined (some (err e))), t)
      → (f : Fiber unknown) × Perm (fibers tokio s) (f ∷ fibers tokio t)
  pub gives : (s t : Process c) → select s ≡ (done (joined none), t) → fibers tokio s ≡ []
  pub spares :
      (s t : Process c) (e : Error)
      → select s ≡ (done (interrupted e), t)
      → Perm (fibers tokio s) (fibers tokio t)

-- Tasks were added, and none taken out.
abbrev pub Grows : {c : Carriers} → Tokio c → Process c → Process c → Type 0
Grows tokio s t = (new : List (Fiber unknown)) × (fibers tokio t ≡ fibers tokio s ++ new)

drop-append : {A : Type 0} (xs ys : List A) → drop (length xs) (xs ++ ys) ≡ ys
drop-append [] ys = refl
drop-append (x ∷ xs) ys = drop-append xs ys

module _ {c : Carriers} (ruby : Ruby (Process c)) (tokio : Tokio c)
    (select : M (Process c) Selected) where
  abbrev pub spawned_between : Process c → Process c → List (Fiber unknown)
  spawned_between s t = drop (length (fibers tokio s)) (fibers tokio t)

  on_selected-done :
      (sel : Selected) (j : Joined) (s t : Process c)
      → on_selected ruby tokio select sel s ≡ (done j, t)
      → (sel ≡ joined j) × (s ≡ t)
  unfolding on_selected
  on_selected-done (joined x) j s t e = (cc, cc)
  on_selected-done (interrupted x) j s t e = cc

  -- What the wait gave, from what the guarded block gave.
  pub selected_of :
      (j : Joined) (s t : Process c)
      → FuturesFree s
      → take_task ruby tokio select s ≡ (done j, t)
      → (u : Process c) × (select (waiting s) ≡ (done (joined j), u))
        × (fibers tokio u ≡ fibers tokio t)
  unfolding wait_held release_futures drop_ref_mut
  selected_of j s t f e =
      let (u, waited, released) =
        after-eq-done (wait_held ruby tokio select (waiting s)) (release_futures ruby tokio select)
          (sym (take_task-eq ruby tokio select s f) ∙ e) in
      let (sel, v, selected, given) =
        bind-eq-done (select (waiting s)) (on_selected ruby tokio select) waited in
      let (is_joined, same) = on_selected-done sel j v u given in
      (u, cc, ap (fibers tokio) released)

  pub dispatch-more :
      (r : ResumableFiber) (b : Bool) (s t : Process c)
      → dispatch ruby tokio select (some (ok r)) s ≡ (done b, t)
      → b ≡ true
  unfolding dispatch
  dispatch-more r b s t e =
      let (_, _, _, given) = bind-eq-done (resume_if_alive ruby r s) (λ _. pure true) e in cc

  pub dispatch_err :
      (x : JoinError) (b : Bool) (s t : Process c)
      → dispatch ruby tokio select (some (err x)) s ≡ (done b, t)
      → (b ≡ true) × (s ≡ t)
  unfolding dispatch
  dispatch_err x b s t e = (cc, cc)

  module _ (grows : (s : Process c) → Keeps ruby (Grows tokio s)) where
    dispatch-Grows : (j : Joined) (s : Process c) → Grows tokio s (dispatch ruby tokio select j s).1
    unfolding dispatch
    dispatch-Grows none s = ([], sym (append-nil (fibers tokio s)))
    dispatch-Grows (some (err e)) s = ([], sym (append-nil (fibers tokio s)))
    dispatch-Grows (some (ok r)) s =
        bind-state (Grows tokio s) (resume_if_alive ruby r s) (λ _. pure true)
          (resume_if_alive-keeps ruby (Grows tokio s) (grows s) r s
            ([], sym (append-nil (fibers tokio s))))
          (λ _ t g. g)

    pub dispatch-spawned :
        (j : Joined) (s : Process c)
        → let t = (dispatch ruby tokio select j s).1 in
          fibers tokio t ≡ fibers tokio s ++ spawned_between s t
    dispatch-spawned j s =
        let t : Process c = (dispatch ruby tokio select j s).1 in
        let (new, added) = dispatch-Grows j s in
        added
        ∙ ap (λ x. fibers tokio s ++ x)
            (sym (ap (drop (length (fibers tokio s))) added ∙ drop-append (fibers tokio s) new))
