-- ===== src/Scheduler/Session/Refines.antt =====
-- The sessions of ext/shreduler/src/tokio_scheduler.rs take the turns of a cooperative scheduler.
use mathlib.Core.List.{Perm, cons≢nil, perm_append_singleton}
use mathlib.Core.List.Perm
use mathlib.Mathlib.Data.Multiset.{Multiset, of_list}
use mathlib.Mathlib.Data.Multiset
use shredular.Base.{◌≡◌, ◌≢◌, inl, inr, refl, sym, ap, ◌∙◌, subst, [], ◌∷◌, some}
use shredular.Errors.{Value, ok, err}
use shredular.Async.{M, done, fail}
use shredular.Ruby.{Ruby}
use shredular.Fiber.{Fiber, unknown, as_unknown}
use shredular.Scheduler.{Carriers, Process, Tokio, TokioLaws}
use shredular.Scheduler.FiberSpawn.{Proc}
use shredular.Scheduler.Run.{Selected}
use shredular.Scheduler.Session.{
  Session, Step, Reach, Begun, making, me, ran, waited, made_by_root, made_by_fiber, ended,
  gave_back, joined_one, lost_one, interrupted_one, start, later,
}
use shredular.Scheduler.Run.Joins.{fibers, JoinLaws}
use shredular.Scheduler.Run.Waiting.{SelectLaws}
use shredular.Scheduler.Session.Accounted.{Accounted, same-fibers, Away-key, passed}
use shredular.Scheduler.Session.Invariant.{session-Accounted}
use shredular.Scheduler.Session.Ledger.{
  picks, is_waiting, is_active, Fresh-absent, key_of, Changed-Memᴰ, Changed-back,
}
use shredular.Scheduler.Session.Tasks.{spawn-Spawned, take_task-takes, take_task-Took}
use shredular.Scheduler.Session.Turns.{
  View, Turn, waits, resumes, loses, hands_over, unlisted, Turns, at_rest, then, of_list-cons,
  of_list-eq, raw-eq, view, running_idle, listed_turn, unlisted_turn, trans-SameSet,
}

module _ {c : Carriers} (ruby : Ruby (Process c)) (tokio : Tokio c)
    (fiber_new : Proc c → M (Process c) Value) (select : M (Process c) Selected)
    (laws : TokioLaws tokio) (sel_laws : SelectLaws tokio select) (joins : JoinLaws tokio select)
    (root_kept : (s : Process c) → (select s).1.root_fiber ≡ s.root_fiber) where
  abbrev StepIn : Session c → Session c → Type 0
  StepIn = Step ruby tokio fiber_new select

  abbrev ReachIn : Session c → Session c → Type 0
  ReachIn = Reach ruby tokio fiber_new select

  -- It is a turn, and the root fiber stays the same.
  abbrev Turned : Session c → Session c → Type 0
  Turned a b =
      Turn a.process.root_fiber (view ruby tokio a.process) (view ruby tokio b.process)
      × (b.process.root_fiber ≡ a.process.root_fiber)

  Step-Turn : (a b : Session c) → Accounted ruby tokio a → StepIn a b → Turned a b
  Step-Turn a b acc (ran (same, run) is) = (
    unlisted_turn ruby tokio a b.process (me ruby a.process) acc same run
        (running_idle ruby tokio a acc),
    same.1,
  )
  Step-Turn a b acc (waited future handle w root e checked change (same, run)) =
      let (free, added, kept) =
        spawn-Spawned ruby tokio laws future handle a.process w e acc.free in
      (
        waits (λ is. Away-key ruby tokio a.process change acc.away (ap (λ f. f.raw) is))
            (raw-eq (run ∙ passed ruby tokio w.root_fiber root w checked) ∙ kept)
            (of_list-cons (me ruby a.process) (
              subst (λ xs. Perm xs (me ruby a.process ∷ fibers tokio a.process))
                (sym (same-fibers ruby tokio w b.process same ∙ added))
                (perm_append_singleton (me ruby a.process) (fibers tokio a.process)))),
        same.1 ∙ kept,
      )
  Step-Turn a b acc (made_by_root block u g at_root made same other new_one is (moved, run)) =
      let kept = trans-SameSet ruby tokio a.process u b.process same moved in
      (
        unlisted_turn ruby tokio a b.process (as_unknown g) acc kept run
            (Fresh-absent a.ledger new_one),
        kept.1,
      )
  Step-Turn a b acc
        (made_by_fiber block u g l off_root made same other new_one change is (moved, run)) =
      let kept = trans-SameSet ruby tokio a.process u b.process same moved in
      (
        unlisted_turn ruby tokio a b.process (as_unknown g) acc kept run
            (Fresh-absent a.ledger new_one),
        kept.1,
      )
  Step-Turn a b acc (ended alone change (same, run)) = (
    unlisted_turn ruby tokio a b.process a.process.root_fiber acc same run
        (λ m. key_of (λ k. k.raw ≢ a.process.root_fiber.raw) a.ledger acc.away m refl),
    same.1,
  )
  Step-Turn a b acc (gave_back maker back l first second checked (same, run)) = (
    listed_turn ruby tokio a b.process maker (making (me ruby a.process)) acc same
        (run ∙ passed ruby tokio maker back a.process checked) (λ e. cc)
        (Changed-Memᴰ (Changed-back first)),
    same.1,
  )
  Step-Turn a b acc (joined_one r t g at_root took checked change (same, run)) =
      let (free, kept) =
        take_task-Took ruby tokio select sel_laws joins root_kept a.process t (done (some (ok r)))
          took acc.free in
      let is : me ruby b.process ≡ r.fiber = raw-eq (run ∙ passed ruby tokio r.fiber g t checked) in
      (
        resumes (raw-eq at_root)
            (λ e. Away-key ruby tokio a.process change acc.away (ap (λ f. f.raw) (sym is ∙ e)))
            (of_list-cons (me ruby b.process) (
              subst (λ f. Perm (fibers tokio a.process) (f ∷ fibers tokio b.process)) (sym is)
                (subst (λ xs. Perm (fibers tokio a.process) (r.fiber ∷ xs))
                  (sym (same-fibers ruby tokio t b.process same))
                  (take_task-takes ruby tokio select sel_laws joins root_kept a.process t r took
                    acc.free)))),
        same.1 ∙ kept,
      )
  Step-Turn a b acc (lost_one e f at_root took gone run change) =
      let (free, kept) =
        take_task-Took ruby tokio select sel_laws joins root_kept a.process b.process
          (done (some (err e))) took acc.free in
      (loses f (raw-eq at_root) (raw-eq run ∙ kept) (of_list-cons f gone), kept)
  Step-Turn a b acc (interrupted_one e at_root took kept_all run is) =
      let (free, kept) =
        take_task-Took ruby tokio select sel_laws joins root_kept a.process b.process (fail e) took
          acc.free in
      let same : me ruby b.process ≡ me ruby a.process =
        raw-eq (run ∙ ap (λ (f : Fiber unknown). f.raw) kept ∙ sym at_root) in
      (
        hands_over
            (subst (λ (g : Fiber unknown). ¬ Multiset.Mem (of_list (fibers tokio a.process)) g)
              (sym same)
              (unlisted ruby tokio a (me ruby a.process) acc (running_idle ruby tokio a acc)))
            (sym (of_list-eq kept_all)),
        kept,
      )

  Reach-Turns :
      (a b : Session c)
      → Begun ruby tokio a
      → ReachIn a b
      → Turns a.process.root_fiber (view ruby tokio a.process) (view ruby tokio b.process)
        × (b.process.root_fiber ≡ a.process.root_fiber)
  Reach-Turns a b g start = (at_rest, refl)
  Reach-Turns a b g (later {b = d} reach step) =
      let (turns, kept) = Reach-Turns a d g reach in
      let acc =
        session-Accounted ruby tokio fiber_new select laws sel_laws joins root_kept a d g reach in
      let (turn, root_same) = Step-Turn d b acc step in
      (
        then turns
            (subst (λ r. Turn r (view ruby tokio d.process) (view ruby tokio b.process)) kept turn),
        root_same ∙ kept,
      )

  begins_at_root :
      (a : Session c)
      → Begun ruby tokio a
      → view ruby tokio a.process ≡ record { running = a.process.root_fiber; waiters = of_list [] }
  begins_at_root a g =
      let acc =
        session-Accounted ruby tokio fiber_new select laws sel_laws joins root_kept a a g start in
      view-eq
        (of_list-eq
          (subst (λ l. Perm (fibers tokio a.process) (picks is_waiting l)) g.no_fibers acc.tasks))
        (elim (acc.runs) [
          | inl root ↦ raw-eq root.0
          | inr mine ↦ absurd (
              cons≢nil (
                sym (
                  Perm.nil-eq (
                    subst (λ l. Perm (picks is_active l) (me ruby a.process ∷ [])) g.no_fibers
                      mine.1))))
        ])
    where
      view-eq :
          {v : View} {f : Fiber unknown} {m : Multiset (Fiber unknown)}
          → v.waiters ≡ m
          → v.running ≡ f
          → v ≡ record { running = f; waiters = m }
      view-eq p q i = record { running = q i; waiters = p i }

  -- If tokio keeps to its documentation, and the wait of the loop keeps its guard and the root fiber
  -- and takes out of the set just the task that it joins, then a session from `new` is a run of a
  -- cooperative scheduler that keeps the fibers of its tasks in no order: from no waiters, with the
  -- root fiber running, the one that runs is added to the waiters and the root fiber runs, or the
  -- root fiber picks a waiter, which is taken out and runs, or a waiter is lost; or else the waiters
  -- stay, and none of them runs.
  pub session-Turns :
      (a b : Session c)
      → Begun ruby tokio a
      → ReachIn a b
      → (view ruby tokio a.process
          ≡ record { running = a.process.root_fiber; waiters = of_list [] })
        × Turns a.process.root_fiber (view ruby tokio a.process) (view ruby tokio b.process)
        × (b.process.root_fiber ≡ a.process.root_fiber)
  session-Turns a b g reach =
      let (turns, kept) = Reach-Turns a b g reach in (begins_at_root a g, turns, kept)
