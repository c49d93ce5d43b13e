-- ===== src/Scheduler/Session/Tasks.antt =====
-- The turns of a session of ext/shreduler/src/tokio_scheduler.rs that add a task to the set or join
-- one keep its fibers accounted for.
use mathlib.Core.List.{Perm, perm_append_singleton, map-append}
use mathlib.Core.List.Perm
use shredular.Base.{ℕ, ◌≡◌, inl, refl, sym, ap, ◌∙◌, subst, [], ◌∷◌, ◌++◌, map, some}
use shredular.Errors.{Value, Error, ok, err}
use shredular.Async.{M, Outcome, done, fail}
use shredular.Async.Rules.{bind-state}
use shredular.Ruby.{Ruby}
use shredular.Fiber.{Fiber, unknown, suspended, check_suspended}
use shredular.FiberFuture.{ResumableFiber}
use shredular.Scheduler.{Carriers, Process, Block, Tokio, TokioLaws, spawn}
use shredular.Scheduler.Run.{
  Selected, Joined, JoinError, take_task, on_selected, wait_held, joined, interrupted,
  release_futures, abort_all_tasks,
}
use shredular.Scheduler.Session.{Session, Status, Changed, me, Switched, active, lost}
use shredular.Scheduler.Spawning.{spawn-IsFree, new_task}
use shredular.Scheduler.Run.Joins.{fibers, JoinLaws, selected_of}
use shredular.Scheduler.Run.Waiting.{
  SelectLaws, FuturesFree, waiting, take_task-IsFree, take_task-eq,
}
use shredular.Scheduler.Session.Accounted.{
  Accounted, same-FuturesFree, same-fibers, root-Away, root_idle, Away-key, Changed-Away, left_idle,
  passed, running_fiber, Changed-out,
}
use shredular.Scheduler.Session.Chain.{Changed-Chained}
use shredular.Scheduler.Session.Ledger.{
  picks, is_waiting, is_active, Changed-picks, Changed-in, Changed-Distinct,
}

module _ {c : Carriers} (ruby : Ruby (Process c)) (tokio : Tokio c) where
  abbrev Moved : Process c → Value → Process c → Type 0
  Moved = Switched ruby

  abbrev AccountedIn : Session c → Type 0
  AccountedIn = Accounted ruby tokio

  module _ (laws : TokioLaws tokio) where
    -- What `spawn` leaves behind.
    abbrev pub Spawned : Process c → Process c → Type 0
    Spawned s w =
        FuturesFree w
        × (fibers tokio w ≡ fibers tokio s ++ me ruby s ∷ [])
        × (w.root_fiber ≡ s.root_fiber)

    pub spawn-Spawned :
        (future : Block c) (handle : ℕ) (s w : Process c)
        → spawn ruby tokio future s ≡ (done handle, w)
        → FuturesFree s
        → Spawned s w
    spawn-Spawned future handle s w e f =
        let (given, added, free, root, _, _, _) = spawn-IsFree ruby tokio laws future s f in
        subst (Spawned s) (ap (λ x. x.1) e) (
          free,
          ap (map (λ t. t.fiber)) added
              ∙ map-append (λ t. t.fiber) (tokio.tasks s.futures_to_run.value)
                  (new_task ruby tokio future s ∷ []),
          root,
        )

    pub waited-Accounted :
        (a b : Session c) (future : Block c) (handle : ℕ) (w : Process c) (root : Fiber suspended)
        → spawn ruby tokio future a.process ≡ (done handle, w)
        → check_suspended ruby w.root_fiber w ≡ ok root
        → Changed (me ruby a.process) active Status.waiting a.ledger b.ledger
        → Moved w root.raw b.process
        → AccountedIn a
        → AccountedIn b
    waited-Accounted a b future handle w root e checked change ((set, kept), run) acc =
        let (free, added, root_kept) = spawn-Spawned future handle a.process w e acc.free in
        record {
          free = same-FuturesFree ruby tokio w b.process (set, kept) free;
          tasks =
              subst (λ xs. Perm xs (picks is_waiting b.ledger))
                (sym (same-fibers ruby tokio w b.process (set, kept) ∙ added))
                (Perm.trans (perm_append_singleton _ (fibers tokio a.process)) (
                  Perm.trans (Perm.cons _ acc.tasks)
                    (Perm.symm (Changed-in is_waiting refl refl change))));
          runs = inl (
            run
                ∙ passed ruby tokio w.root_fiber root w checked
                ∙ ap (λ (f : Fiber unknown). f.raw) (sym kept),
            left_idle ruby tokio a.process change refl acc.away acc.runs,
          );
          chain = Changed-Chained change tt (λ is. cc) acc.chain;
          distinct = Changed-Distinct change acc.distinct;
          away =
              root-Away ruby tokio a.process b.process b.ledger (kept ∙ root_kept)
                (Changed-Away ruby tokio a.process change acc.away);
        }

  module _ (select : M (Process c) Selected) (laws : SelectLaws tokio select)
      (joins : JoinLaws tokio select)
      (root_kept : (s : Process c) → (select s).1.root_fiber ≡ s.root_fiber) where
    abbrev KeepsRoot : Process c → Process c → Type 0
    KeepsRoot s t = t.root_fiber ≡ s.root_fiber

    on_selected-KeepsRoot :
        (s : Process c) (sel : Selected) (t : Process c)
        → KeepsRoot s t
        → KeepsRoot s (on_selected ruby tokio select sel t).1
    unfolding on_selected abort_all_tasks
    on_selected-KeepsRoot s (joined j) t k = k
    on_selected-KeepsRoot s (interrupted e) t k = k

    take_task-KeepsRoot :
        (s : Process c) → FuturesFree s → KeepsRoot s (take_task ruby tokio select s).1
    unfolding release_futures wait_held
    take_task-KeepsRoot s f = rw (take_task-eq ruby tokio select s f) (
        bind-state (KeepsRoot s) (select (waiting s)) (on_selected ruby tokio select)
          (root_kept (waiting s)) (on_selected-KeepsRoot s))

    -- What a join leaves behind.
    abbrev pub Took : Process c → Process c → Type 0
    Took s t = FuturesFree t × KeepsRoot s t

    pub take_task-Took :
        (s t : Process c) (j : Outcome Joined)
        → take_task ruby tokio select s ≡ (j, t)
        → FuturesFree s
        → Took s t
    take_task-Took s t j e f =
        subst (Took s) (ap (λ x. x.1) e)
          (take_task-IsFree ruby tokio select laws s f, take_task-KeepsRoot s f)

    pub take_task-takes :
        (s t : Process c) (r : ResumableFiber)
        → take_task ruby tokio select s ≡ (done (some (ok r)), t)
        → FuturesFree s
        → Perm (fibers tokio s) (r.fiber ∷ fibers tokio t)
    take_task-takes s t r e f =
        let (u, selected, same) = selected_of ruby tokio select (some (ok r)) s t f e in
        subst (λ xs. Perm (fibers tokio s) (r.fiber ∷ xs)) same
          (joins.takes (waiting s) u r selected)

    pub joined_one-Accounted :
        (a b : Session c) (r : ResumableFiber) (t : Process c) (g : Fiber suspended)
        → ruby.rb_fiber_current a.process ≡ a.process.root_fiber.raw
        → take_task ruby tokio select a.process ≡ (done (some (ok r)), t)
        → check_suspended ruby r.fiber t ≡ ok g
        → Changed r.fiber Status.waiting active a.ledger b.ledger
        → Moved t g.raw b.process
        → AccountedIn a
        → AccountedIn b
    joined_one-Accounted a b r t g at_root took checked change (same, run) acc =
        let (free, kept) = take_task-Took a.process t (done (some (ok r))) took acc.free in
        let root = same.1 ∙ kept in
        record {
          free = same-FuturesFree ruby tokio t b.process same free;
          tasks = Changed-out is_waiting (fibers tokio b.process) refl refl change (
              Perm.trans
                (Perm.symm (
                  subst (λ xs. Perm (fibers tokio a.process) (r.fiber ∷ xs))
                    (sym (same-fibers ruby tokio t b.process same))
                    (take_task-takes a.process t r took acc.free)))
                acc.tasks);
          runs =
              running_fiber ruby tokio b.process r.fiber b.ledger
                (run ∙ passed ruby tokio r.fiber g t checked)
                (λ e.
                  Away-key ruby tokio a.process change acc.away
                    (e ∙ ap (λ (f : Fiber unknown). f.raw) root))
                (Perm.trans (Changed-in is_active refl refl change)
                  (Perm.cons r.fiber (root_idle ruby tokio a.process a.ledger at_root acc.runs)));
          chain = Changed-Chained change tt (λ is. cc) acc.chain;
          distinct = Changed-Distinct change acc.distinct;
          away =
              root-Away ruby tokio a.process b.process b.ledger root
                (Changed-Away ruby tokio a.process change acc.away);
        }

    pub lost_one-Accounted :
        (a b : Session c) (e : JoinError) (f : Fiber unknown)
        → ruby.rb_fiber_current a.process ≡ a.process.root_fiber.raw
        → take_task ruby tokio select a.process ≡ (done (some (err e)), b.process)
        → Perm (fibers tokio a.process) (f ∷ fibers tokio b.process)
        → ruby.rb_fiber_current b.process ≡ b.process.root_fiber.raw
        → Changed f Status.waiting lost a.ledger b.ledger
        → AccountedIn a
        → AccountedIn b
    lost_one-Accounted a b e f at_root took gone run change acc =
        let (free, kept) = take_task-Took a.process b.process (done (some (err e))) took acc.free in
        record {
          free = free;
          tasks =
              Changed-out is_waiting (fibers tokio b.process) refl refl change
                (Perm.trans (Perm.symm gone) acc.tasks);
          runs = inl (
            run,
            subst (λ xs. Perm xs []) (Changed-picks is_active refl change)
                (root_idle ruby tokio a.process a.ledger at_root acc.runs),
          );
          chain = Changed-Chained change tt (λ is. cc) acc.chain;
          distinct = Changed-Distinct change acc.distinct;
          away =
              root-Away ruby tokio a.process b.process b.ledger kept
                (Changed-Away ruby tokio a.process change acc.away);
        }

    pub interrupted_one-Accounted :
        (a b : Session c) (e : Error)
        → ruby.rb_fiber_current a.process ≡ a.process.root_fiber.raw
        → take_task ruby tokio select a.process ≡ (fail e, b.process)
        → Perm (fibers tokio a.process) (fibers tokio b.process)
        → ruby.rb_fiber_current b.process ≡ b.process.root_fiber.raw
        → b.ledger ≡ a.ledger
        → AccountedIn a
        → AccountedIn b
    interrupted_one-Accounted a b e at_root took kept_all run is acc =
        let (free, kept) = take_task-Took a.process b.process (fail e) took acc.free in
        record {
          free = free;
          tasks = rw is (Perm.trans (Perm.symm kept_all) acc.tasks);
          runs = inl (run, rw is (root_idle ruby tokio a.process a.ledger at_root acc.runs));
          chain = rw is acc.chain;
          distinct = rw is acc.distinct;
          away = root-Away ruby tokio a.process b.process b.ledger kept (rw is acc.away);
        }
