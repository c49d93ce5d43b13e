-- ===== src/Scheduler/Session/Keeps.antt =====
-- The turns of a session of ext/shreduler/src/tokio_scheduler.rs that leave the set as it is keep its
-- fibers accounted for.
use mathlib.Core.List.{Perm}
use mathlib.Core.List.Perm
use shredular.Base.{◌≡◌, ◌≢◌, inl, inr, refl, sym, ap, ◌∙◌, subst, [], ◌∷◌, ◌++◌}
use shredular.Errors.{Value, ok}
use shredular.Ruby.{Ruby}
use shredular.Fiber.{Fiber, unknown, suspended, as_unknown, check_suspended}
use shredular.Scheduler.{Carriers, Process, Tokio}
use shredular.Scheduler.Session.{
  Session, Ledger, Changed, Unmade, me, SameSet, Switched, active, finished, making,
}
use shredular.Scheduler.Run.Joins.{fibers}
use shredular.Scheduler.Session.Accounted.{
  Accounted, Away, Runs, same-FuturesFree, same-fibers, root-Away, active_runs, Away-key,
  Changed-Away, left_idle, passed, running_fiber, appended_waiting, appended_active, appended-Away,
  Changed-out,
}
use shredular.Scheduler.Session.Chain.{Chained, Changed-Chained, Changed-Unmade_now}
use shredular.Scheduler.Session.Ledger.{
  Distinct, picks, is_waiting, is_active, Changed-picks, Changed-in, Changed-Distinct,
}

module _ {c : Carriers} (ruby : Ruby (Process c)) (tokio : Tokio c) where
  abbrev Moved : Process c → Value → Process c → Type 0
  Moved = Switched ruby

  abbrev AccountedIn : Session c → Type 0
  AccountedIn = Accounted ruby tokio

  SameSet-trans : (s t u : Process c) → SameSet s t → SameSet t u → SameSet s u
  SameSet-trans s t u (x, y) (z, w) = (z ∙ x, w ∙ y)

  -- A turn that leaves the set as it is, and that nobody begins or ends to wait in.
  same_set :
      (a b : Session c)
      → SameSet a.process b.process
      → AccountedIn a
      → picks is_waiting b.ledger ≡ picks is_waiting a.ledger
      → Runs ruby tokio b.process b.ledger
      → Chained b.ledger
      → Distinct b.ledger
      → Away ruby tokio a.process b.ledger
      → AccountedIn b
  same_set a b same acc wait runs chain distinct away = record {
    free = same-FuturesFree ruby tokio a.process b.process same acc.free;
    tasks =
        subst (λ xs. Perm xs (picks is_waiting b.ledger))
          (sym (same-fibers ruby tokio a.process b.process same))
          (subst (Perm (fibers tokio a.process)) (sym wait) acc.tasks);
    runs = runs;
    chain = chain;
    distinct = distinct;
    away = root-Away ruby tokio a.process b.process b.ledger same.1 away;
  }

  pub ran-Accounted :
      (a b : Session c)
      → Moved a.process (ruby.rb_fiber_current a.process) b.process
      → b.ledger ≡ a.ledger
      → AccountedIn a
      → AccountedIn b
  ran-Accounted a b (same, run) is acc =
      same_set a b same acc (ap (picks is_waiting) is)
        (subst (λ l. Runs ruby tokio b.process l) (sym is) (kept_runs acc.runs))
        (subst Chained (sym is) acc.chain) (subst Distinct (sym is) acc.distinct)
        (subst (λ l. Away ruby tokio a.process l) (sym is) acc.away)
    where
      kept_runs : Runs ruby tokio a.process a.ledger → Runs ruby tokio b.process a.ledger
      kept_runs (inl r) = inl (run ∙ r.0 ∙ sym (ap (λ (f : Fiber unknown). f.raw) same.1), r.1)
      kept_runs (inr r) = inr (
        λ e. r.0 (sym run ∙ e ∙ ap (λ (f : Fiber unknown). f.raw) same.1),
        subst (λ v. Perm (picks is_active a.ledger) (record { raw = v } ∷ [])) (sym run) r.1,
      )

  -- The transfer to a new fiber, when nobody else is active.
  pub made-Accounted :
      (a b : Session c) (u : Process c) (g : Fiber suspended) (l : Ledger)
      → SameSet a.process u
      → g.raw ≢ a.process.root_fiber.raw
      → b.ledger ≡ l ++ (as_unknown g, active) ∷ []
      → Moved u g.raw b.process
      → AccountedIn a
      → picks is_waiting l ≡ picks is_waiting a.ledger
      → Perm (picks is_active l) []
      → Chained (l ++ (as_unknown g, active) ∷ [])
      → Distinct (l ++ (as_unknown g, active) ∷ [])
      → Away ruby tokio a.process l
      → AccountedIn b
  made-Accounted a b u g l same other is (moved, run) acc wait idle chain distinct away =
      let kept = SameSet-trans a.process u b.process same moved in
      let m : Ledger = l ++ (as_unknown g, active) ∷ [] in
      same_set a b kept acc
        (ap (picks is_waiting) is ∙ appended_waiting ruby tokio (as_unknown g) l ∙ wait)
        (subst (λ x. Runs ruby tokio b.process x) (sym is)
          (running_fiber ruby tokio b.process (as_unknown g) m run
            (λ e. other (e ∙ ap (λ (f : Fiber unknown). f.raw) kept.1))
            (appended_active ruby tokio (as_unknown g) l idle)))
        (subst Chained (sym is) chain) (subst Distinct (sym is) distinct)
        (subst (λ x. Away ruby tokio a.process x) (sym is)
          (appended-Away ruby tokio (as_unknown g) a.process l other away))

  pub ended-Accounted :
      (a b : Session c)
      → Unmade (me ruby a.process) a.ledger
      → Changed (me ruby a.process) active finished a.ledger b.ledger
      → Moved a.process a.process.root_fiber.raw b.process
      → AccountedIn a
      → AccountedIn b
  ended-Accounted a b alone change (same, run) acc =
      same_set a b same acc (sym (Changed-picks is_waiting refl change))
        (inl (
          run ∙ sym (ap (λ (f : Fiber unknown). f.raw) same.1),
          left_idle ruby tokio a.process change refl acc.away acc.runs,
        ))
        (Changed-Chained change tt (λ _. alone) acc.chain) (Changed-Distinct change acc.distinct)
        (Changed-Away ruby tokio a.process change acc.away)

  pub gave_back-Accounted :
      (a b : Session c) (maker : Fiber unknown) (back : Fiber suspended) (l : Ledger)
      → Changed maker (making (me ruby a.process)) active a.ledger l
      → Changed (me ruby a.process) active finished l b.ledger
      → check_suspended ruby maker a.process ≡ ok back
      → Moved a.process back.raw b.process
      → AccountedIn a
      → AccountedIn b
  gave_back-Accounted a b maker back l first second checked (same, run) acc =
      let away = Changed-Away ruby tokio a.process first acc.away in
      let mine =
        active_runs ruby tokio a.process a.ledger (Away-key ruby tokio a.process second away)
          acc.runs in
      same_set a b same acc
        (sym (Changed-picks is_waiting refl first ∙ Changed-picks is_waiting refl second))
        (running_fiber ruby tokio b.process maker b.ledger
          (run ∙ passed ruby tokio maker back a.process checked)
          (λ e.
            Away-key ruby tokio a.process first acc.away
              (e ∙ ap (λ (f : Fiber unknown). f.raw) same.1))
          (Perm.symm (
            Changed-out is_active (maker ∷ []) refl refl second (
              Perm.trans (Perm.swap _ _ []) (
                Perm.symm
                  (Perm.trans (Changed-in is_active refl refl first) (Perm.cons maker mine)))))))
        (Changed-Chained second tt (λ _. Changed-Unmade_now first tt acc.chain)
          (Changed-Chained first tt (λ is. cc) acc.chain))
        (Changed-Distinct second (Changed-Distinct first acc.distinct))
        (Changed-Away ruby tokio a.process second away)
