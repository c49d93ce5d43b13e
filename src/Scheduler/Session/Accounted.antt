-- ===== src/Scheduler/Session/Accounted.antt =====
-- What stays true in every session of ext/shreduler/src/tokio_scheduler.rs: the tasks of the set against the
-- fibers that wait.
use mathlib.Core.List.{Perm, append-nil}
use mathlib.Core.List.Perm
use shredular.Base.{
  Bool, true, false, ◌≡◌, ◌≢◌, ◌⊎◌, inl, inr, refl, sym, ap, ◌∙◌, subst, List, [], ◌∷◌, ◌++◌, map,
  All, All-append,
}
use shredular.Errors.{ok}
use shredular.Ruby.{Ruby}
use shredular.GcCell.{GcCell}
use shredular.GcCell.Borrowing.{IsFree}
use shredular.Fiber.{Fiber, unknown, suspended, check_suspended}
use shredular.Fiber.Checks.{check_suspended_lem}
use shredular.Scheduler.{Carriers, Process, Tokio}
use shredular.Scheduler.Session.{Session, Status, Ledger, Changed, me, SameSet, active}
use shredular.Scheduler.Run.Joins.{fibers}
use shredular.Scheduler.Run.Waiting.{FuturesFree}
use shredular.Scheduler.Session.Chain.{Chained}
use shredular.Scheduler.Session.Ledger.{
  picks, is_waiting, is_active, picks-append, Changed-in, Changed-back, Changed-keys, Changed-key,
  Distinct,
}

-- Under the old status only, the fiber goes out.
pub Changed-out :
    (test : Status → Bool) {f : Fiber unknown} {p q : Status} {l m : Ledger}
    (xs : List (Fiber unknown))
    → test p ≡ true
    → test q ≡ false
    → Changed f p q l m
    → Perm (f ∷ xs) (picks test l)
    → Perm xs (picks test m)
Changed-out test xs before after c perm =
    Perm.cons_inv (Perm.trans perm (Changed-in test after before (Changed-back c)))

module _ {c : Carriers} (ruby : Ruby (Process c)) (tokio : Tokio c) where
  -- The root fiber runs and no other is active, or the one that runs is the one that is active.
  abbrev pub Runs : Process c → Ledger → Type 0
  Runs s l =
      ((ruby.rb_fiber_current s ≡ s.root_fiber.raw) × Perm (picks is_active l) [])
      ⊎ ((ruby.rb_fiber_current s ≢ s.root_fiber.raw) × Perm (picks is_active l) (me ruby s ∷ []))

  abbrev pub Away : Process c → Ledger → Type 0
  Away s l = All (λ e. e.0.raw ≢ s.root_fiber.raw) l

  -- The set is free, and its tasks are, up to order, those of the fibers that wait; one fiber runs; a maker
  -- waits for a younger fiber that has not ended, and shares it with no other; every fiber is in the ledger
  -- once, the root fiber never.
  pub record Accounted (s : Session c) : Type 0 where
    pub free : FuturesFree s.process
    pub tasks : Perm (fibers tokio s.process) (picks is_waiting s.ledger)
    pub runs : Runs s.process s.ledger
    pub chain : Chained s.ledger
    pub distinct : Distinct s.ledger
    pub away : Away s.process s.ledger

  pub same-FuturesFree : (s t : Process c) → SameSet s t → FuturesFree s → FuturesFree t
  same-FuturesFree s t same f = subst IsFree (sym same.0) f

  pub same-fibers : (s t : Process c) → SameSet s t → fibers tokio t ≡ fibers tokio s
  same-fibers s t same =
      ap (λ (cell : GcCell c.JoinSet). map (λ t. t.fiber) (tokio.tasks cell.value)) same.0

  pub root-Away : (s t : Process c) (l : Ledger) → t.root_fiber ≡ s.root_fiber → Away s l → Away t l
  root-Away s t l same h = subst (λ (r : Fiber unknown). All (λ e. e.0.raw ≢ r.raw) l) (sym same) h

  pub active_runs :
      (s : Process c) (l : Ledger)
      → ruby.rb_fiber_current s ≢ s.root_fiber.raw
      → Runs s l
      → Perm (picks is_active l) (me ruby s ∷ [])
  active_runs s l away (inl r) = absurd (away r.0)
  active_runs s l away (inr r) = r.1

  pub root_idle :
      (s : Process c) (l : Ledger)
      → ruby.rb_fiber_current s ≡ s.root_fiber.raw
      → Runs s l
      → Perm (picks is_active l) []
  root_idle s l is (inl r) = r.1
  root_idle s l is (inr r) = absurd (r.0 is)

  pub Away-key :
      {f : Fiber unknown} {p q : Status} (s : Process c) {l m : Ledger}
      → Changed f p q l m
      → Away s l
      → f.raw ≢ s.root_fiber.raw
  Away-key s change h = Changed-key (λ k. k.raw ≢ s.root_fiber.raw) change h

  pub Changed-Away :
      {f : Fiber unknown} {p q : Status} (s : Process c) {l m : Ledger}
      → Changed f p q l m
      → Away s l
      → Away s m
  Changed-Away s change h = Changed-keys (λ k. k.raw ≢ s.root_fiber.raw) change h

  -- The fiber that runs is active no more.
  pub left_idle :
      {q : Status} (s : Process c) {l m : Ledger}
      → Changed (me ruby s) active q l m
      → is_active q ≡ false
      → Away s l
      → Runs s l
      → Perm (picks is_active m) []
  left_idle s {l} change now h r = Perm.symm (
      Changed-out is_active [] refl now change
        (Perm.symm (active_runs s l (Away-key s change h) r)))

  pub passed :
      (f : Fiber unknown) (g : Fiber suspended) (s : Process c)
      → check_suspended ruby f s ≡ ok g
      → g.raw ≡ f.raw
  passed f g s e = ((check_suspended_lem ruby f s g).0.0 e).2

  pub running_fiber :
      (t : Process c) (f : Fiber unknown) (l : Ledger)
      → ruby.rb_fiber_current t ≡ f.raw
      → f.raw ≢ t.root_fiber.raw
      → Perm (picks is_active l) (f ∷ [])
      → Runs t l
  running_fiber t f l is other p = inr (
    λ e. other (sym is ∙ e),
    subst (λ v. Perm (picks is_active l) (record { raw = v } ∷ [])) (sym is) p,
  )

  pub appended_waiting :
      (g : Fiber unknown) (l : Ledger)
      → picks is_waiting (l ++ (g, active) ∷ []) ≡ picks is_waiting l
  appended_waiting g l =
      picks-append is_waiting l ((g, active) ∷ []) ∙ append-nil (picks is_waiting l)

  pub appended_active :
      (g : Fiber unknown) (l : Ledger)
      → Perm (picks is_active l) []
      → Perm (picks is_active (l ++ (g, active) ∷ [])) (g ∷ [])
  appended_active g l p =
      subst (λ xs. Perm xs (g ∷ [])) (sym (picks-append is_active l ((g, active) ∷ [])))
        (Perm.append_right (g ∷ []) p)

  pub appended-Away :
      (g : Fiber unknown) (s : Process c) (l : Ledger)
      → g.raw ≢ s.root_fiber.raw
      → Away s l
      → Away s (l ++ (g, active) ∷ [])
  appended-Away g s l other h =
      All-append (λ e. e.0.raw ≢ s.root_fiber.raw) l ((g, active) ∷ []) h (other, tt)
