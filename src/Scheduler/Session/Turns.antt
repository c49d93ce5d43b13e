-- ===== src/Scheduler/Session/Turns.antt =====
-- ext/shreduler/src/tokio_scheduler.rs as a cooperative scheduler: one fiber runs, and others wait in a set
-- that has no order.
use mathlib.Core.HLevel.{⊥_prop}
use mathlib.Core.List.{Perm, Memᴰ, mem-cons_self}
use mathlib.Core.List.Perm
use mathlib.Core.Logic.{∥∥₁_elim}
use mathlib.Mathlib.Data.Multiset.{Multiset, of_list, coe-eq-coe, mem-coe, cons, cons-coe}
use mathlib.Mathlib.Data.Multiset
use shredular.Base.{true, ◌≡◌, ◌≢◌, inl, inr, sym, ap, ◌∙◌, subst, List, ◌∷◌}
use shredular.Errors.{Value}
use shredular.Ruby.{Ruby}
use shredular.Fiber.{Fiber, unknown}
use shredular.Scheduler.{Carriers, Process, Tokio}
use shredular.Scheduler.Session.{Session, Status, SameSet, me}
use shredular.Scheduler.Run.Joins.{fibers}
use shredular.Scheduler.Session.Accounted.{Accounted, same-fibers}
use shredular.Scheduler.Session.Ledger.{is_waiting, is_active, picks-Mem, Distinct-status, key_of}
use shredular.Scheduler.Session.Entries.{only_waiting}

-- The fiber that runs, and those that wait.
pub record View : Type 0 where
  pub running : Fiber unknown
  pub waiters : Multiset (Fiber unknown)

-- A turn: the one that runs waits, and the root fiber runs; the root fiber picks a waiter, which runs; a
-- waiter is lost; or another one runs, or the same, and it is none that waits.
pub data Turn (root : Fiber unknown) (v w : View) : Type 0 where
  waits : v.running ≢ root → w.running ≡ root → w.waiters ≡ cons v.running v.waiters → Turn root v w
  resumes :
      v.running ≡ root → w.running ≢ root → v.waiters ≡ cons w.running w.waiters → Turn root v w
  loses :
      (f : Fiber unknown)
      → v.running ≡ root
      → w.running ≡ root
      → v.waiters ≡ cons f w.waiters
      → Turn root v w
  hands_over : (¬ Multiset.Mem v.waiters w.running) → w.waiters ≡ v.waiters → Turn root v w

pub data Turns (root : Fiber unknown) (v : View) : View → Type 0 where
  at_rest : Turns root v v
  then : {w x : View} → Turns root v w → Turn root w x → Turns root v x

pub of_list-eq :
    {xs ys : List (Fiber unknown)}
    → Perm xs ys
    → ◌≡◌ {A = Multiset (Fiber unknown)} (of_list xs) (of_list ys)
of_list-eq p = coe-eq-coe.1 p

pub of_list-cons :
    (f : Fiber unknown) {xs ys : List (Fiber unknown)}
    → Perm xs (f ∷ ys)
    → ◌≡◌ {A = Multiset (Fiber unknown)} (of_list xs) (cons f (of_list ys))
of_list-cons f {ys} p = of_list-eq p ∙ sym (cons-coe f ys)

pub raw-eq : {f g : Fiber unknown} → f.raw ≡ g.raw → f ≡ g
raw-eq e = ap (λ (v : Value). record { raw = v }) e

waiting_only : is_active Status.waiting ≢ true
waiting_only e = cc

module _ {c : Carriers} (ruby : Ruby (Process c)) (tokio : Tokio c) where
  -- The set of the scheduler in no order, and the fiber that runs in the VM.
  abbrev pub view : Process c → View
  view s = record { running = me ruby s; waiters = of_list (fibers tokio s) }

  pub unlisted :
      (a : Session c) (f : Fiber unknown)
      → Accounted ruby tokio a
      → (Memᴰ (f, Status.waiting) a.ledger → ⊥)
      → ¬ Multiset.Mem (of_list (fibers tokio a.process)) f
  unlisted a f acc idle m = ∥∥₁_elim ((Perm.mem_iff acc.tasks).0 (mem-coe.0 m)) ⊥_prop (λ n.
      let (p, passes, k) = picks-Mem is_waiting a.ledger n in
      idle (subst (λ (st : Status). Memᴰ (f, st) a.ledger) (only_waiting p passes) k))

  pub running_idle :
      (a : Session c)
      → Accounted ruby tokio a
      → Memᴰ (me ruby a.process, Status.waiting) a.ledger
      → ⊥
  running_idle a acc m = elim (acc.runs) [
    | inl root ↦ key_of (λ k. k.raw ≢ a.process.root_fiber.raw) a.ledger acc.away m root.0
    | inr mine ↦ ∥∥₁_elim ((Perm.mem_iff mine.1).1 mem-cons_self) ⊥_prop (λ n.
        let (p, passes, k) = picks-Mem is_active a.ledger n in
        waiting_only
          (subst (λ st. is_active st ≡ true) (Distinct-status a.ledger acc.distinct k m) passes))
  ]

  same-waiters :
      (s t : Process c)
      → SameSet s t
      → ◌≡◌ {A = Multiset (Fiber unknown)} (of_list (fibers tokio t)) (of_list (fibers tokio s))
  same-waiters s t same = ap (λ xs. of_list xs) (same-fibers ruby tokio s t same)

  -- A turn that leaves the set as it is, to a fiber under another status than that of one that waits.
  pub listed_turn :
      (a : Session c) (t : Process c) (f : Fiber unknown) (p : Status)
      → Accounted ruby tokio a
      → SameSet a.process t
      → ruby.rb_fiber_current t ≡ f.raw
      → p ≢ Status.waiting
      → Memᴰ (f, p) a.ledger
      → Turn a.process.root_fiber (view a.process) (view t)
  listed_turn a t f p acc same is other m =
      hands_over
        (subst (λ (g : Fiber unknown). ¬ Multiset.Mem (of_list (fibers tokio a.process)) g)
          (raw-eq (sym is))
          (unlisted a f acc (λ n. other (Distinct-status a.ledger acc.distinct m n))))
        (same-waiters a.process t same)

  -- The same, to a fiber that is not in the ledger.
  pub unlisted_turn :
      (a : Session c) (t : Process c) (f : Fiber unknown)
      → Accounted ruby tokio a
      → SameSet a.process t
      → ruby.rb_fiber_current t ≡ f.raw
      → (Memᴰ (f, Status.waiting) a.ledger → ⊥)
      → Turn a.process.root_fiber (view a.process) (view t)
  unlisted_turn a t f acc same is absent =
      hands_over
        (subst (λ (g : Fiber unknown). ¬ Multiset.Mem (of_list (fibers tokio a.process)) g)
          (raw-eq (sym is)) (unlisted a f acc absent))
        (same-waiters a.process t same)

  pub trans-SameSet : (s t u : Process c) → SameSet s t → SameSet t u → SameSet s u
  trans-SameSet s t u (x, y) (z, w) = (z ∙ x, w ∙ y)
