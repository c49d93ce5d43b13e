-- ===== src/Scheduler/Session/Makers.antt =====
-- A fiber that makes another with `fiber` of ext/shreduler/src/tokio_scheduler/fiber_spawn.rs has to wait for
-- it.
use mathlib.Core.HLevel.{⊥_prop}
use mathlib.Core.List.{mem-cons_self, Mem, Memᴰ}
use mathlib.Core.List.Perm
use mathlib.Core.Logic.{∥∥₁_elim}
use shredular.Base.{true, ◌≡◌, ◌≢◌, ◌⊎◌, inl, inr, sym, ap, ◌∙◌, subst, some}
use shredular.Errors.{Value, ok}
use shredular.Async.{M, done}
use shredular.Ruby.{Ruby}
use shredular.Fiber.{Fiber, unknown, as_unknown}
use shredular.Scheduler.{Carriers, Process, Tokio, TokioLaws}
use shredular.Scheduler.FiberSpawn.{Proc}
use shredular.FiberFuture.{ResumableFiber}
use shredular.Scheduler.Run.{Selected, take_task}
use shredular.Scheduler.Session.Tasks.{take_task-takes}
use shredular.Scheduler.Session.{
  Session, Status, Ledger, Step, Reach, ran, waited, made_by_root, made_by_fiber, ended, gave_back,
  joined_one, lost_one, interrupted_one, start, later, me, Begun, active, finished, making,
}
use shredular.Scheduler.Run.Joins.{fibers, JoinLaws}
use shredular.Scheduler.Run.Waiting.{SelectLaws}
use shredular.Scheduler.Session.Accounted.{Accounted}
use shredular.Scheduler.Session.Chain.{mem-append}
use shredular.Scheduler.Session.Invariant.{session-Accounted}
use shredular.Scheduler.Session.Ledger.{
  key_of, is_active, is_waiting, picks-Mem, Changed-keeps, Changed-Memᴰ, Distinct-status,
}
use shredular.Scheduler.Session.Entries.{Changed-stays}

-- It has not gone over to another status, or the block that it waited for has ended.
abbrev Stays : Fiber unknown → Status → Ledger → Type 0
Stays f r m = Memᴰ (f, r) m ⊎ ((h : Fiber unknown) × (r ≡ making h) × Memᴰ (h, finished) m)

making-injective : {g h : Fiber unknown} → making g ≡ making h → g ≡ h
making-injective e = cc

making_idle : (g : Fiber unknown) → is_active (making g) ≢ true
making_idle g e = cc

making_unlisted : (g : Fiber unknown) → is_waiting (making g) ≢ true
making_unlisted g e = cc

fiber-eq : {f g : Fiber unknown} → f.raw ≡ g.raw → f ≡ g
fiber-eq e = ap (λ (v : Value). record { raw = v }) e

module _ {c : Carriers} (ruby : Ruby (Process c)) (tokio : Tokio c)
    (fiber_new : Proc c → M (Process c) Value) (select : M (Process c) Selected)
    (laws : TokioLaws tokio) (waits : SelectLaws tokio select) (joins : JoinLaws tokio select)
    (root_kept : (s : Process c) → (select s).1.root_fiber ≡ s.root_fiber) where
  abbrev StepIn : Session c → Session c → Type 0
  StepIn = Step ruby tokio fiber_new select

  abbrev ReachIn : Session c → Session c → Type 0
  ReachIn = Reach ruby tokio fiber_new select

  abbrev AccountedIn : Session c → Type 0
  AccountedIn = Accounted ruby tokio

  session : (a b : Session c) → Begun ruby tokio a → ReachIn a b → AccountedIn b
  session = session-Accounted ruby tokio fiber_new select laws waits joins root_kept

  Reach-trans : (a b d : Session c) → ReachIn a b → ReachIn b d → ReachIn a d
  Reach-trans a b d r start = r
  Reach-trans a b d r (later {b = e} s step) = later (Reach-trans a b e r s) step

  -- Of a status in which a fiber neither runs nor waits for a future.
  Step-Stays :
      (a b : Session c) (f : Fiber unknown) (r : Status)
      → StepIn a b
      → r ≢ active
      → r ≢ Status.waiting
      → Memᴰ (f, r) a.ledger
      → Stays f r b.ledger
  Step-Stays a b f r (ran moved is) na nw n = inl (subst (Memᴰ (f, r)) (sym is) n)
  Step-Stays a b f r (waited future handle w root e checked change moved) na nw n =
      inl (Changed-stays change na n)
  Step-Stays a b f r (made_by_root block u h at_root made same other new_one is moved) na nw n =
      inl (subst (Memᴰ (f, r)) (sym is) (mem-append (as_unknown h, active) a.ledger n))
  Step-Stays a b f r (made_by_fiber block u h l off_root made same other new_one change is moved) na
        nw n =
      inl (
        subst (Memᴰ (f, r)) (sym is)
          (mem-append (as_unknown h, active) l (Changed-stays change na n)))
  Step-Stays a b f r (ended alone change moved) na nw n = inl (Changed-stays change na n)
  Step-Stays a b f r (gave_back maker back l first second checked moved) na nw n =
      elim (Changed-keeps first n) [
        | inl mine ↦ inr (me ruby a.process, mine.1, Changed-Memᴰ second)
        | inr still ↦ inl (Changed-stays second na still)
      ]
  Step-Stays a b f r (joined_one x t h at_root took checked change moved) na nw n =
      inl (Changed-stays change nw n)
  Step-Stays a b f r (lost_one e x at_root took gone run change) na nw n =
      inl (Changed-stays change nw n)
  Step-Stays a b f r (interrupted_one e at_root took kept_all run is) na nw n =
      inl (subst (Memᴰ (f, r)) (sym is) n)

  Step-finished :
      (a b : Session c) (g : Fiber unknown)
      → StepIn a b
      → Memᴰ (g, finished) a.ledger
      → Memᴰ (g, finished) b.ledger
  Step-finished a b g step n = elim (Step-Stays a b g finished step (λ e. cc) (λ e. cc) n) [
    | inl still ↦ still
    | inr gone ↦ absurd (finished_maker gone.1)
  ]
    where
      finished_maker : {h : Fiber unknown} → finished ≢ making h
      finished_maker e = cc

  Step-making :
      (a b : Session c) (f g : Fiber unknown)
      → StepIn a b
      → Memᴰ (f, making g) a.ledger
      → Memᴰ (f, making g) b.ledger ⊎ Memᴰ (g, finished) b.ledger
  Step-making a b f g step n = elim (Step-Stays a b f (making g) step (λ e. cc) (λ e. cc) n) [
    | inl still ↦ inl still
    | inr gone ↦ inr (made_of gone)
  ]
    where
      made_of :
          ((h : Fiber unknown) × (making g ≡ making h) × Memᴰ (h, finished) b.ledger)
          → Memᴰ (g, finished) b.ledger
      made_of (h, is, m) =
          subst (λ (k : Fiber unknown). Memᴰ (k, finished) b.ledger) (making-injective (sym is)) m

  Reach-making :
      (a b : Session c) (f g : Fiber unknown)
      → ReachIn a b
      → Memᴰ (f, making g) a.ledger
      → Memᴰ (f, making g) b.ledger ⊎ Memᴰ (g, finished) b.ledger
  Reach-making a b f g start n = inl n
  Reach-making a b f g (later {b = d} reach step) n = elim (Reach-making a d f g reach n) [
    | inl still ↦ Step-making d b f g step still
    | inr over ↦ inr (Step-finished d b g step over)
  ]

  maker_off :
      (b : Session c) (f g : Fiber unknown)
      → AccountedIn b
      → Memᴰ (f, making g) b.ledger
      → ruby.rb_fiber_current b.process ≢ f.raw
  maker_off b f g acc n is = elim (acc.runs) [
    | inl root ↦
        key_of (λ k. k.raw ≢ b.process.root_fiber.raw) b.ledger acc.away n (sym is ∙ root.0)
    | inr mine ↦
        ∥∥₁_elim ((Perm.mem_iff mine.1).1 mem-cons_self) ⊥_prop
          (λ m. active_maker (picks-Mem is_active b.ledger m))
  ]
    where
      active_maker :
          ((p : Status) × (is_active p ≡ true) × Memᴰ (me ruby b.process, p) b.ledger) → ⊥
      active_maker (p, passes, m) = making_idle g (
          subst (λ st. is_active st ≡ true)
            (Distinct-status b.ledger acc.distinct
              (subst (λ (k : Fiber unknown). Memᴰ (k, p) b.ledger) (fiber-eq is) m) n)
            passes)

  -- No task of the set is that of a fiber that waits for one it has made.
  maker_untasked :
      (b : Session c) (f g : Fiber unknown)
      → AccountedIn b
      → Memᴰ (f, making g) b.ledger
      → ¬ Mem f (fibers tokio b.process)
  maker_untasked b f g acc n m =
      ∥∥₁_elim ((Perm.mem_iff acc.tasks).0 m) ⊥_prop
        (λ k. waiting_maker (picks-Mem is_waiting b.ledger k))
    where
      waiting_maker : ((p : Status) × (is_waiting p ≡ true) × Memᴰ (f, p) b.ledger) → ⊥
      waiting_maker (p, passes, k) =
          making_unlisted g
            (subst (λ st. is_waiting st ≡ true) (Distinct-status b.ledger acc.distinct k n) passes)

  -- If tokio keeps to its documentation, and the wait of the loop keeps its guard and the root fiber
  -- and takes out of the set just the task that it joins, then if at some point of a session from
  -- `new` a fiber waits for one that it has made by a call of `fiber`, at every later point it still
  -- does, is not the fiber that runs, has no task in the set, and is the fiber of no future that the
  -- loop can join there, or the block of the fiber that it has made has ended: also while that one
  -- waits for futures of its own.
  pub maker-waits :
      (a b d : Session c) (f g : Fiber unknown)
      → Begun ruby tokio a
      → ReachIn a b
      → Memᴰ (f, making g) b.ledger
      → ReachIn b d
      → (Memᴰ (f, making g) d.ledger
          × (ruby.rb_fiber_current d.process ≢ f.raw)
          × (¬ Mem f (fibers tokio d.process))
          × ((r : ResumableFiber) (t : Process c)
              → take_task ruby tokio select d.process ≡ (done (some (ok r)), t)
              → r.fiber ≢ f))
        ⊎ Memᴰ (g, finished) d.ledger
  maker-waits a b d f g begun reach n more = elim (Reach-making b d f g more n) [
    | inr over ↦ inr over
    | inl still ↦
        let acc = session a d begun (Reach-trans a b d reach more) in
        let untasked = maker_untasked d f g acc still in
        inl (
          still,
          maker_off d f g acc still,
          untasked,
          λ r t took is. untasked (
              subst (λ (k : Fiber unknown). Mem k (fibers tokio d.process)) is
                ((Perm.mem_iff (
                    take_task-takes ruby tokio select waits joins root_kept d.process t r took
                      acc.free)).1
                  mem-cons_self)),
        )
  ]
