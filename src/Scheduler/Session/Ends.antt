-- ===== src/Scheduler/Session/Ends.antt =====
-- What the sessions of ext/shreduler/src/tokio_scheduler.rs come to: who is resumed, and who has ended when
-- the set is empty.
use mathlib.Core.HLevel.{⊥_prop}
use mathlib.Core.List.{Memᴰ, cons≢nil, mem-cons_self, Nodup-cons, Perm, Mem}
use mathlib.Core.List.Perm
use mathlib.Core.Logic.{∥∥₁_elim}
use shredular.Base.{
  Bool-cases, if◌then◌else◌, inl, inr, Bool, false, refl, ap, ◌∷◌, ◌≡◌, ◌≢◌, sym, ◌∙◌, subst, [],
  some, none, All,
}
use shredular.Errors.{Value, ok}
use shredular.Async.{M, done}
use shredular.Ruby.{Ruby}
use shredular.Fiber.{Fiber, unknown}
use shredular.FiberFuture.{ResumableFiber}
use shredular.Scheduler.{Carriers, Process, Tokio, TokioLaws}
use shredular.Scheduler.FiberSpawn.{Proc}
use shredular.Scheduler.Run.{Selected, take_task}
use shredular.Scheduler.Session.{
  Status, Ledger, active, lost, making, Session, Step, Reach, Begun, finished,
}
use shredular.Scheduler.Run.Joins.{fibers, JoinLaws, selected_of}
use shredular.Scheduler.Run.Waiting.{SelectLaws, waiting}
use shredular.Scheduler.Session.Accounted.{Accounted, root_idle}
use shredular.Scheduler.Session.Chain.{Chained, MadeIn}
use shredular.Scheduler.Session.Invariant.{session-Accounted}
use shredular.Scheduler.Session.Ledger.{
  picks-Nodup, key_of, picks, is_waiting, is_active, picks-Mem, is_lost,
}
use shredular.Scheduler.Session.Tasks.{take_task-takes}

ended_at :
    {g : Fiber unknown} {p : Status} (l : Ledger)
    → All (λ e. e.1 ≡ finished) l
    → Memᴰ (g, p) l
    → p ≡ finished
ended_at [] h m = elim m [ ]
ended_at (e ∷ l) h (Memᴰ.head x) = ap (λ k. k.1) x ∙ h.0
ended_at (e ∷ l) h (Memᴰ.tail m) = ended_at l h.1 m

ended_status :
    (st : Status) (l : Ledger)
    → All (λ e. e.1 ≡ finished) l
    → MadeIn st l
    → is_waiting st ≡ false
    → is_active st ≡ false
    → is_lost st ≡ false
    → st ≡ finished
ended_status active l done_all h w a o = cc
ended_status Status.waiting l done_all h w a o = cc
ended_status lost l done_all h w a o = cc
ended_status finished l done_all h w a o = refl
ended_status (making g) l done_all ((p, m, open_yet), u) w a o =
    absurd (open_yet (ended_at l done_all m))

picks_none :
    (test : Status → Bool) (e : Fiber unknown × Status) (l : Ledger)
    → picks test (e ∷ l) ≡ []
    → (test e.1 ≡ false) × (picks test l ≡ [])
picks_none test e l none_picked = elim (Bool-cases (test e.1)) [
  | inl taken ↦ absurd (
      cons≢nil
        (subst (λ b. (if b then e.0 ∷ picks test l else picks test l) ≡ []) taken none_picked))
  | inr skipped ↦ (
    skipped,
    subst (λ b. (if b then e.0 ∷ picks test l else picks test l) ≡ []) skipped none_picked,
  )
]

-- A chain in which nobody waits for a future, runs or is lost has come to its end.
Chained-ended :
    (l : Ledger)
    → Chained l
    → picks is_waiting l ≡ []
    → picks is_active l ≡ []
    → picks is_lost l ≡ []
    → All (λ e. e.1 ≡ finished) l
Chained-ended [] h w a o = tt
Chained-ended (e ∷ l) h w a o =
    let (not_waiting, waits) = picks_none is_waiting e l w in
    let (not_active, runs) = picks_none is_active e l a in
    let (not_lost, losses) = picks_none is_lost e l o in
    let rest = Chained-ended l h.1 waits runs losses in
    (ended_status e.1 l rest h.0 not_waiting not_active not_lost, rest)

module _ {c : Carriers} (ruby : Ruby (Process c)) (tokio : Tokio c)
    (fiber_new : Proc c → M (Process c) Value) (select : M (Process c) Selected)
    (laws : TokioLaws tokio) (waits : SelectLaws tokio select) (joins : JoinLaws tokio select)
    (root_kept : (s : Process c) → (select s).1.root_fiber ≡ s.root_fiber) where
  abbrev StepIn : Session c → Session c → Type 0
  StepIn = Step ruby tokio fiber_new select

  abbrev ReachIn : Session c → Session c → Type 0
  ReachIn = Reach ruby tokio fiber_new select

  abbrev AccountedIn : Session c → Type 0
  AccountedIn = Accounted ruby tokio

  session : (a b : Session c) → Begun ruby tokio a → ReachIn a b → AccountedIn b
  session = session-Accounted ruby tokio fiber_new select laws waits joins root_kept

  -- If tokio keeps to its documentation, and the wait of the loop keeps its guard and the root fiber
  -- and takes out of the set just the task that it joins, then when the root fiber runs in a
  -- session from `new` and the loop joins a future with its result, the fiber of that future is one
  -- that waits for a future, so neither one whose block has ended nor one that waits for a fiber it
  -- has made; it is not the fiber that runs, and has no other task left in the set.
  pub joined_fiber-waits :
      (a b : Session c) (r : ResumableFiber) (t : Process c)
      → Begun ruby tokio a
      → ReachIn a b
      → ruby.rb_fiber_current b.process ≡ b.process.root_fiber.raw
      → take_task ruby tokio select b.process ≡ (done (some (ok r)), t)
      → Mem r.fiber (picks is_waiting b.ledger)
        × (¬ Mem r.fiber (fibers tokio t))
        × (ruby.rb_fiber_current b.process ≢ r.fiber.raw)
  joined_fiber-waits a b r t g reach at_root took =
      let acc = session a b g reach in
      let perm =
        Perm.trans
          (Perm.symm
            (take_task-takes ruby tokio select waits joins root_kept b.process t r took acc.free))
          acc.tasks in
      let here_now = (Perm.mem_iff perm).0 mem-cons_self in
      (
        here_now,
        (Nodup-cons.0
            (Perm.nodup (Perm.symm perm) (picks-Nodup is_waiting b.ledger acc.distinct))).0,
        λ e. ∥∥₁_elim here_now ⊥_prop (λ m.
            let (p, _, n) = picks-Mem is_waiting b.ledger m in
            key_of (λ k. k.raw ≢ b.process.root_fiber.raw) b.ledger acc.away n (sym e ∙ at_root)),
      )

  -- If tokio keeps to its documentation, and the wait of the loop keeps its guard and the root fiber
  -- and takes out of the set just the task that it joins, then when the root fiber runs in a
  -- session from `new`, the loop finds the set empty, and no future has failed to join, the blocks of
  -- all fibers have come to their end: none still waits for a future, or for a fiber that it has made.
  pub empty_set-ended :
      (a b : Session c) (t : Process c)
      → Begun ruby tokio a
      → ReachIn a b
      → ruby.rb_fiber_current b.process ≡ b.process.root_fiber.raw
      → take_task ruby tokio select b.process ≡ (done none, t)
      → picks is_lost b.ledger ≡ []
      → All (λ e. e.1 ≡ finished) b.ledger
  empty_set-ended a b t g reach at_root took unlost =
      let acc = session a b g reach in
      let (u, selected, _) = selected_of ruby tokio select none b.process t acc.free took in
      let no_tasks = joins.gives (waiting b.process) u selected in
      Chained-ended b.ledger acc.chain
        (sym (Perm.nil-eq (subst (λ xs. Perm xs (picks is_waiting b.ledger)) no_tasks acc.tasks)))
        (Perm.eq-nil (root_idle ruby tokio b.process b.ledger at_root acc.runs)) unlost
