-- ===== src/Scheduler/Session/Rounds.antt =====
-- In a session, the rounds of the loop in ext/shreduler/src/tokio_scheduler/close.rs do not get stuck.
use mathlib.Core.List.{Memᴰ, Mem, Perm, mem-cons_self}
use mathlib.Core.List.Perm
use shredular.Base.{
  true, false, ◌≡◌, ◌⊎◌, inl, inr, sym, ap, ◌∙◌, subst, List, [], ◌∷◌, some, none, All, refl,
}
use shredular.Errors.{Value, ok, err}
use shredular.Async.{M, done, pure, ◌>>=◌}
use shredular.Ruby.{Ruby}
use shredular.Fiber.{Fiber, unknown}
use shredular.Scheduler.{Carriers, Process, Tokio, TokioLaws}
use shredular.Scheduler.FiberSpawn.{Proc}
use shredular.Scheduler.Run.{Selected, Joined, JoinError, take_task, round, dispatch}
use shredular.Scheduler.Run.Joins.{fibers, JoinLaws, selected_of}
use shredular.Scheduler.Run.Waiting.{SelectLaws, waiting}
use shredular.Scheduler.Session.{
  Session, Status, Ledger, Step, Reach, Begun, Switched, Changed, lost, finished, active, lost_one,
  joined_one,
}
use shredular.Scheduler.Session.Entries.{picked_turn, only_waiting}
use shredular.Scheduler.Session.Ends.{joined_fiber-waits, empty_set-ended}
use shredular.Scheduler.Session.Invariant.{session-Accounted}
use shredular.Scheduler.Session.Ledger.{picks, is_waiting, is_lost, picks-Mem}
use shredular.Scheduler.Session.Progress.{round-resumes}
use shredular.FiberFuture.{ResumableFiber, resume_with}
use shredular.Fiber.Checks.{check_suspended_ok}
use shredular.Scheduler.Session.Tasks.{take_task-Took}

only_lost : (p : Status) → is_lost p ≡ true → p ≡ lost
only_lost lost e = refl
only_lost active e = cc
only_lost Status.waiting e = cc
only_lost finished e = cc
only_lost (Status.making g) e = cc

-- No fiber is lost, or one is.
lost-cases : (l : Ledger) → (picks is_lost l ≡ []) ⊎ ((f : Fiber unknown) × Memᴰ (f, lost) l)
lost-cases l = by_picks (picks is_lost l) refl
  where
    by_picks :
        (fs : List (Fiber unknown))
        → picks is_lost l ≡ fs
        → (picks is_lost l ≡ []) ⊎ ((f : Fiber unknown) × Memᴰ (f, lost) l)
    by_picks [] is = inl is
    by_picks (f ∷ fs) is =
        let (p, passes, m) = picks-Mem is_lost l (subst (Memᴰ f) (sym is) (Memᴰ.head refl)) in
        inr (f, subst (λ (st : Status). Memᴰ (f, st) l) (only_lost p passes) m)

module _ {c : Carriers} (ruby : Ruby (Process c)) (tokio : Tokio c)
    (fiber_new : Proc c → M (Process c) Value) (select : M (Process c) Selected)
    (laws : TokioLaws tokio) (waits : SelectLaws tokio select) (joins : JoinLaws tokio select)
    (root_kept : (s : Process c) → (select s).1.root_fiber ≡ s.root_fiber) where
  abbrev StepIn : Session c → Session c → Type 0
  StepIn = Step ruby tokio fiber_new select

  abbrev ReachIn : Session c → Session c → Type 0
  ReachIn = Reach ruby tokio fiber_new select

  lost-Step :
      (a b : Session c) (e : JoinError) (t : Process c)
      → Begun ruby tokio a
      → ReachIn a b
      → ruby.rb_fiber_current b.process ≡ b.process.root_fiber.raw
      → take_task ruby tokio select b.process ≡ (done (some (err e)), t)
      → ruby.rb_fiber_current t ≡ ruby.rb_fiber_current b.process
      → (f : Fiber unknown) × (l : Ledger) × StepIn b (record { process = t; ledger = l })
        × Changed f Status.waiting lost b.ledger l
  lost-Step a b e t g reach at_root took same =
      let acc =
        session-Accounted ruby tokio fiber_new select laws waits joins root_kept a b g reach in
      let (u, selected, left) =
        selected_of ruby tokio select (some (err e)) b.process t acc.free took in
      let (f, gone) = joins.loses (waiting b.process) u e selected in
      let (l, change) =
        picked_turn is_waiting Status.waiting lost only_waiting f b.ledger
          ((Perm.mem_iff (Perm.trans (Perm.symm gone) acc.tasks)).0 mem-cons_self) in
      let (free, kept) =
        take_task-Took ruby tokio select waits joins root_kept b.process t (done (some (err e)))
          took acc.free in
      (
        f,
        l,
        lost_one e f at_root took (subst (λ xs. Perm (fibers tokio b.process) (f ∷ xs)) left gone)
            (same ∙ at_root ∙ ap (λ (r : Fiber unknown). r.raw) (sym kept)) change,
        change,
      )

  -- The round resumes a fiber that waits, which is then the active one and runs.
  abbrev pub Resumes : Session c → Process c → Type 0
  Resumes b t =
      (r : ResumableFiber) × (d : Session c) × StepIn b d
      × Changed r.fiber Status.waiting active b.ledger d.ledger
      × (ruby.rb_fiber_current d.process ≡ r.fiber.raw)
      × (round ruby tokio select b.process
          ≡ (do returned ← resume_with ruby r.fiber r.value; pure true) t)

  -- The round loses a fiber that waits, and the loop goes on.
  abbrev pub Loses : Session c → Process c → Type 0
  Loses b t =
      (f : Fiber unknown) × (l : Ledger) × StepIn b (record { process = t; ledger = l })
      × Changed f Status.waiting lost b.ledger l
      × (round ruby tokio select b.process ≡ (done true, t))

  -- The round ends the loop, and a fiber was lost before, or the blocks of all fibers have ended.
  abbrev pub Closes : Session c → Process c → Type 0
  Closes b t =
      (round ruby tokio select b.process ≡ (done false, t))
      × (((f : Fiber unknown) × Memᴰ (f, lost) b.ledger) ⊎ All (λ e. e.1 ≡ finished) b.ledger)

  resumed-Resumes :
      (a b : Session c) (r : ResumableFiber) (t w : Process c)
      → Begun ruby tokio a
      → ReachIn a b
      → ruby.rb_fiber_current b.process ≡ b.process.root_fiber.raw
      → take_task ruby tokio select b.process ≡ (done (some (ok r)), t)
      → ruby.rb_fiber_current t ≡ ruby.rb_fiber_current b.process
      → ruby.rb_fiber_alive_p t r.fiber.raw ≡ ruby.q_true
      → Switched ruby t r.fiber.raw w
      → Resumes b t
  resumed-Resumes a b r t w g reach at_root took same lives moved =
      let (picked, _, off) =
        joined_fiber-waits ruby tokio fiber_new select laws waits joins root_kept a b r t g reach
          at_root took in
      let (l, change) =
        picked_turn is_waiting Status.waiting active only_waiting r.fiber b.ledger picked in
      (
        r,
        record { process = w; ledger = l },
        joined_one r t (record { raw = r.fiber.raw }) at_root took
            (check_suspended_ok ruby r.fiber t lives (λ e. off (sym same ∙ e))) change moved,
        change,
        moved.1,
        round-resumes ruby tokio fiber_new select laws waits joins root_kept b.process t r took
            lives,
      )

  -- If tokio keeps to its documentation, and the wait of the loop keeps its guard and the root fiber
  -- and takes out of the set just the task that it joins, then in a session from `new`, when the
  -- loop on the root fiber comes back from its wait on the same fiber, the fibers that wait are
  -- alive, and the VM can let a fiber run that is alive, the loop is not stuck: its round resumes a
  -- fiber that waits, by a turn of the session after which that fiber is active and runs; or it
  -- goes on, by a turn in which a fiber that waits is lost, with a future that could not be joined;
  -- or it ends the loop, and then a fiber was lost before or the blocks of all fibers have ended.
  pub round-Step :
      (a b : Session c) (j : Joined) (t : Process c)
      → Begun ruby tokio a
      → ReachIn a b
      → ruby.rb_fiber_current b.process ≡ b.process.root_fiber.raw
      → take_task ruby tokio select b.process ≡ (done j, t)
      → ruby.rb_fiber_current t ≡ ruby.rb_fiber_current b.process
      → ((f : Fiber unknown)
          → Mem f (picks is_waiting b.ledger)
          → ruby.rb_fiber_alive_p t f.raw ≡ ruby.q_true)
      → ((v : Value)
          → ruby.rb_fiber_alive_p t v ≡ ruby.q_true
          → (w : Process c) × Switched ruby t v w)
      → Resumes b t ⊎ Loses b t ⊎ Closes b t
  unfolding round dispatch
  round-Step a b (some (ok r)) t g reach at_root took same alive switches =
      let (picked, _, _) =
        joined_fiber-waits ruby tokio fiber_new select laws waits joins root_kept a b r t g reach
          at_root took in
      let lives = alive r.fiber picked in
      let (w, moved) = switches r.fiber.raw lives in
      inl (resumed-Resumes a b r t w g reach at_root took same lives moved)
  round-Step a b (some (err e)) t g reach at_root took same alive switches =
      let (f, l, step, change) = lost-Step a b e t g reach at_root took same in
      inr (inl (f, l, step, change, rw took refl))
  round-Step a b none t g reach at_root took same alive switches = inr (
      inr (
        rw took refl,
        elim (lost-cases b.ledger) [
          | inr gone ↦ inl gone
          | inl unlost ↦ inr (
              empty_set-ended ruby tokio fiber_new select laws waits joins root_kept a b t g reach
                at_root took unlost)
        ],
      ))
