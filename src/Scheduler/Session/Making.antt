-- ===== src/Scheduler/Session/Making.antt =====
-- In a session, the turns of ext/shreduler/src/tokio_scheduler/fiber_spawn.rs in which a fiber is made and
-- runs.
use mathlib.Core.List.{Memᴰ, mem-cons_self}
use mathlib.Core.List.Perm
use shredular.Base.{
  Bool, true, false, Bool-cases, ◌≡◌, ◌≢◌, ◌⊎◌, inl, inr, refl, subst, [], ◌∷◌, ◌++◌, if◌then◌else◌,
}
use shredular.Errors.{Value}
use shredular.Async.{M, done, pure, ◌>>=◌}
use shredular.Ruby.{Ruby}
use shredular.Fiber.{current, transfer}
use shredular.Scheduler.{Carriers, Process, Tokio, TokioLaws}
use shredular.Scheduler.FiberSpawn.{
  Proc, is_current_fiber_root, fiber_impl, new_nonblocking, wrapped,
}
use shredular.Scheduler.Run.{Selected}
use shredular.Scheduler.Run.Joins.{JoinLaws}
use shredular.Scheduler.Run.Waiting.{SelectLaws}
use shredular.Scheduler.Session.{
  Session, Ledger, Fresh, Step, Reach, Begun, SameSet, Switched, active, making, made_by_root,
  made_by_fiber, me,
}
use shredular.Scheduler.Session.Accounted.{active_runs}
use shredular.Scheduler.Session.Chain.{mem_last, mem-append}
use shredular.Scheduler.Session.Invariant.{session-Accounted, root_current, root_not_current}
use shredular.Scheduler.Session.Ledger.{is_active, Changed-Memᴰ}
use shredular.Scheduler.Session.Entries.{picked_turn, only_active}

module _ {c : Carriers} (ruby : Ruby (Process c)) (tokio : Tokio c)
    (fiber_new : Proc c → M (Process c) Value) (select : M (Process c) Selected) where
  -- The block that `fiber_impl` makes the fiber of.
  abbrev pub body : Proc c → Process c → Proc c
  body block s =
      if is_current_fiber_root ruby fiber_new s
      then block
      else wrapped ruby fiber_new (me ruby s) block

  -- Once the new fiber is made, `fiber_impl` is the transfer to it.
  fiber_impl-transfers :
      (block : Proc c) (s u : Process c) (v : Value)
      → fiber_new (body block s) s ≡ (done v, u)
      → fiber_impl ruby fiber_new block s ≡ (do returned ← ruby.rb_fiber_transfer v []; pure v) u
  unfolding fiber_impl new_nonblocking current transfer
  fiber_impl-transfers block s u v made = rw made refl

  new_nonblocking-eq :
      (blk : Proc c) (s u : Process c) (v : Value)
      → fiber_new blk s ≡ (done v, u)
      → new_nonblocking ruby fiber_new blk s ≡ (done (record { raw = v }), u)
  unfolding new_nonblocking
  new_nonblocking-eq blk s u v made = rw made refl

  -- The block, where it is known whether the root fiber runs.
  made_as :
      (x : Bool) (block : Proc c) (s u : Process c) (v : Value)
      → is_current_fiber_root ruby fiber_new s ≡ x
      → fiber_new (body block s) s ≡ (done v, u)
      → fiber_new (if x then block else wrapped ruby fiber_new (me ruby s) block) s ≡ (done v, u)
  made_as x block s u v is made =
      subst
        (λ y.
          fiber_new (if y then block else wrapped ruby fiber_new (me ruby s) block) s ≡ (done v, u))
        is made

  module _ (laws : TokioLaws tokio) (waits : SelectLaws tokio select)
      (joins : JoinLaws tokio select)
      (root_kept : (s : Process c) → (select s).1.root_fiber ≡ s.root_fiber) where
    abbrev StepIn : Session c → Session c → Type 0
    StepIn = Step ruby tokio fiber_new select

    abbrev ReachIn : Session c → Session c → Type 0
    ReachIn = Reach ruby tokio fiber_new select

    -- If tokio keeps to its documentation, and the wait of the loop keeps its guard and the root
    -- fiber and takes out of the set just the task that it joins, then in a session from `new`, when
    -- `Fiber.new` makes a new fiber of the block, wrapped unless the root fiber runs, and leaves the
    -- set and the root fiber as they are, `fiber` goes on to the transfer to that fiber, and if the
    -- VM lets it run, this is a turn of the session, after which it is active, and the one that has
    -- called `fiber`, unless it is the root fiber, waits for it.
    pub fiber_impl-Step :
        (a b : Session c) (block : Proc c) (v : Value) (u t : Process c)
        → Begun ruby tokio a
        → ReachIn a b
        → fiber_new (body block b.process) b.process ≡ (done v, u)
        → SameSet b.process u
        → v ≢ b.process.root_fiber.raw
        → Fresh (record { raw = v }) b.ledger
        → Switched ruby u v t
        → (fiber_impl ruby fiber_new block b.process
            ≡ (do returned ← ruby.rb_fiber_transfer v []; pure v) u)
          × ((l : Ledger) × StepIn b (record { process = t; ledger = l })
              × Memᴰ (record { raw = v }, active) l
              × ((ruby.rb_fiber_current b.process ≡ b.process.root_fiber.raw)
                  ⊎ Memᴰ (me ruby b.process, making (record { raw = v })) l))
    fiber_impl-Step a b block v u t g reach made same other new_one moved = (
      fiber_impl-transfers block b.process u v made,
      elim (Bool-cases (is_current_fiber_root ruby fiber_new b.process)) [
        | inl root ↦ (
          b.ledger ++ (record { raw = v }, active) ∷ [],
          made_by_root block u (record { raw = v }) root
              (new_nonblocking-eq block b.process u v (made_as true block b.process u v root made))
              same other new_one refl moved,
          mem_last (record { raw = v }, active) b.ledger,
          inl (root_current ruby fiber_new b.process root),
        )
        | inr off ↦
            let acc =
              session-Accounted ruby tokio fiber_new select laws waits joins root_kept a b g
                reach in
            let (l, change) =
              picked_turn is_active active (making (record { raw = v })) only_active
                (me ruby b.process) b.ledger
                ((Perm.mem_iff (
                    active_runs ruby tokio b.process b.ledger
                      (root_not_current ruby fiber_new b.process off) acc.runs)).1
                  mem-cons_self) in
            (
              l ++ (record { raw = v }, active) ∷ [],
              made_by_fiber block u (record { raw = v }) l off
                  (new_nonblocking-eq (wrapped ruby fiber_new (me ruby b.process) block) b.process u
                    v (made_as false block b.process u v off made))
                  same other new_one change refl moved,
              mem_last (record { raw = v }, active) l,
              inr (mem-append (record { raw = v }, active) l (Changed-Memᴰ change)),
            )
      ],
    )
