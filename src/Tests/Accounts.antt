-- ===== src/Tests/Accounts.antt =====
-- The accounts of the loop on two tasks, of which that of the fiber 9 panics.
use mathlib.Core.List.{Perm}
use mathlib.Core.List.Perm
use shredular.Base.{
  ℕ, ◌≤◌, arith, Bool, true, false, Bool-cases, ◌≢◌, ◌==◌, if◌then◌else◌, ◌≡◌, ◌⊎◌, inl, inr, refl,
  sym, subst, ap, List, [], ◌∷◌, some, none,
}
use shredular.Errors.{Error, ok, err, jump}
use shredular.Async.{M, Outcome, done, starved}
use shredular.Fiber.{Fiber, unknown, is_alive, check_suspended, transfer}
use shredular.FiberFuture.{FiberFuture, ResumableFiber, resume_if_alive, resume_with}
use shredular.FiberFuture.Frames.{Keeps}
use shredular.GcCell.{try_borrow_mut, drop_ref_mut}
use shredular.GcCell.Borrowing.{IsHeld}
use shredular.Scheduler.{set_futures}
use shredular.Scheduler.Run.{
  Joined, Selected, joined, interrupted, run_loop, round, take_task, wait_held, release_futures,
  on_selected, dispatch,
}
use shredular.Scheduler.Run.Waiting.{FuturesFree, SelectLaws}
use shredular.Scheduler.Run.Joins.{fibers, JoinLaws, Grows}
use shredular.Scheduler.Run.Accounts.{history, IsBalanced, run_loop-history}
use shredular.Scheduler.Run.Terminates.{todo, run_loop-ends}
use shredular.Tests.World.{
  Machine, returns, World, ruby, tokio, keeps_free, idle, busy, note, nil_value,
}

-- The first task is joined at once.
abbrev joined_task : FiberFuture ℕ → Joined
joined_task t =
    if t.fiber.raw == 9
    then some (err 1)
    else some (ok (record { fiber = t.fiber; value = ok nil_value }))

abbrev crash : List (FiberFuture ℕ) → World → Outcome Selected × World
crash [] s = (done (joined none), s)
crash (t ∷ ts) s =
    (done (joined (joined_task t)), set_futures (record (s.futures_to_run) { value = ts }) s)

-- At the time 99 a signal has come.
abbrev signal_or : Bool → World → Outcome Selected × World
signal_or true s = (done (interrupted (jump 5)), s)
signal_or false s = crash s.futures_to_run.value s

abbrev pub select : M World Selected
select s = signal_or (s.outside.clock == 99) s

joined_task-some :
    (t : FiberFuture ℕ)
    → (joined_task t ≡ some (err 1))
      ⊎ (joined_task t ≡ some (ok (record { fiber = t.fiber; value = ok nil_value })))
joined_task-some t = elim (Bool-cases (t.fiber.raw == 9)) [
  | inl nine ↦ inl (rw nine)
  | inr other ↦ inr (rw other)
]

crash_left :
    (x : FiberFuture ℕ) (ts : List (FiberFuture ℕ)) (s t : World) (j : Joined)
    → crash (x ∷ ts) s ≡ (done (joined j), t)
    → (joined_task x ≡ j) × (t.futures_to_run.value ≡ ts)
crash_left x ts s t j e = (cc, sym (ap (λ w. w.1.futures_to_run.value) e))

crash_takes :
    (ts : List (FiberFuture ℕ)) (s t : World) (r : ResumableFiber)
    → s.futures_to_run.value ≡ ts
    → crash ts s ≡ (done (joined (some (ok r))), t)
    → fibers tokio s ≡ r.fiber ∷ fibers tokio t
crash_takes [] s t r is e = cc
crash_takes (x ∷ ts) s t r is e =
    let (given, left) = crash_left x ts s t (some (ok r)) e in
    elim (joined_task-some x) [
      | inl panicked ↦ absurd (cc)
      | inr came ↦ let same : x.fiber ≡ r.fiber = cc in rw (is, left, same)
    ]

crash_loses :
    (ts : List (FiberFuture ℕ)) (s t : World) (e : ℕ)
    → s.futures_to_run.value ≡ ts
    → crash ts s ≡ (done (joined (some (err e))), t)
    → (f : Fiber unknown) × (fibers tokio s ≡ f ∷ fibers tokio t)
crash_loses [] s t e is h = cc
crash_loses (x ∷ ts) s t e is h =
    let (given, left) = crash_left x ts s t (some (err e)) h in (x.fiber, rw (is, left))

crash_gives :
    (ts : List (FiberFuture ℕ)) (s t : World)
    → s.futures_to_run.value ≡ ts
    → crash ts s ≡ (done (joined none), t)
    → fibers tokio s ≡ []
crash_gives [] s t is e = rw is
crash_gives (x ∷ ts) s t is e =
    let (given, left) = crash_left x ts s t none e in
    elim (joined_task-some x) [ inl panicked ↦ absurd (cc) | inr came ↦ absurd (cc) ]

crash_holds :
    (ts : List (FiberFuture ℕ)) (s : World)
    → IsHeld s.futures_to_run
    → IsHeld (crash ts s).1.futures_to_run
crash_holds [] s h = h
crash_holds (t ∷ ts) s h = record { no_reader = h.no_reader; one_writer = h.one_writer }

crash_empties :
    (ts : List (FiberFuture ℕ)) (s t : World)
    → s.futures_to_run.value ≡ ts
    → crash ts s ≡ (done (joined none), t)
    → t.futures_to_run.value ≡ []
crash_empties [] s t is e = cc
crash_empties (x ∷ ts) s t is e =
    let (given, left) = crash_left x ts s t none e in
    elim (joined_task-some x) [ inl panicked ↦ absurd (cc) | inr came ↦ absurd (cc) ]

crash_spares :
    (ts : List (FiberFuture ℕ)) (s t : World) (e : Error) → crash ts s ≢ (done (interrupted e), t)
crash_spares [] s t e h = cc
crash_spares (x ∷ ts) s t e h = cc

select_holds :
    (b : Bool) (s : World) → IsHeld s.futures_to_run → IsHeld (signal_or b s).1.futures_to_run
select_holds true s h = h
select_holds false s h = crash_holds s.futures_to_run.value s h

select_empties :
    (b : Bool) (s t : World) → signal_or b s ≡ (done (joined none), t) → t.futures_to_run.value ≡ []
select_empties true s t e = cc
select_empties false s t e = crash_empties s.futures_to_run.value s t refl e

pub select_laws : SelectLaws tokio select
select_laws = record {
  holds = λ s. select_holds (s.outside.clock == 99) s;
  empties = λ s t. select_empties (s.outside.clock == 99) s t;
}

select_takes :
    (b : Bool) (s t : World) (r : ResumableFiber)
    → signal_or b s ≡ (done (joined (some (ok r))), t)
    → fibers tokio s ≡ r.fiber ∷ fibers tokio t
select_takes true s t r e = cc
select_takes false s t r e = crash_takes s.futures_to_run.value s t r refl e

select_loses :
    (b : Bool) (s t : World) (x : ℕ)
    → signal_or b s ≡ (done (joined (some (err x))), t)
    → (f : Fiber unknown) × (fibers tokio s ≡ f ∷ fibers tokio t)
select_loses true s t x e = cc
select_loses false s t x e = crash_loses s.futures_to_run.value s t x refl e

select_gives :
    (b : Bool) (s t : World) → signal_or b s ≡ (done (joined none), t) → fibers tokio s ≡ []
select_gives true s t e = cc
select_gives false s t e = crash_gives s.futures_to_run.value s t refl e

select_spares :
    (b : Bool) (s t : World) (e : Error)
    → signal_or b s ≡ (done (interrupted e), t)
    → fibers tokio s ≡ fibers tokio t
select_spares true s t e h = ap (λ p. fibers tokio p.1) h
select_spares false s t e h = absurd (crash_spares s.futures_to_run.value s t e h)

pub join_laws : JoinLaws tokio select
join_laws = record {
  takes = λ s t r e.
      subst (Perm (fibers tokio s)) (select_takes (s.outside.clock == 99) s t r e) (Perm.refl _);
  loses = λ s t x e.
      let (f, gone) = select_loses (s.outside.clock == 99) s t x e in
      (f, subst (Perm (fibers tokio s)) gone (Perm.refl _));
  gives = λ s t. select_gives (s.outside.clock == 99) s t;
  spares = λ s t e h.
      subst (Perm (fibers tokio s)) (select_spares (s.outside.clock == 99) s t e h) (Perm.refl _);
}

grows : (s : World) → Keeps ruby (Grows tokio s)
grows s = record {
  transfer_keeps = λ v args t g. g;
  raise_keeps = λ v args t g. g;
  string_keeps = λ m t g. g;
}

crash_root : (ts : List (FiberFuture ℕ)) (s : World) → (crash ts s).1.root_fiber ≡ s.root_fiber
crash_root [] s = refl
crash_root (t ∷ ts) s = refl

signal_or_root : (b : Bool) (s : World) → (signal_or b s).1.root_fiber ≡ s.root_fiber
signal_or_root true s = refl
signal_or_root false s = crash_root s.futures_to_run.value s

pub select_root : (s : World) → (select s).1.root_fiber ≡ s.root_fiber
select_root s = signal_or_root (s.outside.clock == 99) s

busy_free : FuturesFree busy
busy_free = record { no_reader = refl; no_writer = refl }

looped : run_loop ruby tokio select 3 busy ≡ (done tt, note 4 idle)
unfolding run_loop round take_task wait_held release_futures on_selected dispatch resume_if_alive
    resume_with is_alive check_suspended transfer try_borrow_mut drop_ref_mut
looped = refl

accounts :
    history ruby tokio select 3 busy
    ≡ record { dispatched = record { raw = 4 } ∷ []; spawned = []; failed = 1 }
unfolding history take_task wait_held release_futures on_selected dispatch resume_if_alive
    resume_with is_alive check_suspended transfer try_borrow_mut drop_ref_mut
accounts = refl

run_loop-history_example : IsBalanced ruby tokio select busy (history ruby tokio select 3 busy)
run_loop-history_example =
    run_loop-history ruby tokio select select_laws join_laws keeps_free grows 3 busy (note 4 idle)
      busy_free looped

crash-returns : (ts : List (FiberFuture ℕ)) (s : World) → (crash ts s).0 ≢ starved
crash-returns [] s h = cc
crash-returns (t ∷ ts) s h = cc

select-returns : (b : Bool) (s : World) → (signal_or b s).0 ≢ starved
select-returns true s h = cc
select-returns false s h = crash-returns s.futures_to_run.value s h

-- A fiber that is resumed spawns nothing more.
abbrev to_spawn : Machine → ℕ
to_spawn o = 0

fibers_spend :
    (k : ℕ)
    → Keeps ruby (λ t.
      todo ruby tokio select returns
        (λ s. select-returns (s.outside.clock == 99) s)
        select_laws
        join_laws
        keeps_free
        to_spawn
        t
      ≤ k)
fibers_spend k = record {
  transfer_keeps = λ v args t g. g;
  raise_keeps = λ v args t g. g;
  string_keeps = λ m t g. g;
}

select-to_spawn : (s : World) → to_spawn (select s).1.outside ≤ to_spawn s.outside
select-to_spawn s = omega arith

run_loop-ends_example : (run_loop ruby tokio select 3 busy).0 ≢ starved
run_loop-ends_example =
    run_loop-ends ruby tokio select returns (λ s. select-returns (s.outside.clock == 99) s)
      select_laws join_laws keeps_free to_spawn select-to_spawn fibers_spend 3 busy busy_free
      (omega arith)
