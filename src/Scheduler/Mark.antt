-- ===== src/Scheduler/Mark.antt =====
-- `mark` of ext/shreduler/src/tokio_scheduler.rs: what the scheduler keeps alive at a garbage collection.
use shredular.Base.{
  ℕ, Bool, true, false, ◌||◌, ◌≡◌, ◌≢◌, refl, List, [], ◌∷◌, ◌++◌, Option, none, some, map, arith,
  ◌==◌, contains, ap, ◌∙◌,
}
use shredular.Errors.{Value}
use shredular.Async.{done, panic, M, pure, modify, ◌>>=◌, ◌>>◌}
use shredular.Ruby.{Ruby}
use shredular.GcCell.{borrow_for_gc}
use shredular.GcCell.Borrowing.{IsFree}
use shredular.Fiber.{eq}
use shredular.HashMap.{FiberMap, get}
use shredular.Scheduler.{Carriers, TokioScheduler, Process, Block, Tokio, TokioLaws, spawn}
use shredular.Scheduler.Spawning.{new_task, spawn-IsFree}

-- `gc::mark`, with the marked values as the state.
abbrev pub gc_mark : Value → M (List Value) (Unit {0})
gc_mark v = modify (λ marked. v ∷ marked)

abbrev pub gc_mark_all : List Value → M (List Value) (Unit {0})
gc_mark_all [] = pure tt
gc_mark_all (v ∷ vs) = do gc_mark v; gc_mark_all vs

abbrev pub keys : {V : Type 0} → FiberMap V → List Value
keys m = map (λ kv. kv.0.raw) m

-- `during_gc` is what `rb_during_gc` gives.
unfoldable pub mark : {c : Carriers} → ℕ → TokioScheduler c → M (List Value) (Unit {0})
mark during_gc scheduler = do
  gc_mark scheduler.root_fiber.raw
  blockers ← λ marked. (borrow_for_gc during_gc scheduler.blockers, marked)
  gc_mark_all (keys blockers)

abbrev present : {V : Type 0} → Option V → Bool
present (some x) = true
present none = false

-- Whether a fiber has an entry.
abbrev pub has_entry : {V : Type 0} → Value → FiberMap V → Bool
has_entry v m = present (get (record { raw = v }) m)

gc_mark_all-contains :
    {V : Type 0} (v : Value) (m : FiberMap V) (marked : List Value)
    → ((gc_mark_all (keys m) marked).0 ≡ done tt)
      × (contains v (gc_mark_all (keys m) marked).1 ≡ (has_entry v m || contains v marked))
unfolding get eq
gc_mark_all-contains v [] marked = (refl, refl)
gc_mark_all-contains v ((k, x) ∷ m) marked =
    let (ends, has) = gc_mark_all-contains v m (k.raw ∷ marked) in (ends, ground (arith, has))

module _ {c : Carriers} where
  -- During a collection `mark` ends, whoever has borrowed the blockers, and what it marks is the root fiber
  -- and the fibers that have an entry in the blockers. Outside of one it panics.
  pub mark_lem :
      (scheduler : TokioScheduler c) (v : Value) (marked : List Value)
      → ((mark 1 scheduler marked).0 ≡ done tt)
        × (contains v (mark 1 scheduler marked).1 ≡ (
            has_entry v scheduler.blockers.value
            || scheduler.root_fiber.raw == v
            || contains v marked))
        × ((mark 0 scheduler marked).0 ≡ panic)
  unfolding mark borrow_for_gc
  mark_lem scheduler v marked =
      let (ends, has) =
        gc_mark_all-contains v scheduler.blockers.value (scheduler.root_fiber.raw ∷ marked) in
      (ends, ground (arith, has), refl)

module _ {c : Carriers} (ruby : Ruby (Process c)) (tokio : Tokio c) where
  -- By what tokio documents of `JoinSet::spawn`, a fiber that spawns a future, with the set free, and that
  -- is neither the root fiber nor has an entry in the blockers, is not marked, although the last task of
  -- the set belongs to it.
  pub spawn-mark :
      TokioLaws tokio
      → (future : Block c) (s : Process c) → IsFree s.futures_to_run
      → s.root_fiber.raw ≢ ruby.rb_fiber_current s
      → get (record { raw = ruby.rb_fiber_current s }) s.blockers.value ≡ none
      → let t = (spawn ruby tokio future s).1 in
        (tokio.tasks t.futures_to_run.value
          ≡ tokio.tasks s.futures_to_run.value ++ new_task ruby tokio future s ∷ [])
        × ((new_task ruby tokio future s).fiber.raw ≡ ruby.rb_fiber_current s)
        × ((mark 1 t.scheduler []).0 ≡ done tt)
        × (contains (ruby.rb_fiber_current s) (mark 1 t.scheduler []).1 ≡ false)
  spawn-mark laws future s f other unblocked =
      let t : Process c = (spawn ruby tokio future s).1 in
      let kept = spawn-IsFree ruby tokio laws future s f in
      let (ends, has, _) = mark_lem t.scheduler (ruby.rb_fiber_current s) [] in
      let no_entry : has_entry (ruby.rb_fiber_current s) t.blockers.value ≡ false =
        ap (λ b. has_entry (ruby.rb_fiber_current s) b.value) kept.5 ∙ ap present unblocked in
      (kept.1, refl, ends, has ∙ rw (no_entry, kept.3) (ground arith))
