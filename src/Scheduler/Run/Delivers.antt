-- ===== src/Scheduler/Run/Delivers.antt =====
-- From a spawned future (ext/shreduler/src/tokio_scheduler.rs) through its poll (fiber_future.rs) to the
-- fiber that the loop of ext/shreduler/src/tokio_scheduler/close.rs resumes with its result.
use shredular.Base.{ℕ, ◌≡◌, ◌≢◌, true, some, List, subst, ◌++◌, [], ◌∷◌, refl, sym, ap, ◌∙◌}
use shredular.Errors.{Value, Error, error, exception, jump, Result, ok, err}
use shredular.Async.{Outcome, done, M, pure, fail, bind, ◌>>=◌}
use shredular.Ruby.{Ruby}
use shredular.Fiber.{Fiber, unknown}
use shredular.FiberFuture.{ResumableFiber, Poll, resume_if_alive}
use shredular.FiberFuture.Polling.{drive, drive_inner, tagged, drive-drive_inner}
use shredular.FiberFuture.Resume.{resume_if_alive_runs}
use shredular.Scheduler.{Carriers, Process, Block, Task, Tokio, TokioLaws, spawn}
use shredular.Scheduler.Spawning.{new_task, spawn-IsFree}
use shredular.Scheduler.Run.{
  Selected, joined, round, wait_held, on_selected, release_futures, dispatch,
}
use shredular.Scheduler.Run.Waiting.{FuturesFree, waiting, take_task-eq}

last-eq : {A : Type 0} (xs : List A) {a b : A} → xs ++ a ∷ [] ≡ xs ++ b ∷ [] → a ≡ b
last-eq [] e = cc
last-eq (x ∷ xs) e = last-eq xs (cc)

module _ {S : Type 0} (ruby : Ruby S) where
  open ruby use {rb_fiber_transfer, rb_fiber_raise, string_new, class_value}

  -- A result as Ruby hands it to a fiber: a value is transferred, an error raised, and a jump passed on.
  abbrev pub hand : Value → Result Value Error → M S Value
  hand f (ok v) = rb_fiber_transfer f (v ∷ [])
  hand f (err (error klass m)) = do
    text ← string_new m
    rb_fiber_raise f (class_value klass ∷ text ∷ [])
  hand f (err (exception x)) = rb_fiber_raise f (x ∷ [])
  hand f (err (jump j)) = λ s. (fail (jump j), s)

  bind_assoc :
      {A B C : Type 0} (p : Outcome A × S) (f : A → M S B) (g : B → M S C)
      → bind (bind p f) g ≡ bind p (λ a s. bind (f a s) g)
  bind_assoc (done a, s) f g = refl
  bind_assoc (fail e, s) f g = refl
  bind_assoc (Outcome.panic, s) f g = refl
  bind_assoc (Outcome.dropped, s) f g = refl
  bind_assoc (Outcome.starved, s) f g = refl

  drops_some :
      (p : Outcome Value × S) (g : Value → M S Value)
      → bind (bind p (λ text s. bind (g text s) (λ ret. pure (some ret)))) (λ _. pure true)
        ≡ bind (bind p g) (λ _. pure true)
  drops_some (done a, s) g = bind_assoc (g a s) _ _
  drops_some (fail e, s) g = refl
  drops_some (Outcome.panic, s) g = refl
  drops_some (Outcome.dropped, s) g = refl
  drops_some (Outcome.starved, s) g = refl

  resume_if_alive-hand :
      (f : Fiber unknown) (result : Result Value Error) (s : S)
      → ruby.rb_fiber_alive_p s f.raw ≡ ruby.q_true
      → ruby.rb_fiber_current s ≢ f.raw
      → bind (resume_if_alive ruby (record { fiber = f; value = result }) s) (λ _. pure true)
        ≡ bind (hand f.raw result s) (λ _. pure true)
  resume_if_alive-hand f (ok v) s alive other =
      let (values, errors, exceptions, jumps) = resume_if_alive_runs ruby f s alive other in
      rw (values v) (bind_assoc (rb_fiber_transfer f.raw (v ∷ []) s) _ _)
  resume_if_alive-hand f (err (error klass m)) s alive other =
      let (values, errors, exceptions, jumps) = resume_if_alive_runs ruby f s alive other in
      rw (errors klass m)
        (drops_some (string_new m s) (λ text. rb_fiber_raise f.raw (class_value klass ∷ text ∷ [])))
  resume_if_alive-hand f (err (exception x)) s alive other =
      let (values, errors, exceptions, jumps) = resume_if_alive_runs ruby f s alive other in
      rw (exceptions x) (bind_assoc (rb_fiber_raise f.raw (x ∷ []) s) _ _)
  resume_if_alive-hand f (err (jump j)) s alive other =
      let (values, errors, exceptions, jumps) = resume_if_alive_runs ruby f s alive other in
      rw (jumps j) refl

module _ {c : Carriers} (ruby : Ruby (Process c)) (tokio : Tokio c)
    (select : M (Process c) Selected)
    (poll_inner : c.RubyFuture → Process c → Poll (Result Value Error) × c.RubyFuture × Process c)
    (wake_by_ref : Process c → Process c) where
  -- The task that `spawn` has put at the end of the set holds the future and the fiber that ran.
  spawned-new_task :
      (laws : TokioLaws tokio) (future : Block c) (u : Process c) (task : Task c)
      → FuturesFree u
      → tokio.tasks (spawn ruby tokio future u).1.futures_to_run.value
        ≡ tokio.tasks u.futures_to_run.value ++ task ∷ []
      → new_task ruby tokio future u ≡ task
  spawned-new_task laws future u task free added =
      let (_, as_documented, _, _, _, _, _) = spawn-IsFree ruby tokio laws future u free in
      last-eq (tokio.tasks u.futures_to_run.value) (sym as_documented ∙ added)

  -- A fiber spawned a future with the set free, by what tokio documents of `JoinSet::spawn`, and a task
  -- came to the end of the set. The future ends with a result after some polls. When the wait of a round,
  -- begun with the set free, joins what that task gives after as many polls, and the fiber that called
  -- `spawn` is alive and is not the one that runs the loop, then the round drops the guard of the set,
  -- hands the result to that very fiber, and goes on when control comes back.
  pub round-spawn :
      (laws : TokioLaws tokio) (future : Block c) (task : Task c) (u y z z' s x : Process c) (n : ℕ)
      (result : Result Value Error) (r : ResumableFiber)
      → FuturesFree u
      → tokio.tasks (spawn ruby tokio future u).1.futures_to_run.value
        ≡ tokio.tasks u.futures_to_run.value ++ task ∷ []
      → drive_inner poll_inner wake_by_ref n (tokio.box_pin future) y ≡ (some result, z)
      → drive poll_inner wake_by_ref n task y ≡ (some r, z')
      → FuturesFree s
      → select (waiting s) ≡ (done (joined (some (ok r))), x)
      → ruby.rb_fiber_alive_p (release_futures ruby tokio select x) (ruby.rb_fiber_current u)
        ≡ ruby.q_true
      → ruby.rb_fiber_current (release_futures ruby tokio select x) ≢ ruby.rb_fiber_current u
      → round ruby tokio select s
        ≡ bind
            (hand ruby (ruby.rb_fiber_current u) result (release_futures ruby tokio select x))
            (λ _. pure true)
  unfolding round wait_held on_selected dispatch
  round-spawn laws future task u y z z' s x n result r u_free added inner outer free selected alive
        other =
      let is_new = spawned-new_task laws future u task u_free added in
      let of_new =
        subst (λ k. drive poll_inner wake_by_ref n k y ≡ (some r, z')) (sym is_new) outer in
      let same : tagged poll_inner wake_by_ref (record { raw = ruby.rb_fiber_current u })
            (some result, z)
          ≡ (some r, z') =
        ap (tagged poll_inner wake_by_ref (record { raw = ruby.rb_fiber_current u })) (sym inner)
        ∙ sym (drive-drive_inner poll_inner wake_by_ref n (new_task ruby tokio future u) y)
        ∙ of_new in
      let is_r : record { fiber = record { raw = ruby.rb_fiber_current u }; value = result } ≡ r =
        cc in
      rw (take_task-eq ruby tokio select s free, selected, sym is_r)
        (resume_if_alive-hand ruby (record { raw = ruby.rb_fiber_current u }) result
          (release_futures ruby tokio select x) alive other)
