-- ===== src/Scheduler/Methods/Suspends.antt =====
-- What a call that waits does to the fiber that makes it.
use shredular.Base.{
  ◌≡◌, ◌≢◌, ℕ, Bool-cases, true, ◌⊎◌, inl, inr, refl, sym, ap, ◌∙◌, arith, pos, [], ◌∷◌, ◌++◌,
}
use shredular.Errors.{Value, Result, ok, err}
use shredular.GcCell.{GcCell, try_borrow_mut, drop_ref_mut, write}
use shredular.Async.{Outcome, done, fail, pure, checks, lift}
use shredular.Async.Rules.{bind-eq-done, lift-eq-done}
use shredular.Ruby.{Ruby}
use shredular.Fiber.{current, check_suspended, transfer}
use shredular.Fiber.Checks.{check_suspended_lem}
use shredular.TimeoutDuration.{is_zero}
use shredular.Scheduler.{
  Carriers, Process, Block, Tokio, TokioLaws, set_futures, spawn_into, spawn, spawn_and_transfer,
}
use shredular.Scheduler.Spawning.{new_task}
use shredular.Scheduler.Timeout.{deadline, sleep_future, kernel_sleep}
use shredular.Scheduler.BlockUnblock.{insert_blocker, block_future, block}
use shredular.Scheduler.ProcessWait.{process_wait}
use shredular.IoBuffer.{try_convert}
use shredular.RubyIo.{new_with_interest}
use shredular.Scheduler.IoWait.{io_wait, event_from_u32, try_from}
use shredular.Scheduler.IoReadWrite.{io_read, io_write}
use shredular.Scheduler.IoSelect.{io_select}
use shredular.Scheduler.AddressResolve.{address_resolve}
use shredular.Scheduler.Methods
use shredular.Scheduler.Methods.{Call, waits, Outer, call}

result-cases : {A E : Type 0} (r : Result A E) → ((a : A) × (r ≡ ok a)) ⊎ ((e : E) × (r ≡ err e))
result-cases (ok a) = inl (a, refl)
result-cases (err e) = inr (e, refl)

try_borrow_mut-value :
    {A : Type 0} (cell held : GcCell A) → try_borrow_mut cell ≡ ok held → held.value ≡ cell.value
unfolding try_borrow_mut
try_borrow_mut-value cell held e = ground (arith, e)

module _ {c : Carriers} (ruby : Ruby (Process c)) (tokio : Tokio c) where
  -- A future was spawned, whose task is the last of the set and belongs to the running fiber, and control
  -- was given to the root fiber, from where `v` came back.
  abbrev pub Suspended : Value → Process c → Type 0
  Suspended v t =
      (future : Block c) × (u : Process c) × (w : Process c) × (handle : ℕ) × (spawn ruby tokio
          future u
        ≡ (done handle, w))
      × (tokio.tasks w.futures_to_run.value
          ≡ tokio.tasks u.futures_to_run.value ++ new_task ruby tokio future u ∷ [])
      × (ruby.rb_fiber_current w ≢ w.root_fiber.raw)
      × (ruby.rb_fiber_transfer w.root_fiber.raw [] w ≡ (done v, t))

  module _ (laws : TokioLaws tokio) where
    spawn-tasks :
        (future : Block c) (u w : Process c) (handle : ℕ)
        → spawn ruby tokio future u ≡ (done handle, w)
        → tokio.tasks w.futures_to_run.value
          ≡ tokio.tasks u.futures_to_run.value ++ new_task ruby tokio future u ∷ []
    unfolding spawn drop_ref_mut write
    spawn-tasks future u w handle e =
        let task = new_task ruby tokio future u in
        elim (result-cases (try_borrow_mut u.futures_to_run)) [
          | inr (x, refused) ↦
              let failed : spawn ruby tokio future u ≡ (fail x, u) = rw (refused, spawn_into) in
              absurd (cc)
          | inl (held, borrowed) ↦
              let js : c.JoinSet = (tokio.spawn_task held.value task).1 in
              let added : spawn ruby tokio future u ≡ (
                done (tokio.spawn_task held.value task).0,
                set_futures (drop_ref_mut (write js held)) u,
              ) =
                rw (borrowed, spawn_into) in
              let is_js : js ≡ w.futures_to_run.value =
                ap (λ (x : Outcome ℕ × Process c). x.1.futures_to_run.value) (sym added ∙ e) in
              sym (ap tokio.tasks is_js)
              ∙ laws.tasks-spawn_task held.value task
              ∙ ap (λ v. tokio.tasks v ++ task ∷ [])
                  (try_borrow_mut-value u.futures_to_run held borrowed)
        ]

    spawn_and_transfer-Suspended :
        (future : Block c) (s t : Process c) (v : Value)
        → spawn_and_transfer ruby tokio future s ≡ (done v, t)
        → Suspended v t
    unfolding spawn_and_transfer transfer
    spawn_and_transfer-Suspended future s t v e =
        let (handle, w, spawned, rest) = bind-eq-done (spawn ruby tokio future s) _ e in
        let (root, x, checked, moved) =
          bind-eq-done (checks (λ s. check_suspended ruby s.root_fiber s) w) _ rest in
        let (is_root, is_x) = lift-eq-done (check_suspended ruby w.root_fiber w) checked in
        let (alive, away, is_raw) = (check_suspended_lem ruby w.root_fiber w root).0.0 is_root in
        let moved_w : ruby.rb_fiber_transfer w.root_fiber.raw [] w ≡ (done v, t) =
          rw (sym is_raw, is_x) moved in
        (future, s, w, handle, spawned, spawn-tasks future s w handle spawned, away, moved_w)

module _ {c : Carriers} {H Interest Readiness J Address : Type 0}
    (outer : Outer c H Interest Readiness J Address) (laws : TokioLaws outer.tokio) where
  open outer use {ruby, tokio, timers, oneshot, wait, events, io, streams, sets, lookup}

  spawned :
      (future : Block c) (s t : Process c) (v : Value)
      → spawn_and_transfer ruby tokio future s ≡ (done v, t)
      → Suspended ruby tokio v t
  spawned = spawn_and_transfer-Suspended ruby tokio laws

  -- By what tokio documents of `JoinSet::spawn`, a call that waits for something, and that succeeds, has
  -- put one task of the running fiber into the set and has given control to the root fiber, which is
  -- another one; its value is what it got back from there.
  pub call-Suspended :
      (n : ℕ) (call_made : Call c) (s t : Process c) (v : Value)
      → waits call_made ≡ true
      → call outer n call_made s ≡ (done v, t)
      → Suspended ruby tokio v t
  unfolding call address_resolve io_wait io_select kernel_sleep process_wait block current io_read
      io_write
  call-Suspended n (Methods.address_resolve hostname) s t v w e =
      let (text, u, _, rest) = bind-eq-done (lift (lookup.to_string hostname) s) _ e in
      spawned _ u t v rest
  call-Suspended n (Methods.io_wait io_value bits timeout) s t v w e =
      let (interests, u, _, rest) = bind-eq-done (lift (event_from_u32 events bits) s) _ e in
      let (i, x, _, rest') = bind-eq-done (lift (try_from events io interests) u) _ rest in
      let (r, y, _, rest'') = bind-eq-done (new_with_interest io io_value i x) _ rest' in
      spawned _ y t v rest''
  call-Suspended n (Methods.io_select readables writables exceptables timeout) s t v w e =
      spawned _ s t v e
  call-Suspended n (Methods.kernel_sleep duration) s t v w e =
      let (instant, u, _, rest) = bind-eq-done (deadline timers duration s) _ e in
      elim (Bool-cases (is_zero duration)) [
        | inl zero ↦ spawned (pure (ruby.integer (pos 0))) u t v (cc)
        | inr some_time ↦ spawned (sleep_future timers ruby tokio instant duration) u t v (cc)
      ]
  call-Suspended n Methods.close s t v w e = absurd (cc)
  call-Suspended n (Methods.fiber blk) s t v w e = absurd (cc)
  call-Suspended n (Methods.timeout_after duration klass message blk) s t v w e = absurd (cc)
  call-Suspended n (Methods.process_wait pid flags) s t v w e = spawned _ s t v e
  call-Suspended n (Methods.block blocker timeout) s t v w e =
      let ((tx, rx), u, _, rest) = bind-eq-done (oneshot.channel s) _ e in
      let future = block_future ruby tokio timers oneshot rx timeout in
      let (inserted, x, _, rest') =
        bind-eq-done (insert_blocker (record { raw = ruby.rb_fiber_current u }) tx u)
          (λ _. spawn_and_transfer ruby tokio future) rest in
      spawned future x t v rest'
  call-Suspended n (Methods.unblock blocker f) s t v w e = absurd (cc)
  call-Suspended n (Methods.io_read io_value buffer minimum timeout) s t v w e =
      let (checked, u, _, rest) =
        bind-eq-done (lift (try_convert streams.is_typed_data streams.classname buffer) s) _ e in
      let (r, x, _, rest') = bind-eq-done (new_with_interest io io_value io.readable u) _ rest in
      spawned _ x t v rest'
  call-Suspended n (Methods.io_write io_value buffer minimum timeout) s t v w e =
      let (r, x, _, rest) = bind-eq-done (new_with_interest io io_value io.writable s) _ e in
      let (checked, u, _, rest') =
        bind-eq-done (lift (try_convert streams.is_typed_data streams.classname buffer) x) _ rest in
      spawned _ u t v rest'
  call-Suspended n Methods.run s t v w e = absurd (cc)
