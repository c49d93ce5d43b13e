-- ===== src/FiberFuture/Frames.antt =====
-- What resuming a fiber (ext/shreduler/src/fiber_future.rs) leaves true of the process, by what the
-- calls of the VM leave true.
use shredular.Base.{Bool-cases, ◌≢◌, List, [], ◌∷◌, inl, inr}
use shredular.Errors.{Value, Error, error, exception, jump, Message, Result, ok, err}
use shredular.Async.{starved, lift}
use shredular.Async.Rules.{bind-state, bind-ne-starved, lift-state, lift-ne-starved}
use shredular.Ruby.{Ruby}
use shredular.Fiber.{Fiber, unknown, suspended, is_alive, check_suspended, transfer, raise}
use shredular.FiberFuture.{ResumableFiber, resume_if_alive, resume_with}

module _ {S : Type 0} (ruby : Ruby S) where
  open ruby use {rb_fiber_transfer, rb_fiber_raise, string_new}

  -- Control comes back from the VM, to a process of which `Q` still holds.
  pub record Keeps (Q : S → Type 0) : Type 0 where
    pub transfer_keeps :
        (v : Value) (args : List Value) (s : S) → Q s → Q (rb_fiber_transfer v args s).1
    pub raise_keeps : (v : Value) (args : List Value) (s : S) → Q s → Q (rb_fiber_raise v args s).1
    pub string_keeps : (m : Message) (s : S) → Q s → Q (string_new m s).1

  pub record Returns : Type 0 where
    pub transfer_returns :
        (v : Value) (args : List Value) (s : S) → (rb_fiber_transfer v args s).0 ≢ starved
    pub raise_returns :
        (v : Value) (args : List Value) (s : S) → (rb_fiber_raise v args s).0 ≢ starved
    pub string_returns : (m : Message) (s : S) → (string_new m s).0 ≢ starved

  module _ (Q : S → Type 0) (k : Keeps Q) where
    raise-keeps : (f : Fiber suspended) (e : Error) (s : S) → Q s → Q (raise ruby f e s).1
    unfolding raise
    raise-keeps f (error c m) s q =
        bind-state Q (string_new m s) _ (k.string_keeps m s q) (λ text t. k.raise_keeps f.raw _ t)
    raise-keeps f (exception x) s q = k.raise_keeps f.raw (x ∷ []) s q
    raise-keeps f (jump j) s q = q

    resume_with-keeps :
        (f : Fiber unknown) (r : Result Value Error) (s : S) → Q s → Q (resume_with ruby f r s).1
    unfolding resume_with transfer
    resume_with-keeps f (ok v) s q =
        bind-state Q (lift (check_suspended ruby f s) s) _
          (rw (lift-state (check_suspended ruby f s) s) q)
          (λ g t qt.
            bind-state Q (rb_fiber_transfer g.raw (v ∷ []) t) _
              (k.transfer_keeps g.raw (v ∷ []) t qt) (λ a u qu. qu))
    resume_with-keeps f (err e) s q =
        bind-state Q (lift (check_suspended ruby f s) s) _
          (rw (lift-state (check_suspended ruby f s) s) q)
          (λ g t qt. bind-state Q (raise ruby g e t) _ (raise-keeps g e t qt) (λ a u qu. qu))

    pub resume_if_alive-keeps : (r : ResumableFiber) (s : S) → Q s → Q (resume_if_alive ruby r s).1
    unfolding resume_if_alive
    resume_if_alive-keeps r s q = elim (Bool-cases (is_alive ruby r.fiber s)) [
      | inl alive ↦ rw alive (resume_with-keeps r.fiber r.value s q)
      | inr dead ↦ rw dead q
    ]

  module _ (k : Returns) where
    raise-returns : (f : Fiber suspended) (e : Error) (s : S) → (raise ruby f e s).0 ≢ starved
    unfolding raise
    raise-returns f (error c m) s =
        bind-ne-starved (string_new m s) _ (k.string_returns m s)
          (λ text t e. k.raise_returns f.raw _ t)
    raise-returns f (exception x) s = k.raise_returns f.raw (x ∷ []) s
    raise-returns f (jump j) s = λ h. cc

    resume_with-returns :
        (f : Fiber unknown) (r : Result Value Error) (s : S) → (resume_with ruby f r s).0 ≢ starved
    unfolding resume_with transfer
    resume_with-returns f (ok v) s =
        bind-ne-starved (lift (check_suspended ruby f s) s) _
          (lift-ne-starved (check_suspended ruby f s) s)
          (λ g t _.
            bind-ne-starved (rb_fiber_transfer g.raw (v ∷ []) t) _
              (k.transfer_returns g.raw (v ∷ []) t) (λ a u _ h. cc))
    resume_with-returns f (err e) s =
        bind-ne-starved (lift (check_suspended ruby f s) s) _
          (lift-ne-starved (check_suspended ruby f s) s)
          (λ g t _. bind-ne-starved (raise ruby g e t) _ (raise-returns g e t) (λ a u _ h. cc))

    pub resume_if_alive-returns :
        (r : ResumableFiber) (s : S) → (resume_if_alive ruby r s).0 ≢ starved
    unfolding resume_if_alive
    resume_if_alive-returns r s = elim (Bool-cases (is_alive ruby r.fiber s)) [
      | inl alive ↦ rw alive (resume_with-returns r.fiber r.value s)
      | inr dead ↦ rw dead (λ h. cc)
    ]
