-- ===== src/Async.antt =====
-- The effects of the program: a computation reads and changes the state of the process, and ends in
-- an outcome. An `async` block is such a computation, run to its end with its awaits inside.
pub mod Rules
use shredular.Errors.{Error, Result, ok, err}

-- `done` and `fail` are `Ok` and `Err`; `panic` is an unwinding; `dropped` is a future that is
-- dropped at an await and never polled again; `starved` marks a loop of the model out of fuel.
pub data Outcome {ℓ} (A : Type ℓ) : Type ℓ where
  done : A → Outcome A
  fail : Error → Outcome A
  panic dropped starved : Outcome A

abbrev pub M : Type 0 → Type 0 → Type 0
M S A = S → Outcome A × S

module _ {S A : Type 0} where
  abbrev pub pure : A → M S A
  pure a s = (done a, s)

  abbrev pub throw : Error → M S A
  throw e s = (fail e, s)

  abbrev pub panics : M S A
  panics s = (panic, s)

  -- `?` on a value.
  abbrev pub lift : Result A Error → M S A
  lift (ok a) s = (done a, s)
  lift (err e) s = (fail e, s)

  abbrev pub reads : (S → A) → M S A
  reads f s = (done (f s), s)

  -- `?` on a value that is computed from the state.
  abbrev pub checks : (S → Result A Error) → M S A
  checks f s = lift (f s) s

  -- A guard that is dropped however the computation ends.
  abbrev pub after : Outcome A × S → (S → S) → Outcome A × S
  after (o, s) release = (o, release s)

  abbrev pub finally : M S A → (S → S) → M S A
  finally m release s = after (m s) release

  -- A `Result` that is kept as a value.
  abbrev pub kept : Outcome A × S → Outcome (Result A Error) × S
  kept (done a, s) = (done (ok a), s)
  kept (fail e, s) = (done (err e), s)
  kept (panic, s) = (panic, s)
  kept (dropped, s) = (dropped, s)
  kept (starved, s) = (starved, s)

  abbrev pub attempt : M S A → M S (Result A Error)
  attempt m s = kept (m s)

abbrev pub modify : {S : Type 0} → (S → S) → M S (Unit {0})
modify f s = (done tt, f s)

module _ {S A B : Type 0} where
  abbrev pub bind : Outcome A × S → (A → M S B) → Outcome B × S
  bind (done a, s) f = f a s
  bind (fail e, s) f = (fail e, s)
  bind (panic, s) f = (panic, s)
  bind (dropped, s) f = (dropped, s)
  bind (starved, s) f = (starved, s)

infixl 5 ◌>>=◌ ◌>>◌
abbrev pub ◌>>=◌ : {S A B : Type 0} → M S A → (A → M S B) → M S B
◌>>=◌ m f s = bind (m s) f

abbrev pub ◌>>◌ : {S B : Type 0} → M S (Unit {0}) → M S B → M S B
◌>>◌ m k s = bind (m s) (λ _. k)
