-- ===== src/Async/Rules.antt =====
-- Rules for reasoning about a computation by its parts.
use shredular.Base.{Bool, true, false, if◌then◌else◌, ◌≡◌, ◌≢◌, refl}
use shredular.Errors.{Error, Result, ok, err}
use shredular.Async.{Outcome, done, fail, panic, dropped, starved, M, bind, lift, throw, after}

module _ {S A B : Type 0} where
  -- What the first part and all that can follow leave true of the state.
  pub bind-state {ℓ} :
      (Q : S → Type ℓ) (p : Outcome A × S) (f : A → M S B)
      → Q p.1
      → ((a : A) (s : S) → Q s → Q (f a s).1)
      → Q (bind p f).1
  bind-state Q (done a, s) f q k = k a s q
  bind-state Q (fail e, s) f q k = q
  bind-state Q (panic, s) f q k = q
  bind-state Q (dropped, s) f q k = q
  bind-state Q (starved, s) f q k = q

  -- A successful computation went through a successful first part.
  pub bind-eq-done :
      (p : Outcome A × S) (f : A → M S B) {b : B} {t : S}
      → bind p f ≡ (done b, t)
      → (a : A) × (s : S) × (p ≡ (done a, s)) × (f a s ≡ (done b, t))
  bind-eq-done (done a, s) f h = (a, s, refl, h)
  bind-eq-done (fail e, s) f h = cc
  bind-eq-done (panic, s) f h = cc
  bind-eq-done (dropped, s) f h = cc
  bind-eq-done (starved, s) f h = cc

  pub bind-ne-starved :
      (p : Outcome A × S) (f : A → M S B)
      → p.0 ≢ starved
      → ((a : A) (s : S) → p ≡ (done a, s) → (f a s).0 ≢ starved)
      → (bind p f).0 ≢ starved
  bind-ne-starved (done a, s) f n k = k a s refl
  bind-ne-starved (fail e, s) f n k = λ h. cc
  bind-ne-starved (panic, s) f n k = λ h. cc
  bind-ne-starved (dropped, s) f n k = λ h. cc
  bind-ne-starved (starved, s) f n k = absurd (n refl)

module _ {S A : Type 0} where
  pub lift-state : (r : Result A Error) (s : S) → (lift r s).1 ≡ s
  lift-state (ok a) s = refl
  lift-state (err e) s = refl

  pub lift-eq-done :
      (r : Result A Error) {a : A} {s t : S} → lift r s ≡ (done a, t) → (r ≡ ok a) × (s ≡ t)
  lift-eq-done (ok b) e = (cc, cc)
  lift-eq-done (err x) e = cc

  pub lift-ne-starved : (r : Result A Error) (s : S) → (lift r s).0 ≢ starved
  lift-ne-starved (ok a) s = λ h. cc
  lift-ne-starved (err e) s = λ h. cc

  pub after-eq-done :
      (p : Outcome A × S) (release : S → S) {a : A} {t : S}
      → after p release ≡ (done a, t)
      → (s : S) × (p ≡ (done a, s)) × (release s ≡ t)
  after-eq-done (o, s) release h = (s, cc, cc)

  pub done-injective : {a b : A} {s t : S} → ◌≡◌ {A = Outcome A × S} (done a, s) (done b, t) → a ≡ b
  done-injective h = cc

  -- A check that throws was passed if the whole succeeds.
  pub if-throw-done :
      (b : Bool) (e : Error) (m : M S A) {a : A} {s t : S}
      → (if b then throw e else m) s ≡ (done a, t)
      → (b ≡ false) × (m s ≡ (done a, t))
  if-throw-done true e m h = cc
  if-throw-done false e m h = (refl, h)
