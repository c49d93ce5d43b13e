-- ===== src/GcCell/Guards.antt =====
-- ext/shreduler/src/gc_cell.rs, seen by its users: a cell together with the guards that are alive.
use shredular.Base.{ℕ, zero, suc, List, [], ◌∷◌}
use shredular.Errors.{Error, Result, ok, err}
use shredular.GcCell.{GcCell, new, try_borrow, try_borrow_mut, drop_ref, drop_ref_mut, write}

-- `readers` counts the `GcRef` values that are not yet dropped, `writers` the `GcRefMut` values.
pub record Held {ℓ} (A : Type ℓ) : Type ℓ where
  pub cell : GcCell A
  pub readers : ℕ
  pub writers : ℕ

pub data Op {ℓ} (A : Type ℓ) : Type ℓ where
  borrow borrow_mut release release_mut : Op A
  assign : A → Op A

module _ {ℓ} {A : Type ℓ} where
  unfoldable pub start : A → Held A
  unfolding new
  start v = record { cell = new v; readers = 0; writers = 0 }

  -- A borrow that is refused returns no guard.
  abbrev borrowed : Held A → Result (GcCell A) Error → Held A
  borrowed h (ok c) = record h { cell = c; readers = suc h.readers }
  borrowed h (err e) = h

  abbrev borrowed_mut : Held A → Result (GcCell A) Error → Held A
  borrowed_mut h (ok c) = record h { cell = c; writers = suc h.writers }
  borrowed_mut h (err e) = h

  -- Only a guard that is alive can be dropped or written through.
  abbrev released : Held A → ℕ → Held A
  released h zero = h
  released h (suc r) = record h { cell = drop_ref h.cell; readers = r }

  abbrev released_mut : Held A → ℕ → Held A
  released_mut h zero = h
  released_mut h (suc w) = record h { cell = drop_ref_mut h.cell; writers = w }

  abbrev pub assigned : Held A → A → ℕ → Held A
  assigned h a zero = h
  assigned h a (suc w) = record h { cell = write a h.cell }

  unfoldable pub step : Held A → Op A → Held A
  unfolding try_borrow try_borrow_mut drop_ref drop_ref_mut write
  step h borrow = borrowed h (try_borrow h.cell)
  step h borrow_mut = borrowed_mut h (try_borrow_mut h.cell)
  step h release = released h h.readers
  step h release_mut = released_mut h h.writers
  step h (assign a) = assigned h a h.writers

  unfoldable pub run : Held A → List (Op A) → Held A
  run h [] = h
  run h (op ∷ ops) = run (step h op) ops
