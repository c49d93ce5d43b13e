-- ===== src/GcCell/Exclusion.antt =====
-- The borrow rules of ext/shreduler/src/gc_cell.rs, over every history of borrows and drops.
use shredular.Base.{
  ℕ, zero, suc, ◌+◌, ◌≤◌, ◌<◌, ◌≡◌, ◌⊎◌, ◌↔◌, inl, inr, refl, List, [], ◌∷◌, length, arith, i32_min,
}
use shredular.GcCell.Guards.{
  Held, Op, borrow, borrow_mut, release, release_mut, assign, start, step, run, assigned,
}

-- The counters count the guards, and a writer is alone.
pub record IsExclusive {ℓ} {A : Type ℓ} (h : Held A) : Type 0 where
  pub reads_counted : h.cell.read_count ≡ h.readers
  pub writes_counted : h.cell.write_count ≡ h.writers
  pub one_writer : h.writers ≤ 1
  pub writer_alone : h.writers ≡ 1 → h.readers ≡ 0

module _ {ℓ} {A : Type ℓ} where
  step-IsExclusive :
      (h : Held A) (op : Op A) → suc h.readers < i32_min → IsExclusive h → IsExclusive (step h op)
  unfolding step
  step-IsExclusive h borrow b v = ground arith
  step-IsExclusive h borrow_mut b v = ground arith
  step-IsExclusive h release b v = ground arith
  step-IsExclusive h release_mut b v = ground arith
  step-IsExclusive h (assign a) b v = ground arith

  step-readers : (h : Held A) (op : Op A) → (step h op).readers ≤ suc h.readers
  unfolding step
  step-readers h borrow = ground arith
  step-readers h _ = ground arith

  run-IsExclusive :
      (h : Held A) (ops : List (Op A))
      → h.readers + length ops < i32_min
      → IsExclusive h
      → IsExclusive (run h ops)
  unfolding run
  run-IsExclusive h [] b v = v
  run-IsExclusive h (op ∷ ops) b v =
      run-IsExclusive (step h op) ops (omega (arith, step-readers h op))
        (step-IsExclusive h op (omega arith) v)

  -- Over every history of fewer than 2 ^ 31 borrows, drops and writes of a new cell, the two counters
  -- are the numbers of guards alive, and there is at most one writer and never a reader beside it.
  pub run-start-IsExclusive :
      (v : A) (ops : List (Op A)) → length ops < i32_min → IsExclusive (run (start v) ops)
  unfolding start
  run-start-IsExclusive v ops b = run-IsExclusive _ ops (omega arith) (ground arith)

  -- When the counters are right, a shared borrow gives a guard exactly when there is no writer, and a
  -- mutable borrow exactly when there is no guard at all; neither touches the value.
  pub borrow_iff :
      (h : Held A)
      → h.readers < i32_min
      → IsExclusive h
      → ((step h borrow).readers ≡ suc h.readers ↔ h.writers ≡ 0)
        × ((step h borrow_mut).writers ≡ suc h.writers ↔ (h.readers ≡ 0) × (h.writers ≡ 0))
        × ((step h borrow).cell.value ≡ h.cell.value)
        × ((step h borrow_mut).cell.value ≡ h.cell.value)
  unfolding step
  borrow_iff h b v = (
    (λ e. ground arith, λ e. ground arith),
    (λ e. ground arith, λ e. ground arith),
    ground arith,
    ground arith,
  )

  assign-value :
      {h : Held A} {a : A} (w : ℕ)
      → h.writers ≡ w
      → IsExclusive h
      → ((assigned h a w).cell.value ≡ h.cell.value)
        ⊎ ((x : A) × (assign a ≡ assign x)
            × (h.writers ≡ 1)
            × (h.readers ≡ 0)
            × ((assigned h a w).cell.value ≡ x))
  unfolding step
  assign-value zero e v = inl refl
  assign-value {a} (suc w) e v = inr (a, refl, omega arith, omega arith, refl)

  -- The value of the cell stays as it is, unless the one writer assigns it while nobody reads.
  step-value :
      (h : Held A) (op : Op A)
      → IsExclusive h
      → ((step h op).cell.value ≡ h.cell.value)
        ⊎ ((a : A) × (op ≡ assign a)
            × (h.writers ≡ 1)
            × (h.readers ≡ 0)
            × ((step h op).cell.value ≡ a))
  unfolding step
  step-value h borrow v = ground arith
  step-value h borrow_mut v = ground arith
  step-value h release v = ground arith
  step-value h release_mut v = ground arith
  step-value h (assign a) v = assign-value h.writers refl v
