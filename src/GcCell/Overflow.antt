-- ===== src/GcCell/Overflow.antt =====
-- ext/shreduler/src/gc_cell.rs past the range of its counters: `fetch_add` wraps, and the test
-- `read_count > 0` is false of the patterns from 2 ^ 31 on.
use shredular.Base.{ℕ, zero, suc, ◌+◌, ◌≤◌, ◌<◌, ◌≡◌, refl, sym, ◌∙◌, arith, i32_min, i32_mod}
use shredular.GcCell.Guards.{Held, borrow, borrow_mut, start, step}

module _ {ℓ} {A : Type ℓ} where
  -- `n` shared borrows in a row.
  pub borrows : ℕ → Held A → Held A
  borrows zero h = h
  borrows (suc n) h = borrows n (step h borrow)

  borrow-counts :
      (h : Held A)
      → h.writers ≡ 0
      → h.cell.write_count ≡ 0
      → h.cell.read_count ≡ h.readers
      → suc h.readers < i32_mod
      → ((step h borrow).writers ≡ 0)
        × ((step h borrow).cell.write_count ≡ 0)
        × ((step h borrow).cell.read_count ≡ suc h.readers)
        × ((step h borrow).readers ≡ suc h.readers)
  unfolding step
  borrow-counts h w wc rc b = ground arith

  borrows-counts :
      (n : ℕ) (h : Held A)
      → h.writers ≡ 0
      → h.cell.write_count ≡ 0
      → h.cell.read_count ≡ h.readers
      → h.readers + n < i32_mod
      → ((borrows n h).writers ≡ 0)
        × ((borrows n h).cell.write_count ≡ 0)
        × ((borrows n h).cell.read_count ≡ h.readers + n)
        × ((borrows n h).readers ≡ h.readers + n)
  unfolding borrows
  borrows-counts zero h w wc rc b = omega arith
  borrows-counts (suc n) h w wc rc b =
      let now = borrow-counts h w wc rc (omega arith) in
      let later = borrows-counts n (step h borrow) now.0 now.1 (now.2 ∙ sym now.3) (omega arith) in
      omega arith

  mut_past_range :
      (h : Held A)
      → h.writers ≡ 0
      → h.cell.write_count ≡ 0
      → i32_min ≤ h.cell.read_count
      → (step h borrow_mut).writers ≡ 1
  unfolding step
  mut_past_range h w wc rc = ground arith

  borrow_mut-readers : (h : Held A) → (step h borrow_mut).readers ≡ h.readers
  unfolding step
  borrow_mut-readers h = ground arith

  -- After 2 ^ 31 or more shared borrows of a new cell that are all alive, up to the next multiple of
  -- 2 ^ 32, a mutable borrow is granted beside all of them.
  pub many_readers_and_writer :
      (v : A) (n : ℕ)
      → i32_min ≤ n
      → n < i32_mod
      → ((borrows n (start v)).readers ≡ n)
        × ((step (borrows n (start v)) borrow_mut).writers ≡ 1)
        × ((step (borrows n (start v)) borrow_mut).readers ≡ n)
  unfolding start
  many_readers_and_writer v n lo hi =
      let counts = borrows-counts n (start v) refl refl refl (omega arith) in
      (
        omega arith,
        mut_past_range (borrows n (start v)) counts.0 counts.1 (omega arith),
        ground (arith, borrow_mut-readers (borrows n (start v))),
      )
