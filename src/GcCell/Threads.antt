-- ===== src/GcCell/Threads.antt =====
-- ext/shreduler/src/gc_cell.rs with threads inside one borrow: each load and each `fetch_add` of a
-- counter is a step of its own.
pub mod Locked
pub mod Race
pub mod Safe
pub mod Refines
use shredular.Base.{arith, ℕ, ◌≡◌, true, false, List, [], ◌∷◌, ◌++◌, ◌+◌, i32_positive, i32_add}
use shredular.GcCell.{GcCell, drop_ref, drop_ref_mut, write}

-- Where a thread stands: outside, between the passed test of `try_borrow` and its `fetch_add`, between
-- the two loads of `try_borrow_mut`, between the second and its `fetch_add`, or with a guard.
pub data Pc : Type 0 where
  idle borrowing testing_writes borrowing_mut reading writing : Pc

module _ {A : Type 0} where
  -- One access to the cell by one thread. A refused borrow ends outside.
  pub data Move (c : GcCell A) : Pc → GcCell A → Pc → Type 0 where
    borrow_refused : i32_positive c.write_count ≡ true → Move c idle c idle
    borrow_passed : i32_positive c.write_count ≡ false → Move c idle c borrowing
    borrow_added : Move c borrowing (record c { read_count = i32_add c.read_count 1 }) reading
    reads_refused : i32_positive c.read_count ≡ true → Move c idle c idle
    reads_passed : i32_positive c.read_count ≡ false → Move c idle c testing_writes
    writes_refused : i32_positive c.write_count ≡ true → Move c testing_writes c idle
    writes_passed : i32_positive c.write_count ≡ false → Move c testing_writes c borrowing_mut
    mut_added : Move c borrowing_mut (record c { write_count = i32_add c.write_count 1 }) writing
    dropped : Move c reading (drop_ref c) idle
    dropped_mut : Move c writing (drop_ref_mut c) idle
    assigned : (a : A) → Move c writing (write a c) writing

-- A cell and the threads that share it.
pub record System (A : Type 0) : Type 0 where
  pub cell : GcCell A
  pub threads : List Pc

-- A thread moves; whom it is between may be constrained by `Allowed`.
pub data Step {A : Type 0} (Allowed : List Pc → Type 0) (s t : System A) : Type 0 where
  turn :
      (before after : List Pc) (p q : Pc)
      → s.threads ≡ before ++ p ∷ after
      → t.threads ≡ before ++ q ∷ after
      → Allowed before
      → Allowed after
      → Move s.cell p t.cell q
      → Step Allowed s t

pub data Reach {A : Type 0} (Allowed : List Pc → Type 0) (s : System A) : System A → Type 0 where
  start : Reach Allowed s s
  later : {t u : System A} → Reach Allowed s t → Step Allowed t u → Reach Allowed s u

-- How many threads stand where `w` says 1.
abbrev pub count : (Pc → ℕ) → List Pc → ℕ
count w [] = 0
count w (p ∷ ps) = w p + count w ps

abbrev pub is_reading : Pc → ℕ
is_reading reading = 1
is_reading _ = 0

abbrev pub is_writing : Pc → ℕ
is_writing writing = 1
is_writing _ = 0

-- Inside a borrow, after a test that it has passed.
abbrev pub is_between : Pc → ℕ
is_between borrowing = 1
is_between testing_writes = 1
is_between borrowing_mut = 1
is_between _ = 0

pub count-append : (w : Pc → ℕ) (ps qs : List Pc) → count w (ps ++ qs) ≡ count w ps + count w qs
count-append w [] qs = omega arith
count-append w (p ∷ ps) qs = omega (arith, count-append w ps qs)
