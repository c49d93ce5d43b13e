-- ===== src/GcCell.antt =====
-- ext/shreduler/src/gc_cell.rs: a cell that counts its borrows at run time.
pub mod Borrowing
pub mod Guards
pub mod Exclusion
pub mod Overflow
pub mod Threads
pub mod UnitTests
use shredular.Async.{Outcome, done, panic}
use shredular.Base.{◌==◌, ℕ, ◌||◌, if◌then◌else◌, i32_positive, i32_add, i32_sub}
use shredular.Errors.{
  Error, error, poisoned_cell_error, Message, already_mutably_borrowed, already_borrowed, Result,
  ok, err,
}

-- The two counters are the bit patterns of an `AtomicI32`.
pub record GcCell {ℓ} (A : Type ℓ) : Type ℓ where
  pub value : A
  pub read_count : ℕ
  pub write_count : ℕ

new_error : Message → Error
new_error message = error poisoned_cell_error message

module _ {ℓ} {A : Type ℓ} where
  unfoldable pub new : A → GcCell A
  new value = record { value = value; read_count = 0; write_count = 0 }

  -- The cell after the borrow; the `GcRef` that the source returns is the caller's to drop.
  unfoldable pub try_borrow : GcCell A → Result (GcCell A) Error
  unfolding new_error
  try_borrow c =
      if i32_positive c.write_count
      then err (new_error already_mutably_borrowed)
      else ok (record c { read_count = i32_add c.read_count 1 })

  unfoldable pub try_borrow_mut : GcCell A → Result (GcCell A) Error
  unfolding new_error
  try_borrow_mut c =
      if i32_positive c.read_count || i32_positive c.write_count
      then err (new_error already_borrowed)
      else ok (record c { write_count = i32_add c.write_count 1 })

  -- `Deref` of a `GcRef` and of a `GcRefMut`.
  abbrev pub deref : GcCell A → A
  deref c = c.value

  -- `Drop` of a `GcRef` and of a `GcRefMut`.
  unfoldable pub drop_ref : GcCell A → GcCell A
  drop_ref c = record c { read_count = i32_sub c.read_count 1 }

  unfoldable pub drop_ref_mut : GcCell A → GcCell A
  drop_ref_mut c = record c { write_count = i32_sub c.write_count 1 }

  -- A write through `deref_mut`.
  unfoldable pub write : A → GcCell A → GcCell A
  write a c = record c { value = a }

  -- The test is `rb_during_gc() == 1`, and no count is looked at.
  unfoldable pub borrow_for_gc : ℕ → GcCell A → Outcome A
  borrow_for_gc during_gc c = if during_gc == 1 then done c.value else panic
