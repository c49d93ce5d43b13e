-- ===== src/GcCell/Borrowing.antt =====
-- A mutable borrow of a cell of ext/shreduler/src/gc_cell.rs, and its end.
use shredular.Base.{◌≡◌, arith}
use shredular.Errors.{error, poisoned_cell_error, already_borrowed, ok, err}
use shredular.GcCell.{GcCell, try_borrow_mut, drop_ref_mut, write}

-- No guard of the cell is alive.
pub record IsFree {A : Type 0} (cell : GcCell A) : Type 0 where
  pub no_reader : cell.read_count ≡ 0
  pub no_writer : cell.write_count ≡ 0

-- One `GcRefMut` of the cell is alive, and no other guard.
pub record IsHeld {A : Type 0} (cell : GcCell A) : Type 0 where
  pub no_reader : cell.read_count ≡ 0
  pub one_writer : cell.write_count ≡ 1

module _ {A : Type 0} where
  abbrev pub with_value : A → GcCell A
  with_value v = record { value = v; read_count = 0; write_count = 0 }

  abbrev pub held_with : A → GcCell A
  held_with v = record { value = v; read_count = 0; write_count = 1 }

  pub free_eq : (cell : GcCell A) → IsFree cell → cell ≡ with_value cell.value
  free_eq cell f = ground arith

  pub held_eq : (cell : GcCell A) → IsHeld cell → cell ≡ held_with cell.value
  held_eq cell f = ground arith

  pub try_borrow_mut_free :
      (cell : GcCell A) → IsFree cell → try_borrow_mut cell ≡ ok (held_with cell.value)
  unfolding try_borrow_mut
  try_borrow_mut_free cell f = ground arith

  pub try_borrow_mut_held :
      (cell : GcCell A)
      → IsHeld cell
      → try_borrow_mut cell ≡ err (error poisoned_cell_error already_borrowed)
  unfolding try_borrow_mut
  try_borrow_mut_held cell h = ground arith

  pub drop-write :
      (cell : GcCell A) (v : A) → IsHeld cell → drop_ref_mut (write v cell) ≡ with_value v
  unfolding drop_ref_mut write
  drop-write cell v h = ground arith

  pub drop_held : (cell : GcCell A) → IsHeld cell → drop_ref_mut cell ≡ with_value cell.value
  unfolding drop_ref_mut
  drop_held cell h = ground arith
