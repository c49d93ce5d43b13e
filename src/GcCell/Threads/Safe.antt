-- ===== src/GcCell/Threads/Safe.antt =====
-- One access of one thread to the cell of ext/shreduler/src/gc_cell.rs, with no other thread inside a borrow.
use shredular.Base.{ℕ, ◌≡◌, ◌≤◌, ◌<◌, ◌+◌, arith, i32_min}
use shredular.GcCell.{GcCell, drop_ref, drop_ref_mut, write}
use shredular.GcCell.Threads.{
  Pc, borrowing, testing_writes, borrowing_mut, Move, borrow_refused, borrow_passed, borrow_added,
  reads_refused, reads_passed, writes_refused, writes_passed, mut_added, dropped, dropped_mut,
  assigned, is_reading, is_writing,
}

abbrev pub is_borrowing : Pc → ℕ
is_borrowing borrowing = 1
is_borrowing _ = 0

abbrev pub is_testing : Pc → ℕ
is_testing testing_writes = 1
is_testing _ = 0

abbrev pub is_borrowing_mut : Pc → ℕ
is_borrowing_mut borrowing_mut = 1
is_borrowing_mut _ = 0

-- One thread at `p`, and `r` readers and `w` writers among the others, of whom nobody is inside a borrow.
pub record IsSafe {A : Type 0} (c : GcCell A) (p : Pc) (r w : ℕ) : Type 0 where
  pub reads : c.read_count ≡ is_reading p + r
  pub writes : c.write_count ≡ is_writing p + w
  pub few : r < i32_min
  pub one_writer : is_writing p + w ≤ 1
  pub alone : is_writing p + w ≡ 1 → is_reading p + r ≡ 0
  pub passed : is_borrowing p ≡ 1 → w ≡ 0
  pub unread : is_testing p ≡ 1 → r ≡ 0
  pub unheld : is_borrowing_mut p ≡ 1 → r + w ≡ 0

module _ {A : Type 0} where
  pub Move-IsSafe :
      {c d : GcCell A} {p q : Pc} (r w : ℕ)
      → r + 1 < i32_min
      → Move c p d q
      → IsSafe c p r w
      → IsSafe d q r w
  unfolding drop_ref drop_ref_mut write
  Move-IsSafe r w b (borrow_refused h) s = ground arith
  Move-IsSafe r w b (borrow_passed h) s = ground arith
  Move-IsSafe r w b borrow_added s = ground arith
  Move-IsSafe r w b (reads_refused h) s = ground arith
  Move-IsSafe r w b (reads_passed h) s = ground arith
  Move-IsSafe r w b (writes_refused h) s = ground arith
  Move-IsSafe r w b (writes_passed h) s = ground arith
  Move-IsSafe r w b mut_added s = ground arith
  Move-IsSafe r w b dropped s = ground arith
  Move-IsSafe r w b dropped_mut s = ground arith
  Move-IsSafe r w b (assigned a) s = ground arith
