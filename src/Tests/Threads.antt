-- ===== src/Tests/Threads.antt =====
-- Two threads over a cell of ext/shreduler/src/gc_cell.rs.
use shredular.Base.{List, ℕ, ◌≡◌, ◌≤◌, false, refl, [], ◌∷◌, arith, i32_positive, i32_add}
use shredular.GcCell.{GcCell, new}
use shredular.GcCell.Borrowing.{IsFree}
use shredular.GcCell.Threads.{
  idle, borrowing, reading, writing, borrow_passed, borrow_added, System, turn, Reach,
  start as begin, later, count, is_reading, is_writing,
}
use shredular.GcCell.Threads.Race.{Anytime, two, with_writer, with_reader, both_borrow}
use shredular.GcCell.Guards.{Op, start, run}
use shredular.GcCell.Threads.Refines.{guards, run-idles}
use shredular.GcCell.Threads.Locked.{Outside, idles, locked_exclusive}

abbrev cell : GcCell ℕ
cell = record { value = 4; read_count = 0; write_count = 0 }

abbrev read_once : GcCell ℕ
read_once = record { value = 4; read_count = 1; write_count = 0 }

cell-IsFree : IsFree cell
cell-IsFree = record { no_reader = refl; no_writer = refl }

-- A third thread stands by.
both_borrow_example :
    Reach Anytime
      (two [] [] (idle ∷ []) cell idle idle)
      (two [] [] (idle ∷ []) (with_writer (with_writer cell)) writing writing)
    × Reach Anytime
        (two [] [] (idle ∷ []) cell idle idle)
        (two [] [] (idle ∷ []) (with_writer (with_reader cell)) reading writing)
both_borrow_example = both_borrow [] [] (idle ∷ []) cell cell-IsFree

abbrev four : ℕ
four = 4

-- Two threads borrow a new cell, one after the other.
abbrev first_reads : System ℕ
first_reads = record {
  cell = record (new four) { read_count = i32_add (new four).read_count 1 };
  threads = reading ∷ idle ∷ [];
}

abbrev both_read : System ℕ
both_read = record {
  cell = record (new four) { read_count = i32_add (i32_add (new four).read_count 1) 1 };
  threads = reading ∷ reading ∷ [];
}

unwritten : i32_positive (new four).write_count ≡ false
unfolding new
unwritten = refl

one_reader : Reach Outside (record { cell = new four; threads = idles 2 }) first_reads
one_reader =
    later
      (later begin
        (turn [] (idle ∷ []) idle borrowing refl refl refl refl (borrow_passed unwritten)))
      (turn [] (idle ∷ []) borrowing reading refl refl refl refl borrow_added)

two_readers : Reach Outside (record { cell = new four; threads = idles 2 }) both_read
two_readers =
    later
      (later one_reader
        (turn (reading ∷ []) [] idle borrowing refl refl refl refl (borrow_passed unwritten)))
      (turn (reading ∷ []) [] borrowing reading refl refl refl refl borrow_added)

locked_exclusive_example :
    (both_read.cell.read_count ≡ count is_reading both_read.threads)
    × (both_read.cell.write_count ≡ count is_writing both_read.threads)
    × (count is_writing both_read.threads ≤ 1)
    × (count is_writing both_read.threads ≡ 1 → count is_reading both_read.threads ≡ 0)
locked_exclusive_example = locked_exclusive four 2 both_read (omega arith) two_readers

run-idles_example : (ops : List (Op ℕ)) × (run (start four) ops ≡ guards both_read)
run-idles_example = run-idles four 2 both_read (omega arith) two_readers
