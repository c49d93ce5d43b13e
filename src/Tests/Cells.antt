-- ===== src/Tests/Cells.antt =====
-- Cells with a few guards.
use shredular.Base.{ℕ, ◌≡◌, refl, List, [], ◌∷◌, arith, i32_min}
use shredular.Async.{Outcome, done}
use shredular.GcCell
use shredular.GcCell.{GcCell, try_borrow, try_borrow_mut, drop_ref, drop_ref_mut}
use shredular.GcCell.UnitTests.{
  test_it_allows_multiple_immutable_borrows, test_it_disallows_multiple_mut_borrows,
  test_it_disallows_mixed_borrows, test_it_allows_borrow_after_drop,
  test_it_allows_mutable_borrow_after_drop,
}
use shredular.GcCell.Guards.{Held, Op, borrow, borrow_mut, release, assign, start, step, run}
use shredular.GcCell.Exclusion.{IsExclusive, run-start-IsExclusive}
use shredular.GcCell.Overflow.{borrows, many_readers_and_writer}

-- A writer among two readers is refused; when they are gone it is granted, and a reader refused.
abbrev history : List (Op ℕ)
history = borrow ∷ borrow ∷ borrow_mut ∷ release ∷ release ∷ borrow_mut ∷ borrow ∷ assign 5 ∷ []

history_readers : (run (start 4) history).readers ≡ 0
unfolding run start step
history_readers = refl

history_writers : (run (start 4) history).writers ≡ 1
unfolding run start step
history_writers = refl

history_value : (run (start 4) history).cell.value ≡ 5
unfolding run start step
history_value = refl

run-start-IsExclusive_example : IsExclusive (run (start 4) history)
run-start-IsExclusive_example = run-start-IsExclusive 4 history (omega arith)

-- One writer.
abbrev one_writer : Held ℕ
one_writer = record {
  cell = record { value = 4; read_count = 0; write_count = 1 };
  readers = 0;
  writers = 1;
}

one_writer-IsExclusive : IsExclusive one_writer
one_writer-IsExclusive = record {
  reads_counted = refl;
  writes_counted = refl;
  one_writer = omega arith;
  writer_alone = λ e. refl;
}

abbrev four : ℕ
four = 4

many_readers_and_writer_example :
    ((borrows i32_min (start four)).readers ≡ i32_min)
    × ((step (borrows i32_min (start four)) borrow_mut).writers ≡ 1)
    × ((step (borrows i32_min (start four)) borrow_mut).readers ≡ i32_min)
many_readers_and_writer_example = many_readers_and_writer four i32_min (omega arith) (omega arith)

-- The program's own tests pass, and leave the cell as new.
abbrev passed : Outcome (Unit {0}) × GcCell ℕ
passed = (done tt, record { value = 1; read_count = 0; write_count = 0 })

allows_multiple_immutable_borrows_pass : test_it_allows_multiple_immutable_borrows ≡ passed
unfolding test_it_allows_multiple_immutable_borrows GcCell.new try_borrow try_borrow_mut drop_ref
    drop_ref_mut
allows_multiple_immutable_borrows_pass = refl

disallows_multiple_mut_borrows_pass : test_it_disallows_multiple_mut_borrows ≡ passed
unfolding test_it_disallows_multiple_mut_borrows GcCell.new try_borrow try_borrow_mut drop_ref
    drop_ref_mut
disallows_multiple_mut_borrows_pass = refl

disallows_mixed_borrows_pass : test_it_disallows_mixed_borrows ≡ passed
unfolding test_it_disallows_mixed_borrows GcCell.new try_borrow try_borrow_mut drop_ref drop_ref_mut
disallows_mixed_borrows_pass = refl

allows_borrow_after_drop_pass : test_it_allows_borrow_after_drop ≡ passed
unfolding test_it_allows_borrow_after_drop GcCell.new try_borrow try_borrow_mut drop_ref
    drop_ref_mut
allows_borrow_after_drop_pass = refl

allows_mutable_borrow_after_drop_pass : test_it_allows_mutable_borrow_after_drop ≡ passed
unfolding test_it_allows_mutable_borrow_after_drop GcCell.new try_borrow try_borrow_mut drop_ref
    drop_ref_mut
allows_mutable_borrow_after_drop_pass = refl
