-- ===== src/GcCell/UnitTests.antt =====
-- The unit tests of ext/shreduler/src/gc_cell.rs, as programs that panic where an assertion fails.
use shredular.Base.{ℕ, Bool, true, false, ◌==◌}
use shredular.Errors.{Error, Result, ok, err}
use shredular.Async.{Outcome, M, pure, panics, modify, ◌>>◌}
use shredular.GcCell.{GcCell, new, try_borrow, try_borrow_mut, deref, drop_ref, drop_ref_mut}

abbrev Test : Type 0
Test = M (GcCell ℕ) (Unit {0})

abbrev assert : Bool → Test
assert true = pure tt
assert false = panics

-- `.unwrap()` on a borrow, whose guard stays alive.
abbrev guarded : Result (GcCell ℕ) Error → Test
guarded (ok held) s = (Outcome.done tt, held)
guarded (err e) s = (Outcome.panic, s)

abbrev unwrap : (GcCell ℕ → Result (GcCell ℕ) Error) → Test
unwrap borrow s = guarded (borrow s) s

-- `assert!` of `.is_ok()` or `.is_err()`: a guard that was given is dropped at once, so that the counts
-- are what they were.
abbrev is_ok : Result (GcCell ℕ) Error → Bool
is_ok (ok held) = true
is_ok (err e) = false

abbrev is_err : Result (GcCell ℕ) Error → Bool
is_err (ok held) = false
is_err (err e) = true

abbrev asserts : (GcCell ℕ → Bool) → Test
asserts test s = assert (test s) s

abbrev holds_one : Test
holds_one = asserts (λ cell. deref cell == 1)

abbrev RunOfTest : Type 0
RunOfTest = Outcome (Unit {0}) × GcCell ℕ

unfoldable pub test_it_allows_multiple_immutable_borrows : RunOfTest
test_it_allows_multiple_immutable_borrows =
    (do
      unwrap try_borrow
      unwrap try_borrow
      holds_one
      holds_one
      modify drop_ref
      modify drop_ref)
      (new 1)

unfoldable pub test_it_disallows_multiple_mut_borrows : RunOfTest
test_it_disallows_multiple_mut_borrows =
    (do
      unwrap try_borrow_mut
      asserts (λ cell. is_err (try_borrow_mut cell))
      modify drop_ref_mut
      unwrap try_borrow_mut
      asserts (λ cell. is_err (try_borrow_mut cell))
      modify drop_ref_mut)
      (new 1)

unfoldable pub test_it_disallows_mixed_borrows : RunOfTest
test_it_disallows_mixed_borrows =
    (do
      unwrap try_borrow
      asserts (λ cell. is_err (try_borrow_mut cell))
      modify drop_ref
      unwrap try_borrow_mut
      asserts (λ cell. is_err (try_borrow cell))
      modify drop_ref_mut)
      (new 1)

-- The inner block drops its guard at its end.
unfoldable pub test_it_allows_borrow_after_drop : RunOfTest
test_it_allows_borrow_after_drop =
    (do unwrap try_borrow; modify drop_ref; asserts (λ cell. is_ok (try_borrow cell))) (new 1)

unfoldable pub test_it_allows_mutable_borrow_after_drop : RunOfTest
test_it_allows_mutable_borrow_after_drop =
    (do unwrap try_borrow_mut; modify drop_ref_mut; asserts (λ cell. is_ok (try_borrow_mut cell)))
      (new 1)
