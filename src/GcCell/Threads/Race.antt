-- ===== src/GcCell/Threads/Race.antt =====
-- Two threads that borrow a cell of ext/shreduler/src/gc_cell.rs at once: the test and the `fetch_add` are
-- two accesses.
use mathlib.Core.List.{append_assoc}
use shredular.Base.{◌≡◌, false, refl, sym, List, ◌∷◌, ◌++◌, arith, i32_positive, i32_add}
use shredular.GcCell.{GcCell}
use shredular.GcCell.Borrowing.{IsFree}
use shredular.GcCell.Threads.{
  Pc, idle, borrowing, borrowing_mut, reading, writing, Move, borrow_passed, borrow_added,
  reads_passed, writes_passed, mut_added, System, turn, Reach, start, later,
}

-- Any thread may move at any time.
abbrev pub Anytime : List Pc → Type 0
Anytime ps = Unit {0}

module _ {A : Type 0} where
  abbrev pub with_writer : GcCell A → GcCell A
  with_writer c = record c { write_count = i32_add c.write_count 1 }

  abbrev pub with_reader : GcCell A → GcCell A
  with_reader c = record c { read_count = i32_add c.read_count 1 }

module _ {A : Type 0} (xs ys zs : List Pc) where
  -- A system with two threads singled out.
  abbrev pub two : GcCell A → Pc → Pc → System A
  two c p q = record { cell = c; threads = xs ++ (p ∷ (ys ++ (q ∷ zs))) }

  first :
      {s : System A} {c d : GcCell A} {p p' : Pc} (q : Pc)
      → Move c p d p'
      → Reach Anytime s (two c p q)
      → Reach Anytime s (two d p' q)
  first {p} {p'} q m r = later r (turn xs (ys ++ (q ∷ zs)) p p' refl refl tt tt m)

  second :
      {s : System A} {c d : GcCell A} {q q' : Pc} (p : Pc)
      → Move c q d q'
      → Reach Anytime s (two c p q)
      → Reach Anytime s (two d p q')
  second {q} {q'} p m r = later r (
      turn (xs ++ (p ∷ ys)) zs q q' (sym (append_assoc xs (p ∷ ys) (q ∷ zs)))
        (sym (append_assoc xs (p ∷ ys) (q' ∷ zs))) tt tt m)

  -- Any two threads that stand outside, over a cell with no guard alive and wherever the others stand, can
  -- both get a `GcRefMut`, and can get a `GcRef` and a `GcRefMut`, if both test before either counts.
  pub both_borrow :
      (c : GcCell A)
      → IsFree c
      → Reach Anytime (two c idle idle) (two (with_writer (with_writer c)) writing writing)
        × Reach Anytime (two c idle idle) (two (with_writer (with_reader c)) reading writing)
  both_borrow c free =
      let unread : i32_positive c.read_count ≡ false = ground arith in
      let unwritten : i32_positive c.write_count ≡ false = ground arith in
      (
        second writing mut_added (
            first borrowing_mut mut_added (
              second borrowing_mut (writes_passed unwritten) (
                second borrowing_mut (reads_passed unread) (
                  first idle (writes_passed unwritten) (first idle (reads_passed unread) start))))),
        second reading mut_added (
            first borrowing_mut borrow_added (
              second borrowing (writes_passed unwritten) (
                second borrowing (reads_passed unread)
                  (first idle (borrow_passed unwritten) start)))),
      )
