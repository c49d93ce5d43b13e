-- ===== src/GcCell/Threads/Refines.antt =====
-- Threads that share a cell of ext/shreduler/src/gc_cell.rs under a lock, against a history of whole
-- operations.
use shredular.Base.{
  ℕ, suc, ◌≡◌, ◌<◌, ◌+◌, refl, sym, ap, ◌∙◌, subst, List, [], ◌∷◌, ◌++◌, arith, i32_min,
  i32_positive, false,
}
use shredular.GcCell.{GcCell, new, try_borrow, try_borrow_mut}
use shredular.GcCell.Guards.{
  Held, Op, borrow, borrow_mut, release, release_mut, assign, start, step, run,
}
use shredular.GcCell.Threads.{
  Pc, idle, borrowing, testing_writes, borrowing_mut, reading, writing, Move, borrow_refused,
  borrow_passed, borrow_added, reads_refused, reads_passed, writes_refused, writes_passed,
  mut_added, dropped, dropped_mut, assigned, System, Step, turn, Reach, later, count, is_reading,
  is_writing,
}
use shredular.GcCell.Threads
use shredular.GcCell.Threads.Safe.{IsSafe}
use shredular.GcCell.Threads.Locked.{
  Outside, idles, count-at, count-idles, others, IsGuarded, at, at-IsSafe, Reach-IsGuarded,
  idles-IsGuarded,
}

suc_eq : (n : ℕ) → 1 + n ≡ suc n
suc_eq n = omega arith

module _ {A : Type 0} where
  -- A thread at `p` over the cell, with `r` readers and `w` writers among the others.
  abbrev held : GcCell A → Pc → ℕ → ℕ → Held A
  held c p r w = record { cell = c; readers = is_reading p + r; writers = is_writing p + w }

  Move-run :
      {c d : GcCell A} {p q : Pc} (r w : ℕ)
      → Move c p d q
      → IsSafe c p r w
      → (ops : List (Op A)) × (run (held c p r w) ops ≡ held d q r w)
  unfolding run step try_borrow try_borrow_mut
  Move-run r w (borrow_refused h) s = ([], refl)
  Move-run r w (borrow_passed h) s = ([], refl)
  Move-run {c} r w borrow_added s =
      let free : i32_positive c.write_count ≡ false = ground arith in
      (borrow ∷ [], rw free (ground arith))
  Move-run r w (reads_refused h) s = ([], refl)
  Move-run r w (reads_passed h) s = ([], refl)
  Move-run r w (writes_refused h) s = ([], refl)
  Move-run r w (writes_passed h) s = ([], refl)
  Move-run {c} r w mut_added s =
      let free : i32_positive c.write_count ≡ false = ground arith in
      let unread : i32_positive c.read_count ≡ false = ground arith in
      (borrow_mut ∷ [], rw (unread, free) (ground arith))
  Move-run r w dropped s = (release ∷ [], rw (suc_eq r) (ground arith))
  Move-run r w dropped_mut s = (release_mut ∷ [], rw (suc_eq w) (ground arith))
  Move-run r w (assigned a) s = (assign a ∷ [], rw (suc_eq w) (ground arith))

  run-append : (h : Held A) (ops more : List (Op A)) → run h (ops ++ more) ≡ run (run h ops) more
  unfolding run
  run-append h [] more = refl
  run-append h (op ∷ ops) more = run-append (step h op) ops more

  -- The cell and the numbers of threads with a guard.
  abbrev pub guards : System A → Held A
  guards s = record {
    cell = s.cell;
    readers = count is_reading s.threads;
    writers = count is_writing s.threads;
  }

  guards-at :
      (before after : List Pc) (p : Pc) (s : System A)
      → s.threads ≡ before ++ p ∷ after
      → guards s ≡ held s.cell p (others before after is_reading) (others before after is_writing)
  guards-at before after p s is =
      rw (is, count-at is_reading before after p, count-at is_writing before after p) refl

  Step-run :
      {s t : System A}
      → Step Outside s t
      → IsGuarded s
      → (ops : List (Op A)) × (run (guards s) ops ≡ guards t)
  Step-run {s} {t} (turn before after p q is is' out out' m) g =
      let guarded : IsGuarded (at before after out out' s.cell p) =
        subst (λ ts. IsGuarded (record { cell = s.cell; threads = ts })) is g in
      let (ops, ran) =
        Move-run (others before after is_reading) (others before after is_writing) m
          (at-IsSafe before after out out' s.cell p guarded) in
      (
        ops,
        ap (λ h. run h ops) (guards-at before after p s is)
            ∙ ran
            ∙ sym (guards-at before after q t is'),
      )

  Reach-run :
      {s t : System A}
      → IsGuarded s
      → Reach Outside s t
      → (ops : List (Op A)) × (run (guards s) ops ≡ guards t)
  unfolding run
  Reach-run g Threads.start = ([], refl)
  Reach-run {s} g (later r st) =
      let (ops, ran) = Reach-run g r in
      let (more, ran') = Step-run st (Reach-IsGuarded g r) in
      (ops ++ more, run-append (guards s) ops more ∙ ap (λ h. run h more) ran ∙ ran')

  -- Fewer than 2 ^ 31 threads share a new cell, and one moves only while no other is inside a borrow.
  -- Whatever state they reach, some history of whole operations, from a cell with no guard, ends with the
  -- same cell, and with as many guards of each kind as there are threads that have one.
  pub run-idles :
      (v : A) (n : ℕ) (t : System A)
      → n < i32_min
      → Reach Outside (record { cell = new v; threads = idles n }) t
      → (ops : List (Op A)) × (run (start v) ops ≡ guards t)
  unfolding start
  run-idles v n t b r =
      let (ops, ran) = Reach-run (idles-IsGuarded v n b) r in
      (
        ops,
        ap (λ h. run h ops) rw (count-idles is_reading refl n, count-idles is_writing refl n) refl
            ∙ ran,
      )
