-- ===== src/GcCell/Threads/Locked.antt =====
-- Threads that share a cell of ext/shreduler/src/gc_cell.rs under a lock that no thread gives up inside a
-- borrow, as Ruby's global lock is not given up inside native code.
use shredular.Base.{
  ℕ, zero, suc, ◌≡◌, ◌≤◌, ◌<◌, ◌+◌, refl, sym, subst, List, [], ◌∷◌, ◌++◌, length, length-append,
  arith, i32_min,
}
use shredular.GcCell.{GcCell, new}
use shredular.GcCell.Threads.Safe.{is_borrowing, is_testing, is_borrowing_mut, IsSafe, Move-IsSafe}
use shredular.GcCell.Threads.{
  Pc, idle, System, Step, turn, Reach, start, later, count, count-append, is_reading, is_writing,
  is_between,
}

-- Nobody is inside a borrow.
abbrev pub Outside : List Pc → Type 0
Outside ps = count is_between ps ≡ 0

pub count-at :
    (w : Pc → ℕ) (ps qs : List Pc) (p : Pc)
    → count w (ps ++ (p ∷ qs)) ≡ w p + (count w ps + count w qs)
count-at w ps qs p = omega (arith, count-append w ps (p ∷ qs))

count-Outside :
    (w : Pc → ℕ) → ((p : Pc) → w p ≤ is_between p) → (ps : List Pc) → Outside ps → count w ps ≡ 0
count-Outside w le [] o = refl
count-Outside w le (p ∷ ps) o = omega (arith, le p, count-Outside w le ps (omega arith))

count-le : (w : Pc → ℕ) → ((p : Pc) → w p ≤ 1) → (ps : List Pc) → count w ps ≤ length ps
count-le w le [] = omega arith
count-le w le (p ∷ ps) = omega (arith, le p, count-le w le ps)

borrowing-le : (p : Pc) → is_borrowing p ≤ is_between p
borrowing-le p = ground arith

testing-le : (p : Pc) → is_testing p ≤ is_between p
testing-le p = ground arith

borrowing_mut-le : (p : Pc) → is_borrowing_mut p ≤ is_between p
borrowing_mut-le p = ground arith

reading-le : (p : Pc) → is_reading p ≤ 1
reading-le p = ground arith

-- The counters count the guards, a writer is alone, and a test that was passed still holds.
pub record IsGuarded {A : Type 0} (s : System A) : Type 0 where
  pub reads : s.cell.read_count ≡ count is_reading s.threads
  pub writes : s.cell.write_count ≡ count is_writing s.threads
  pub few : length s.threads < i32_min
  pub one_writer : count is_writing s.threads ≤ 1
  pub alone : count is_writing s.threads ≡ 1 → count is_reading s.threads ≡ 0
  pub passed : count is_borrowing s.threads ≡ 1 → count is_writing s.threads ≡ 0
  pub unread : count is_testing s.threads ≡ 1 → count is_reading s.threads ≡ 0
  pub unheld :
      count is_borrowing_mut s.threads ≡ 1
      → count is_reading s.threads + count is_writing s.threads ≡ 0

module _ (before after : List Pc) where
  abbrev pub others : (Pc → ℕ) → ℕ
  others w = count w before + count w after

module _ (before after : List Pc) (out : Outside before) (out' : Outside after) where
  counts :
      (p : Pc)
      → (count is_reading (before ++ (p ∷ after)) ≡ is_reading p + others before after is_reading)
        × (count is_writing (before ++ (p ∷ after)) ≡ is_writing p + others before after is_writing)
        × (count is_borrowing (before ++ (p ∷ after)) ≡ is_borrowing p)
        × (count is_testing (before ++ (p ∷ after)) ≡ is_testing p)
        × (count is_borrowing_mut (before ++ (p ∷ after)) ≡ is_borrowing_mut p)
        × (length (before ++ (p ∷ after)) ≡ length before + length after + 1)
  counts p = (
    count-at is_reading before after p,
    count-at is_writing before after p,
    omega (
      arith,
      count-at is_borrowing before after p,
      count-Outside is_borrowing borrowing-le before out,
      count-Outside is_borrowing borrowing-le after out',
    ),
    omega (
      arith,
      count-at is_testing before after p,
      count-Outside is_testing testing-le before out,
      count-Outside is_testing testing-le after out',
    ),
    omega (
      arith,
      count-at is_borrowing_mut before after p,
      count-Outside is_borrowing_mut borrowing_mut-le before out,
      count-Outside is_borrowing_mut borrowing_mut-le after out',
    ),
    omega (arith, length-append before (p ∷ after)),
  )

module _ {A : Type 0} (before after : List Pc) (out : Outside before) (out' : Outside after) where
  abbrev pub at : GcCell A → Pc → System A
  at c p = record { cell = c; threads = before ++ (p ∷ after) }

  pub at-IsSafe :
      (c : GcCell A) (p : Pc)
      → IsGuarded (at c p)
      → IsSafe c p (others before after is_reading) (others before after is_writing)
  at-IsSafe c p g =
      let few = counts before after out out' p in
      let r = count-le is_reading reading-le before in
      let r' = count-le is_reading reading-le after in ground arith

  at-IsGuarded :
      (c : GcCell A) (p : Pc)
      → length (before ++ (p ∷ after)) < i32_min
      → IsSafe c p (others before after is_reading) (others before after is_writing)
      → IsGuarded (at c p)
  at-IsGuarded c p b s = let few = counts before after out out' p in ground arith

module _ {A : Type 0} where
  Step-IsGuarded : {s t : System A} → Step Outside s t → IsGuarded s → IsGuarded t
  Step-IsGuarded {s} {t} (turn before after p q is is' out out' m) g =
      let guarded : IsGuarded (at before after out out' s.cell p) =
        subst (λ ts. IsGuarded (record { cell = s.cell; threads = ts })) is g in
      let now = counts before after out out' p in
      let later = counts before after out out' q in
      let r = count-le is_reading reading-le before in
      let r' = count-le is_reading reading-le after in
      let safe =
        Move-IsSafe (others before after is_reading) (others before after is_writing)
          (omega (arith, guarded.few)) m (at-IsSafe before after out out' s.cell p guarded) in
      subst (λ ts. IsGuarded (record { cell = t.cell; threads = ts })) (sym is')
        (at-IsGuarded before after out out' t.cell q (omega (arith, guarded.few)) safe)

  pub Reach-IsGuarded : {s t : System A} → IsGuarded s → Reach Outside s t → IsGuarded t
  Reach-IsGuarded g start = g
  Reach-IsGuarded g (later r st) = Step-IsGuarded st (Reach-IsGuarded g r)

abbrev pub idles : ℕ → List Pc
idles zero = []
idles (suc n) = idle ∷ idles n

pub count-idles : (w : Pc → ℕ) → w idle ≡ 0 → (n : ℕ) → count w (idles n) ≡ 0
count-idles w z zero = refl
count-idles w z (suc n) = omega (arith, z, count-idles w z n)

length-idles : (n : ℕ) → length (idles n) ≡ n
length-idles zero = refl
length-idles (suc n) = omega (arith, length-idles n)

module _ {A : Type 0} where
  pub idles-IsGuarded :
      (v : A) (n : ℕ) → n < i32_min → IsGuarded (record { cell = new v; threads = idles n })
  unfolding new
  idles-IsGuarded v n b = record {
    reads = sym (count-idles is_reading refl n);
    writes = sym (count-idles is_writing refl n);
    few = omega (arith, length-idles n);
    one_writer = omega (arith, count-idles is_writing refl n);
    alone = λ _. count-idles is_reading refl n;
    passed = λ _. count-idles is_writing refl n;
    unread = λ _. count-idles is_reading refl n;
    unheld = λ _. omega (arith, count-idles is_reading refl n, count-idles is_writing refl n);
  }

  -- Fewer than 2 ^ 31 threads share a new cell, and one moves only while no other is inside a borrow.
  -- Then in every state they can reach, the counters are the numbers of threads with a guard, at most
  -- one thread writes, and none reads beside it.
  pub locked_exclusive :
      (v : A) (n : ℕ) (t : System A)
      → n < i32_min
      → Reach Outside (record { cell = new v; threads = idles n }) t
      → (t.cell.read_count ≡ count is_reading t.threads)
        × (t.cell.write_count ≡ count is_writing t.threads)
        × (count is_writing t.threads ≤ 1)
        × (count is_writing t.threads ≡ 1 → count is_reading t.threads ≡ 0)
  locked_exclusive v n t b r =
      let g = Reach-IsGuarded (idles-IsGuarded v n b) r in
      (g.reads, g.writes, g.one_writer, g.alone)
