-- ===== src/Scheduler/IoSelect/Tasks.antt =====
-- The tasks that `io_select` (ext/shreduler/src/tokio_scheduler/io_select.rs) spawns, and their results.
use mathlib.Core.List.{Memᴰ}
use shredular.Base.{
  true, ◌≡◌, ◌≢◌, refl, sym, subst, ap, ◌∙◌, Option, none, some, List, [], ◌∷◌, ◌++◌, All,
  All-append, ◌↔◌,
}
use shredular.Errors.{Value, Error, Result, ok, err}
use shredular.Async.{done, M, pure, lift}
use shredular.Async.Rules.{bind-eq-done, done-injective}
use shredular.Ruby.{Ruby}
use shredular.Intern
use shredular.Nilable.{Nilable, value, nil}
use shredular.RubyIo.{
  Io, BackingIo, RubyIo, new_with_interest, ruby_ready, from_value_and_raw_fd, or_ready_error,
  backing_ready,
}
use shredular.Scheduler.{Carriers, Process, Tokio}
use shredular.Scheduler.Timeout.{Timers}
use shredular.Scheduler.IoSelect.{Wanted, Sets, wait_for, push_all, push_some}

-- What tokio documents of a `JoinSet`: a task that was joined with a value is one of the set and has
-- ended with that value; and what it documents of interests.
pub record SetsLaws {S J H Interest Readiness : Type 0} (io : Io S H Interest Readiness)
    (sets : Sets S J Interest) : Type 0 where
  pub tasks-new_set : sets.tasks sets.new_set ≡ []
  pub tasks-spawn_wait :
      (set : J) (task : M S (Wanted Interest))
      → sets.tasks (sets.spawn_wait set task) ≡ sets.tasks set ++ task ∷ []
  pub join_next-task :
      (set rest : J) (wanted : Wanted Interest) (s t : S)
      → sets.join_next set s ≡ (done (some (ok (ok wanted)), rest), t)
      → (task : M S (Wanted Interest)) × (before : S) × (after : S) × Memᴰ task (sets.tasks set)
        × (task before ≡ (done wanted, after))
  pub eq_interest_iff : (i j : Interest) → (sets.eq_interest i j ≡ true) ↔ (i ≡ j)
  pub readable-ne-writable : io.readable ≢ io.writable
  pub readable-ne-both : io.readable ≢ io.or_interest io.readable io.writable
  pub writable-ne-both : io.writable ≢ io.or_interest io.readable io.writable

pub All-at : {A : Type 0} (P : A → Type 0) (a : A) (xs : List A) → All P xs → Memᴰ a xs → P a
All-at P a [] h m = elim m [ ]
All-at P a (x ∷ xs) h (Memᴰ.head e) = subst P (sym e) h.0
All-at P a (x ∷ xs) h (Memᴰ.tail m) = All-at P a xs h.1 m

-- The elements of an argument that may be missing or nil.
abbrev pub elements : Option (Nilable (List (Result Value Error))) → List (Result Value Error)
elements (some (value xs)) = xs
elements (some nil) = []
elements none = []

module _ {c : Carriers} {H Interest Readiness J : Type 0} (ruby : Ruby (Process c))
    (tokio : Tokio c) (timers : Timers c) (io : Io (Process c) H Interest Readiness)
    (sets : Sets (Process c) J Interest) where
  same_value :
      (v : Value) (b : BackingIo H) (s t : Process c) (r : RubyIo H)
      → pure {S = Process c} (record { value = v; backing_io = b }) s ≡ (done r, t)
      → r.value ≡ v
  same_value v b s t r e = ap (λ (q : RubyIo H). q.value) (sym (done-injective e))

  new_with_interest-value :
      (v : Value) (i : Interest) (s t : Process c) (r : RubyIo H)
      → new_with_interest io v i s ≡ (done r, t)
      → r.value ≡ v
  unfolding new_with_interest
  new_with_interest-value v i s t r e =
      let (klass, s1, _, e1) = bind-eq-done (Intern.io io.interning s) _ e in
      let (try_convert, s2, _, e2) = bind-eq-done (Intern.try_convert io.interning s1) _ e1 in
      let (_, s3, _, e3) = bind-eq-done (io.funcall klass try_convert (v ∷ []) s2) _ e2 in
      let (fileno, s4, _, e4) = bind-eq-done (Intern.fileno io.interning s3) _ e3 in
      let (fd, s5, _, e5) = bind-eq-done (io.funcall_fd v fileno s4) _ e4 in
      let (b, s6, _, e6) = bind-eq-done (from_value_and_raw_fd io v fd s5) _ e5 in
      same_value v b s6 t r e6

  ruby_ready-value :
      (r : RubyIo H) (i : Interest) (s t : Process c) (p : Value × Readiness)
      → ruby_ready io r i s ≡ (done p, t)
      → p.0 ≡ r.value
  unfolding ruby_ready
  ruby_ready-value r i s t p e =
      let (readiness, u, _, e1) =
        bind-eq-done (or_ready_error io (backing_ready io r.backing_io i s)) _ e in
      ap (λ (q : Value × Readiness). q.0) (sym (done-injective e1))

  lift-done :
      (el : Result Value Error) (s t : Process c) (v : Value) → lift el s ≡ (done v, t) → el ≡ ok v
  lift-done (ok a) s t v e = cc
  lift-done (err x) s t v e = cc

  -- A task ends with the IO that it was made for, and its interest.
  pub wait_for-result :
      (el : Result Value Error) (i : Interest) (s t : Process c) (w : Wanted Interest)
      → wait_for ruby tokio timers io sets el i s ≡ (done w, t)
      → (el ≡ ok w.0) × (w.1 ≡ i)
  unfolding wait_for
  wait_for-result el i s t w e =
      let (v, u, e1, rest1) = bind-eq-done (lift el s) _ e in
      let (r, x, e2, rest2) = bind-eq-done (new_with_interest io v i u) _ rest1 in
      let (p, y, e3, rest3) = bind-eq-done (ruby_ready io r i x) _ rest2 in
      let is_w : (p.0, i) ≡ w = done-injective rest3 in
      let from : p.0 ≡ v = ruby_ready-value r i x y p e3 ∙ new_with_interest-value v i u x r e2 in
      (
        lift-done el s u v e1 ∙ ap ok (sym from ∙ ap (λ (q : Wanted Interest). q.0) is_w),
        ap (λ (q : Wanted Interest). q.1) (sym is_w),
      )

  push_all-All :
      (laws : SetsLaws io sets) (P : M (Process c) (Wanted Interest) → Type 0) (i : Interest)
      (xs : List (Result Value Error)) (set : J)
      → All P (sets.tasks set)
      → ((x : Result Value Error) → Memᴰ x xs → P (wait_for ruby tokio timers io sets x i))
      → All P (sets.tasks (push_all ruby tokio timers io sets set xs i))
  unfolding push_all
  push_all-All laws P i [] set old new = old
  push_all-All laws P i (x ∷ xs) set old new =
      push_all-All laws P i xs (sets.spawn_wait set (wait_for ruby tokio timers io sets x i))
        (rw (laws.tasks-spawn_wait set (wait_for ruby tokio timers io sets x i)) (
          All-append P (sets.tasks set) (wait_for ruby tokio timers io sets x i ∷ []) old
            (new x (Memᴰ.head refl), tt)))
        (λ y m. new y (Memᴰ.tail m))

  pub push_some-All :
      (laws : SetsLaws io sets) (P : M (Process c) (Wanted Interest) → Type 0) (i : Interest)
      (arg : Option (Nilable (List (Result Value Error)))) (set : J)
      → All P (sets.tasks set)
      → ((x : Result Value Error)
          → Memᴰ x (elements arg)
          → P (wait_for ruby tokio timers io sets x i))
      → All P (sets.tasks (push_some ruby tokio timers io sets arg i set))
  push_some-All laws P i (some (value xs)) set old new = push_all-All laws P i xs set old new
  push_some-All laws P i (some nil) set old new = old
  push_some-All laws P i none set old new = old
