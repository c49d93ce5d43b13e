-- ===== src/Scheduler/IoSelect/Answer.antt =====
-- Which IO the answer of `io_select` (ext/shreduler/src/tokio_scheduler/io_select.rs) names, and where.
use mathlib.Core.List.{Memᴰ}
use shredular.Base.{
  Bool-cases, true, false, ◌≡◌, ◌≢◌, ◌⊎◌, inl, inr, refl, sym, subst, Option, some, List, [], ◌∷◌,
  All,
}
use shredular.Errors.{Value, Error, Result, ok}
use shredular.Async.{Outcome, done, M}
use shredular.Ruby.{Ruby}
use shredular.Intern.{empty_array}
use shredular.Nilable.{Nilable}
use shredular.RubyIo.{Io}
use shredular.Scheduler.{Carriers, Process, Tokio}
use shredular.Scheduler.Timeout.{Timers}
use shredular.Scheduler.IoSelect.{Wanted, Sets, wait_for, place, io_set, select_future}
use shredular.Scheduler.IoSelect.Tasks.{SetsLaws, All-at, elements, wait_for-result, push_some-All}

module _ {c : Carriers} {H Interest Readiness J : Type 0} (ruby : Ruby (Process c))
    (tokio : Tokio c) (timers : Timers c) (io : Io (Process c) H Interest Readiness)
    (sets : Sets (Process c) J Interest) where
  abbrev pub Arg : Type 0
  Arg = Option (Nilable (List (Result Value Error)))

  -- Where an IO and its interest come from.
  abbrev From : Arg → Arg → Arg → Wanted Interest → Type 0
  From r w x (v, i) =
      (Memᴰ (ok v) (elements r) × (i ≡ io.readable))
      ⊎ (Memᴰ (ok v) (elements w) × (i ≡ io.writable))
      ⊎ (Memᴰ (ok v) (elements x) × (i ≡ io.or_interest io.readable io.writable))

  -- A task that ends with a value ends with one that came from the arguments.
  abbrev Honest : Arg → Arg → Arg → M (Process c) (Wanted Interest) → Type 0
  Honest r w x task =
      (before after : Process c) (got : Wanted Interest)
      → task before ≡ (done got, after)
      → From r w x got

  io_set-Honest :
      (laws : SetsLaws io sets) (r w x : Arg)
      → All (Honest r w x) (sets.tasks (io_set ruby tokio timers io sets r w x))
  unfolding io_set
  io_set-Honest laws r w x =
      push_some-All ruby tokio timers io sets laws (Honest r w x) _ x _
        (push_some-All ruby tokio timers io sets laws (Honest r w x) _ w _
          (push_some-All ruby tokio timers io sets laws (Honest r w x) _ r _
            (subst (All (Honest r w x)) (sym laws.tasks-new_set) tt)
            (λ el m s t got e. inl (of el _ m s t got e)))
          (λ el m s t got e. inr (inl (of el _ m s t got e))))
        (λ el m s t got e. inr (inr (of el _ m s t got e)))
    where
      of :
          (el : Result Value Error) (i : Interest) {els : List (Result Value Error)}
          → Memᴰ el els
          → (s t : Process c) (got : Wanted Interest)
          → wait_for ruby tokio timers io sets el i s ≡ (done got, t)
          → Memᴰ (ok got.0) els × (got.1 ≡ i)
      of el i {els} m s t got e =
          let (is_el, is_i) = wait_for-result ruby tokio timers io sets el i s t got e in
          (subst (λ y. Memᴰ y els) is_el m, is_i)

  eq-false : (laws : SetsLaws io sets) (i j : Interest) → i ≢ j → sets.eq_interest i j ≡ false
  eq-false laws i j ne = elim (Bool-cases (sets.eq_interest i j)) [
    | inl same ↦ absurd (ne ((laws.eq_interest_iff i j).0 same))
    | inr other ↦ other
  ]

  eq_self : (laws : SetsLaws io sets) (i : Interest) → sets.eq_interest i i ≡ true
  eq_self laws i = (laws.eq_interest_iff i i).1 refl

  -- An outcome in process `t`, with `v` in the array of the argument that it is from, and the array `e` in
  -- the two others' places.
  abbrev pub Answers :
      Arg → Arg → Arg → Value → Value → Outcome Value × Process c → Process c → Type 0
  Answers r w x v e outcome t =
      (Memᴰ (ok v) (elements r)
        × (outcome ≡ (done (sets.array (sets.array (v ∷ []) ∷ e ∷ e ∷ [])), t)))
      ⊎ (Memᴰ (ok v) (elements w)
          × (outcome ≡ (done (sets.array (e ∷ sets.array (v ∷ []) ∷ e ∷ [])), t)))
      ⊎ (Memᴰ (ok v) (elements x)
          × (outcome ≡ (done (sets.array (e ∷ e ∷ sets.array (v ∷ []) ∷ [])), t)))

  -- What is answered for a joined task of the set.
  select_answer :
      (laws : SetsLaws io sets) (r w x : Arg) (rest : J) (v : Value) (i : Interest)
      (s t : Process c) (a : Value)
      → sets.join_next (io_set ruby tokio timers io sets r w x) s
        ≡ (done (some (ok (ok (v, i))), rest), t)
      → empty_array sets.interning t ≡ (done a, t)
      → Answers r w x v a (place ruby tokio timers io sets (v, i) t) t
  unfolding place
  select_answer laws r w x rest v i s t a e made = placed origin
    where
      origin : From r w x (v, i)
      origin =
          let (task, before, after, member, ended) =
            laws.join_next-task (io_set ruby tokio timers io sets r w x) rest (v, i) s t e in
          All-at (Honest r w x) task (sets.tasks (io_set ruby tokio timers io sets r w x))
            (io_set-Honest laws r w x) member before after (v, i) ended

      placed : From r w x (v, i) → Answers r w x v a (place ruby tokio timers io sets (v, i) t) t
      placed (inl (m, is)) = inl (
        m,
        rw (is, eq-false laws _ _ laws.readable-ne-both, eq_self laws io.readable, made, made),
      )
      placed (inr (inl (m, is))) = inr (
          inl (
            m,
            rw (
              is,
              eq-false laws _ _ laws.writable-ne-both,
              eq-false laws io.writable io.readable (λ q. laws.readable-ne-writable (sym q)),
              eq_self laws io.writable,
              made,
              made,
            ),
          ))
      placed (inr (inr (m, is))) = inr (inr (m, rw (is, eq_self laws _, made, made)))

  -- By what tokio documents of a JoinSet and of interests, when the first task that the future of an
  -- `io_select` joins ends with a value, and the empty array of intern.rs has been made, the future aborts
  -- the other tasks, and answers with three arrays, of which one holds just that IO and both others are
  -- that same array; the IO is an element of the argument in the same place. The case that the source
  -- calls unreachable does not occur.
  pub select_future_answer :
      (laws : SetsLaws io sets) (r w x : Arg) (rest : J) (v : Value) (i : Interest)
      (s t u : Process c) (a : Value)
      → sets.join_next (io_set ruby tokio timers io sets r w x) s
        ≡ (done (some (ok (ok (v, i))), rest), t)
      → empty_array sets.interning t ≡ (done a, t)
      → sets.abort_all rest t ≡ (done tt, u)
      → Answers r w x v a
          (select_future ruby tokio timers io sets (io_set ruby tokio timers io sets r w x) s)
          u
  unfolding select_future
  select_future_answer laws r w x rest v i s t u a e made aborted =
      elim (select_answer laws r w x rest v i s t a e made) [
        | inl (m, placed) ↦ inl (m, rw (e, placed, aborted))
        | inr (inl (m, placed)) ↦ inr (inl (m, rw (e, placed, aborted)))
        | inr (inr (m, placed)) ↦ inr (inr (m, rw (e, placed, aborted)))
      ]
