-- ===== src/Tests/Selects.antt =====
-- Selecting one IO for reading.
use mathlib.Core.List.{Memᴰ}
use shredular.Base.{
  ℕ, suc, ◌+◌, ◌*◌, ◌≡◌, refl, List, [], ◌∷◌, ◌++◌, Option, none, some, arith, ◌==◌, ==_iff,
}
use shredular.Errors.{Value, Error, Result, ok, err}
use shredular.Async.{Outcome, done, fail, panic, dropped, starved, M}
use shredular.Intern.{empty_array}
use shredular.Nilable.{Nilable, value, nil}
use shredular.RubyIo.{ruby_ready, new_with_interest, from_value_and_raw_fd, backing_ready}
use shredular.Scheduler.IoSelect.{Wanted, Sets, select_future, io_set, push_all, wait_for}
use shredular.Scheduler.IoSelect.Tasks.{SetsLaws}
use shredular.Scheduler.IoSelect.Answer.{Answers, select_future_answer}
use shredular.Tests.World.{World, interning, ruby, tokio, timers, idle}
use shredular.Tests.Descriptors.{io}

-- The first task of a set is run to its end when it is joined.
abbrev pub Tasks : Type 0
Tasks = List (M World (Wanted ℕ))

abbrev Joined : Type 0
Joined = Option (Result (Result (Wanted ℕ) Error) (Unit {0})) × Tasks

abbrev ended : Tasks → Outcome (Wanted ℕ) × World → Outcome Joined × World
ended rest (done w, s) = (done (some (ok (ok w)), rest), s)
ended rest (fail e, s) = (done (some (ok (err e)), rest), s)
ended rest (_, s) = (done (some (err tt), rest), s)

abbrev join_next : Tasks → M World Joined
join_next [] s = (done (none, []), s)
join_next (task ∷ rest) s = ended rest (task s)

abbrev encode : List ℕ → ℕ
encode [] = 0
encode (x ∷ xs) = suc x + 1000 * encode xs

abbrev pub sets : Sets World Tasks ℕ
sets = record {
  tasks = λ js. js;
  new_set = [];
  spawn_wait = λ js task. js ++ task ∷ [];
  join_next = join_next;
  abort_all = λ js s. (done tt, s);
  eq_interest = ◌==◌;
  array = encode;
  interning = interning;
}

ended-ok :
    (rest others : Tasks) (p : Outcome (Wanted ℕ) × World) (w : Wanted ℕ) (t : World)
    → ended rest p ≡ (done (some (ok (ok w)), others), t)
    → p ≡ (done w, t)
ended-ok rest others (done x, s) w t e = cc
ended-ok rest others (fail x, s) w t e = cc
ended-ok rest others (panic, s) w t e = cc
ended-ok rest others (dropped, s) w t e = cc
ended-ok rest others (starved, s) w t e = cc

joined_task :
    (set rest : Tasks) (w : Wanted ℕ) (s t : World)
    → join_next set s ≡ (done (some (ok (ok w)), rest), t)
    → (task : M World (Wanted ℕ)) × (before : World) × (after : World) × Memᴰ task set
      × (task before ≡ (done w, after))
joined_task [] rest w s t e = cc
joined_task (task ∷ tasks) rest w s t e =
    (task, s, t, Memᴰ.head refl, ended-ok tasks rest (task s) w t e)

sets_laws : SetsLaws io sets
sets_laws = record {
  tasks-new_set = refl;
  tasks-spawn_wait = λ set task. refl;
  join_next-task = joined_task;
  eq_interest_iff = ==_iff;
  readable-ne-writable = λ h. omega arith;
  readable-ne-both = λ h. omega arith;
  writable-ne-both = λ h. omega arith;
}

abbrev wanted_reads : Option (Nilable (List (Result Value Error)))
wanted_reads = some (value (ok 40 ∷ []))

joined_first :
    sets.join_next (io_set ruby tokio timers io sets wanted_reads (some nil) none) idle
    ≡ (done (some (ok (ok (40, 1))), []), idle)
unfolding io_set push_all wait_for new_with_interest from_value_and_raw_fd ruby_ready backing_ready
joined_first = refl

made : empty_array sets.interning idle ≡ (done 0, idle)
unfolding empty_array
made = refl

select_future_answer_example :
    Answers ruby tokio timers io sets wanted_reads
      (some nil)
      none
      40
      0
      (select_future ruby tokio timers io sets
        (io_set ruby tokio timers io sets wanted_reads (some nil) none)
        idle)
      idle
select_future_answer_example =
    select_future_answer ruby tokio timers io sets sets_laws wanted_reads (some nil) none [] 40 1
      idle idle idle 0 joined_first made refl
