-- ===== src/Tests/World.antt =====
-- A small world: fibers are numbers, of which 9 is dead, and every call of the VM comes back at once.
use shredular.Base.{
  ℕ, ◌+◌, ◌*◌, ◌≡◌, inl, inr, refl, Bool-cases, none, some, List, [], ◌∷◌, ◌++◌, ◌==◌, ltb,
  if◌then◌else◌, pos, ℤ, negsuc,
}
use shredular.Errors.{Value, ok, err}
use shredular.Async.{M, Outcome, done, pure, attempt, ◌>>=◌}
use shredular.Intern.{Interning}
use shredular.Ruby.{Ruby}
use shredular.GcCell.Borrowing.{with_value, IsHeld}
use shredular.FiberFuture.{FiberFuture}
use shredular.FiberFuture.Frames.{Keeps, Returns}
use shredular.Scheduler.{Carriers, Process, Tokio, TokioLaws, set_futures}
use shredular.Scheduler.Timeout.{Timers}
use shredular.Scheduler.Timeout.Outcomes.{TimersLaws}
use shredular.Scheduler.BlockUnblock.{Oneshot}
use shredular.Scheduler.Run.{Selected, joined}
use shredular.Scheduler.Run.Waiting.{SelectLaws, FuturesFree}

-- The fiber that runs, the clock, what the VM was asked to do, and the flags of all descriptors.
pub record Machine : Type 0 where
  pub running : Value
  pub clock : ℕ
  pub log : List ℕ
  pub flags : ℕ

abbrev pub carriers : Carriers
carriers = record {
  Outside = Machine;
  RubyFuture = ℕ;
  JoinSet = List (FiberFuture ℕ);
  Runtime = ℕ;
  Sender = ℕ;
  Receiver = ℕ;
  Instant = ℕ;
}

abbrev pub World : Type 0
World = Process carriers

abbrev pub note : ℕ → World → World
note n s = record s { outside = record (s.outside) { log = n ∷ s.outside.log } }

abbrev pub true_value : Value
true_value = 20

abbrev pub nil_value : Value
nil_value = 8

abbrev pub integer_value : ℤ → Value
integer_value (pos n) = 2 * n + 1
integer_value (negsuc n) = 0

abbrev pub ruby : Ruby World
ruby = record {
  q_true = true_value;
  q_nil = nil_value;
  integer = integer_value;
  class_value = λ klass. 300;
  rb_fiber_current = λ s. s.outside.running;
  rb_fiber_alive_p = λ s v. if v == 9 then 0 else true_value;
  rb_obj_is_fiber = λ s v. if ltb v 100 then true_value else 0;
  rb_fiber_yield = λ args s. (done 1, s);
  rb_fiber_resume = λ v args s. (done nil_value, note v s);
  rb_fiber_transfer = λ v args s. (done nil_value, note v s);
  rb_fiber_raise = λ v args s. (done nil_value, note (v + 1000) s);
  string_new = λ m s. (done 200, s);
  new_instance = λ klass v s. (done 201, s);
}

abbrev pub tokio : Tokio carriers
tokio = record {
  box_pin = λ block. 0;
  tasks = λ js. js;
  empty_set = [];
  spawn_task = λ js t. (7, js ++ t ∷ []);
  abort_all = λ js. js;
  build_runtime = λ o. ok 1;
  shutdown_timeout = λ rt n o. o;
}

pub tokio_laws : TokioLaws tokio
tokio_laws = record {
  tasks-empty_set = refl;
  tasks-spawn_task = λ js t. refl;
  tasks-abort_all = λ js. refl;
}

-- Fiber 2 runs, and 3 is the root; the set is empty.
abbrev pub idle : World
idle = record {
  scheduler = record {
    root_fiber = record { raw = 3 };
    futures_to_run = with_value [];
    runtime = some 1;
    blockers = with_value [];
  };
  outside = record { running = 2; clock = 0; log = []; flags = 1 };
}

-- Two tasks, of the fibers 4 and 9.
abbrev pub busy : World
busy =
    set_futures
      (with_value (
        record { future = 0; fiber = record { raw = 4 } }
        ∷ record { future = 0; fiber = record { raw = 9 } }
        ∷ []))
      idle

-- The first task is ready at once, with nil.
abbrev pub pop : List (FiberFuture ℕ) → World → Outcome Selected × World
pop [] s = (done (joined none), s)
pop (t ∷ ts) s = (
  done (joined (some (ok (record { fiber = t.fiber; value = ok nil_value })))),
  set_futures (record (s.futures_to_run) { value = ts }) s,
)

abbrev pub select : M World Selected
select s = pop s.futures_to_run.value s

pop_holds :
    (ts : List (FiberFuture ℕ)) (s : World)
    → IsHeld s.futures_to_run
    → IsHeld (pop ts s).1.futures_to_run
pop_holds [] s h = h
pop_holds (t ∷ ts) s h = record { no_reader = h.no_reader; one_writer = h.one_writer }

pop_empties :
    (ts : List (FiberFuture ℕ)) (s t : World)
    → s.futures_to_run.value ≡ ts
    → pop ts s ≡ (done (joined none), t)
    → t.futures_to_run.value ≡ []
pop_empties [] s t is e = cc
pop_empties (x ∷ ts) s t is e = cc

pub select_laws : SelectLaws tokio select
select_laws = record {
  holds = λ s. pop_holds s.futures_to_run.value s;
  empties = λ s t. pop_empties s.futures_to_run.value s t refl;
}

pub keeps_free : Keeps ruby FuturesFree
keeps_free = record {
  transfer_keeps = λ v args s f. f;
  raise_keeps = λ v args s f. f;
  string_keeps = λ m s f. f;
}

pub returns : Returns ruby
returns = record {
  transfer_returns = λ v args s h. cc;
  raise_returns = λ v args s h. cc;
  string_returns = λ m s h. cc;
}

-- An instant is the seconds on the clock, up to 999. A wait until 5 or earlier is late.
abbrev pub timers : Timers carriers
timers = record {
  now = λ o. o.clock;
  checked_add = λ i d. if ltb (i + d.secs) 1000 then some (i + d.secs) else none;
  timeout_at = λ i f. if ltb i 6 then pure none else (do r ← attempt f; pure (some r));
  sleep_until = λ i s. (done tt, s);
}

pub timers_laws : TimersLaws timers
timers_laws = record {
  in_time_or_late = λ i f s. elim (Bool-cases (ltb i 6)) [
    | inl late ↦ inr (s, rw late)
    | inr in_time ↦ inl (rw in_time)
  ];
}

-- The receiver of every channel is gone by the time of a `send`.
abbrev pub oneshot : Oneshot carriers
oneshot = record {
  channel = λ s. (done (6, 6), s);
  send = λ tx v s. (done (err tt), s);
  recv = λ rx s. (done (ok true_value), s);
}

-- Names and classes are numbers, and the empty array is 0.
abbrev pub interning : Interning World
interning = record {
  memoize = λ place make s. make s;
  new_id = λ name s. (done 21, s);
  const_get = λ name s. (done (ok 22), s);
  register_mark_object = λ v s. (done tt, s);
  array_new = λ s. (done 0, s);
}
