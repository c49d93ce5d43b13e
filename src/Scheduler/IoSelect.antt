-- ===== src/Scheduler/IoSelect.antt =====
-- ext/shreduler/src/tokio_scheduler/io_select.rs: waiting for the first of several IOs.
pub mod Tasks
pub mod Answer
use shredular.Base.{Bool, Option, none, some, List, [], ◌∷◌, if◌then◌else◌}
use shredular.Errors.{
  Value, Error, Result, ok, err, new_base_error, error_joining_futures, error_waiting_for_io,
}
use shredular.Async.{M, pure, throw, panics, lift, attempt, ◌>>=◌, ◌>>◌}
use shredular.Ruby.{Ruby}
use shredular.Intern.{Interning, empty_array}
use shredular.Nilable.{Nilable, value, nil}
use shredular.RubyIo.{Io, new_with_interest, ruby_ready}
use shredular.TimeoutDuration.{TimeoutDuration}
use shredular.Scheduler.{Carriers, Process, Block, Tokio, spawn_and_transfer}
use shredular.Scheduler.Timeout.{Timers, with_timeout_no_raise}

-- What the tasks of a `RubyIoSet` end with.
abbrev pub Wanted : Type 0 → Type 0
Wanted Interest = Value × Interest

-- tokio's `JoinSet` of these tasks, with a view of those that are not yet joined; equality of interests;
-- Ruby's arrays; and what intern.rs calls. A join that fails has an error that the program only prints.
pub record Sets (S J Interest : Type 0) : Type 0 where
  pub tasks : J → List (M S (Wanted Interest))
  pub new_set : J
  pub spawn_wait : J → M S (Wanted Interest) → J
  pub join_next : J → M S (Option (Result (Result (Wanted Interest) Error) (Unit {0})) × J)
  pub abort_all : J → M S (Unit {0})
  pub eq_interest : Interest → Interest → Bool
  pub array : List Value → Value
  pub interning : Interning S

module _ {c : Carriers} {H Interest Readiness J : Type 0} (ruby : Ruby (Process c))
    (tokio : Tokio c) (timers : Timers c) (io : Io (Process c) H Interest Readiness)
    (sets : Sets (Process c) J Interest) where
  open sets use {new_set, spawn_wait, join_next, eq_interest, array}

  -- The block that `push_all` spawns for an element of the array.
  unfoldable pub wait_for : Result Value Error → Interest → M (Process c) (Wanted Interest)
  wait_for element interest = do
    io_value ← lift element
    ruby_io ← new_with_interest io io_value interest
    (ready_value, readiness) ← ruby_ready io ruby_io interest
    pure (ready_value, interest)

  -- `RubyIoSet::new`.
  abbrev pub io_set_new : J
  io_set_new = new_set

  unfoldable pub push_all : J → List (Result Value Error) → Interest → J
  push_all set [] interest = set
  push_all set (x ∷ xs) interest = push_all (spawn_wait set (wait_for x interest)) xs interest

  abbrev pub both : Interest
  both = io.or_interest io.readable io.writable

  -- An argument that is missing or nil adds nothing.
  abbrev pub push_some : Option (Nilable (List (Result Value Error))) → Interest → J → J
  push_some (some (value xs)) interest set = push_all set xs interest
  push_some (some nil) interest set = set
  push_some none interest set = set

  -- The arrays of the ready IOs: for reading, for writing, and exceptional.
  unfoldable pub place : Wanted Interest → Block c
  place (ready_value, interest) =
      if eq_interest interest both
      then (do
        first ← empty_array sets.interning
        second ← empty_array sets.interning
        pure (array (first ∷ second ∷ array (ready_value ∷ []) ∷ [])))
      else if eq_interest interest io.readable
      then (do
        first ← empty_array sets.interning
        second ← empty_array sets.interning
        pure (array (array (ready_value ∷ []) ∷ first ∷ second ∷ [])))
      else if eq_interest interest io.writable
      then (do
        first ← empty_array sets.interning
        second ← empty_array sets.interning
        pure (array (first ∷ array (ready_value ∷ []) ∷ second ∷ [])))
      else panics

  abbrev pub on_joined : Option (Result (Result (Wanted Interest) Error) (Unit {0})) → Block c
  on_joined none = pure ruby.q_nil
  on_joined (some (err e)) = throw (new_base_error error_joining_futures)
  on_joined (some (ok (err e))) = throw (new_base_error error_waiting_for_io)
  on_joined (some (ok (ok wanted))) = place wanted

  unfoldable pub select_future : J → Block c
  select_future set = do
    (joined, rest) ← join_next set
    result ← attempt (on_joined joined)
    sets.abort_all rest
    lift result

  unfoldable pub io_set :
      Option (Nilable (List (Result Value Error)))
      → Option (Nilable (List (Result Value Error)))
      → Option (Nilable (List (Result Value Error)))
      → J
  io_set readables writables exceptables =
      push_some exceptables both
        (push_some writables io.writable (push_some readables io.readable io_set_new))

  unfoldable pub io_select :
      Option (Nilable (List (Result Value Error)))
      → Option (Nilable (List (Result Value Error)))
      → Option (Nilable (List (Result Value Error)))
      → Option TimeoutDuration
      → Block c
  io_select readables writables exceptables timeout = spawn_and_transfer ruby tokio (
      with_timeout_no_raise timers ruby.q_nil timeout
        (select_future (io_set readables writables exceptables)))
