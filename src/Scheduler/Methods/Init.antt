-- ===== src/Scheduler/Methods/Init.antt =====
-- `init` of ext/shreduler/src/tokio_scheduler.rs, and of ext/shreduler/src/lib.rs: how Ruby is told of the
-- class and of its methods.
use Prim.Native.String.{String}
use shredular.Base.{ℤ, pos, negsuc, List, [], ◌∷◌}
use shredular.Errors.{Value, Error, Result, ok, err}
use shredular.Async.{M, pure, panics, ◌>>=◌, ◌>>◌}
use shredular.Intern.{Interning, scheduler_class_place}

-- The functions of the program that become methods.
pub data Function : Type 0 where
  new address_resolve io_wait io_select kernel_sleep close fiber timeout_after : Function
  process_wait block unblock io_read io_write run : Function

-- What `function!` and `method!` make: a function and its number of arguments, where -1 stands for any.
pub record Method : Type 0 where
  pub function : Function
  pub arity : ℤ

-- What magnus does for the program.
pub record Magnus (S : Type 0) : Type 0 where
  pub interning : Interning S
  pub define_class : String → M S (Result Value Error)
  pub undef_alloc_func : Value → M S (Unit {0})
  pub define_singleton_method : Value → String → Method → M S (Unit {0})
  pub define_method : Value → String → Method → M S (Unit {0})

abbrev pub minus_one : ℤ
minus_one = negsuc 0

abbrev pub method : Function → ℤ → Method
method f n = record { function = f; arity = n }

-- The calls of `define_method`, in their order.
abbrev pub methods : List (String × Method)
methods =
    ("address_resolve", method address_resolve (pos 1))
    ∷ ("io_wait", method io_wait (pos 3))
    ∷ ("io_select", method io_select minus_one)
    ∷ ("kernel_sleep", method kernel_sleep (pos 1))
    ∷ ("close", method close (pos 0))
    ∷ ("fiber", method fiber minus_one)
    ∷ ("timeout_after", method timeout_after (pos 3))
    ∷ ("process_wait", method process_wait (pos 2))
    ∷ ("block", method block (pos 2))
    ∷ ("unblock", method unblock (pos 2))
    ∷ ("io_read", method io_read (pos 4))
    ∷ ("io_write", method io_write (pos 4))
    ∷ ("run", method run (pos 0))
    ∷ []

module _ {S : Type 0} (magnus : Magnus S) where
  open magnus use {
    interning, define_class, undef_alloc_func, define_singleton_method, define_method,
  }

  abbrev unwrap : Result Value Error → M S Value
  unwrap (ok v) = pure v
  unwrap (err e) = panics

  -- `TokioScheduler::class`.
  unfoldable pub class : M S Value
  class =
      interning.memoize scheduler_class_place
        do found ← define_class "TokioScheduler"; c ← unwrap found; undef_alloc_func c; pure c

  -- One `define_method` after another, each with its `?`.
  unfoldable pub define_methods : Value → List (String × Method) → M S (Unit {0})
  define_methods c [] = pure tt
  define_methods c ((name, m) ∷ rest) = do define_method c name m; define_methods c rest

  -- After the logging is set up.
  unfoldable pub init : M S (Unit {0})
  init = do
    c ← class
    define_singleton_method c "new" (method new (pos 0))
    define_methods c methods

  -- The `init` of the extension.
  unfoldable pub extension_init : M S (Unit {0})
  extension_init = init
