-- ===== src/Scheduler/AddressResolve.antt =====
-- ext/shreduler/src/tokio_scheduler/address_resolve.rs: the addresses of a host name. A text is the
-- list of its code points.
pub mod Hosts
use mathlib.Core.List.{head?}
use mathlib.Core.Option.{get_or}
use shredular.Base.{
  ℕ, Bool, true, false, ◌||◌, Option, none, some, List, [], ◌∷◌, map, ◌==◌, if◌then◌else◌,
}
use shredular.Errors.{Value, Error, Result, ok, err, new_base_error, could_not_resolve}
use shredular.Async.{M, pure, throw, lift, ◌>>=◌}
use shredular.Ruby.{Ruby}
use shredular.Scheduler.{Carriers, Process, Block, Tokio, spawn_and_transfer}

abbrev pub Text : Type 0
Text = List ℕ

-- tokio's `lookup_host`, and Ruby's strings and arrays. `address_string` gives the text of an IP
-- address as a Ruby string.
pub record Lookup (S Address : Type 0) : Type 0 where
  pub to_string : Value → Result Text Error
  pub lookup_host : Text → ℕ → M S (Result (List Address) (Unit {0}))
  pub address_string : Address → Value
  pub array : List Value → Value

abbrev pub cons_first : ℕ → List Text → List Text
cons_first x (p ∷ ps) = (x ∷ p) ∷ ps
cons_first x [] = (x ∷ []) ∷ []

-- `str::split` at a character, and `str::splitn` with two parts.
unfoldable pub split : ℕ → Text → List Text
split sep [] = [] ∷ []
split sep (x ∷ xs) = let rest = split sep xs in if x == sep then [] ∷ rest else cons_first x rest

unfoldable pub splitn_two : ℕ → Text → List Text
splitn_two sep [] = [] ∷ []
splitn_two sep (x ∷ xs) =
    let rest = splitn_two sep xs in if x == sep then [] ∷ xs ∷ [] else cons_first x rest

abbrev pub percent : ℕ
percent = b'%'

abbrev pub colon : ℕ
colon = b':'

module _ {c : Carriers} {Address : Type 0} (ruby : Ruby (Process c)) (tokio : Tokio c)
    (lookup : Lookup (Process c) Address) where
  open lookup use {to_string, lookup_host, address_string, array}

  abbrev pub or_could_not_resolve : {A : Type 0} → Result A (Unit {0}) → M (Process c) A
  or_could_not_resolve (ok a) = pure a
  or_could_not_resolve (err e) = throw (new_base_error could_not_resolve)

  unfoldable pub look_up : Text → Block c
  look_up host = do
    found ← lookup_host host 80
    addresses ← or_could_not_resolve found
    pure (array (map address_string addresses))

  -- What the two calls of `split.next()` see.
  abbrev pub by_parts : List Text → Block c
  by_parts [] = pure (array [])
  by_parts (host ∷ []) = look_up host
  by_parts (host ∷ port ∷ rest) = pure (array [])

  unfoldable pub resolve_future : Text → Block c
  resolve_future hostname =
      let zoneless = get_or (head? (split percent hostname)) hostname in
      by_parts (splitn_two colon zoneless)

  unfoldable pub address_resolve : Value → Block c
  address_resolve hostname = do
    text ← lift (to_string hostname)
    spawn_and_transfer ruby tokio (resolve_future text)
