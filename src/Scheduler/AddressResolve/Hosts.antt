-- ===== src/Scheduler/AddressResolve/Hosts.antt =====
-- Which name is looked up for a host name.

use shredular.Base.{
  contains, Bool, true, false, ◌≡◌, inl, inr, refl, List, [], ◌∷◌, ◌++◌, arith, ◌==◌, if◌then◌else◌,
  Bool-cases,
}
use shredular.Async.{done}
use shredular.Ruby.{Ruby}
use shredular.Scheduler.{Carriers, Process, Tokio}
use shredular.Scheduler.AddressResolve.{
  Text, Lookup, split, splitn_two, percent, colon, look_up, by_parts, resolve_future,
}

-- Empty, or from a percent sign on.
abbrev pub IsZone : Text → Type 0
IsZone [] = Unit {0}
IsZone (x ∷ xs) = x ≡ percent

split-zone :
    (host zone : Text)
    → contains percent host ≡ false
    → IsZone zone
    → (rest : List Text) × (split percent (host ++ zone) ≡ host ∷ rest)
unfolding split
split-zone [] [] free z = ([], refl)
split-zone [] (x ∷ zone) free z = (split percent zone, ground arith)
split-zone (x ∷ host) zone free z =
    let (rest, e) = split-zone host zone (ground arith) z in (rest, ground (arith, e))

splitn_two-plain : (host : Text) → contains colon host ≡ false → splitn_two colon host ≡ host ∷ []
unfolding splitn_two
splitn_two-plain [] free = refl
splitn_two-plain (x ∷ host) free = ground (arith, splitn_two-plain host)

splitn_two-port :
    (host : Text)
    → contains colon host ≡ true
    → (a : Text) × (b : Text) × (splitn_two colon host ≡ a ∷ b ∷ [])
unfolding splitn_two
splitn_two-port [] has = cc
splitn_two-port (x ∷ host) has = elim (Bool-cases (x == colon)) [
  | inl here ↦ ([], host, rw here)
  | inr later ↦ let (a, b, e) = splitn_two-port host (ground arith) in (x ∷ a, b, rw (later, e))
]

module _ {c : Carriers} {Address : Type 0} (ruby : Ruby (Process c)) (tokio : Tokio c)
    (lookup : Lookup (Process c) Address) where
  -- Of a host name with a zone, the part before the first percent sign counts. Without a colon in it,
  -- that part is looked up; with a colon in it, as every IPv6 address has, the answer is the empty array
  -- and nothing is looked up.
  resolve_future_lem :
      (host zone : Text) (s : Process c)
      → contains percent host ≡ false
      → IsZone zone
      → resolve_future ruby tokio lookup (host ++ zone) s ≡ (
          if contains colon host
          then (done (lookup.array []), s)
          else look_up ruby tokio lookup host s)
  unfolding resolve_future
  resolve_future_lem host zone s free z =
      let (rest, e) = split-zone host zone free z in rw e (by_colon (contains colon host) refl)
    where
      by_colon :
          (b : Bool)
          → contains colon host ≡ b
          → by_parts ruby tokio lookup (splitn_two colon host) s
            ≡ (if b then (done (lookup.array []), s) else look_up ruby tokio lookup host s)
      by_colon true has = let (a, p, e) = splitn_two-port host has in rw e
      by_colon false without = rw (splitn_two-plain host without)
