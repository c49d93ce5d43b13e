-- ===== src/HashMap.antt =====
-- `std::collections::HashMap` keyed by fibers, as the scheduler uses it for its blockers: entries
-- under distinct keys, in no order that matters.
use shredular.Base.{Option, none, some, List, [], ◌∷◌, ◌≡◌, ◌≢◌, refl, arith, if◌then◌else◌}
use shredular.Fiber.{Fiber, suspended, eq}

abbrev pub FiberMap : Type 0 → Type 0
FiberMap V = List (Fiber suspended × V)

module _ {V : Type 0} where
  unfoldable pub get : Fiber suspended → FiberMap V → Option V
  unfolding eq
  get k [] = none
  get k ((j, v) ∷ m) = if eq j k then some v else get k m

  unfoldable pub insert : Fiber suspended → V → FiberMap V → FiberMap V
  unfolding eq
  insert k v [] = (k, v) ∷ []
  insert k v ((j, w) ∷ m) = if eq j k then (j, v) ∷ m else (j, w) ∷ insert k v m

  -- The map without the key; the source's `remove` also returns what `get` gives before it.
  unfoldable pub remove : Fiber suspended → FiberMap V → FiberMap V
  unfolding eq
  remove k [] = []
  remove k ((j, w) ∷ m) = if eq j k then remove k m else (j, w) ∷ remove k m

  pub get-insert :
      (k j : Fiber suspended) (v : V) (m : FiberMap V)
      → get j (insert k v m) ≡ (if eq k j then some v else get j m)
  unfolding get insert
  get-insert k j v [] = refl
  get-insert k j v ((i, w) ∷ m) = ground (arith, get-insert k j v m)

  pub get-remove :
      (k j : Fiber suspended) (m : FiberMap V)
      → get j (remove k m) ≡ (if eq k j then none else get j m)
  unfolding get remove
  get-remove k j [] = ground arith
  get-remove k j ((i, w) ∷ m) = ground (arith, get-remove k j m)

  pub get-remove_ne :
      (k j : Fiber suspended) (m : FiberMap V) → k.raw ≢ j.raw → get j (remove k m) ≡ get j m
  unfolding eq
  get-remove_ne k j m h = ground (arith, get-remove k j m)
