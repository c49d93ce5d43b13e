-- ===== src/Scheduler/Session/Entries.antt =====
-- The entries of the ledger of a session that can go over to another status, and those that stay.
use mathlib.Core.HLevel.{⊥_prop}
use mathlib.Core.List.{Memᴰ, Mem}
use mathlib.Core.Logic.{∥∥₁_elim}
use native.Mathlib.Decide.{ℕ_discrete}
use shredular.Base.{
  Bool, true, Bool-cases, ◌≡◌, ◌≢◌, ◌⊎◌, inl, inr, refl, sym, ap, ◌∙◌, subst, [], ◌∷◌,
  if◌then◌else◌,
}
use shredular.Fiber.{Fiber, unknown}
use shredular.Scheduler.Session.{Status, Ledger, Changed, here, there, active}
use shredular.Scheduler.Session.Ledger.{picks, is_waiting, is_active}
use shredular.Scheduler.Session.Ledger.{Changed-keeps}

-- The ledger after a fiber that is picked has gone over.
abbrev pub Turned : Fiber unknown → Status → Status → Ledger → Type 0
Turned f p q l = (m : Ledger) × Changed f p q l m

module _ (test : Status → Bool) (p q : Status) (only : (r : Status) → test r ≡ true → r ≡ p)
    (f : Fiber unknown) where
  abbrev Picked : Bool → Fiber unknown → Ledger → Type 0
  Picked b g l = Memᴰ f (if b then g ∷ picks test l else picks test l)

  not_first :
      (g : Fiber unknown) (l : Ledger)
      → g.raw ≢ f.raw
      → (Memᴰ f (picks test l) → ⊥)
      → Memᴰ f (g ∷ picks test l)
      → ⊥
  not_first g l other unpicked (Memᴰ.head is) = other (ap (λ k. k.raw) (sym is))
  not_first g l other unpicked (Memᴰ.tail m) = unpicked m

  turn_at :
      (e : Fiber unknown × Status) (l : Ledger)
      → e.0.raw ≡ f.raw
      → test e.1 ≡ true
      → Turned f p q (e ∷ l)
  turn_at (g, r) l is passes = (
    (f, q) ∷ l,
    subst (λ e. Changed f p q (e ∷ l) ((f, q) ∷ l))
        (ap (λ v. (record { raw = v }, p)) (sym is) ∙ ap (λ st. (g, st)) (sym (only r passes)))
        here,
  )

  turn_later : (e : Fiber unknown × Status) (l : Ledger) → Turned f p q l → Turned f p q (e ∷ l)
  turn_later e l (m, change) = (e ∷ m, there change)

  find_turn : (l : Ledger) → Turned f p q l ⊎ (Memᴰ f (picks test l) → ⊥)
  find_turn [] = inr (λ m. elim m [ ])
  find_turn (e ∷ l) = elim (find_turn l) [
    | inl turned ↦ inl (turn_later e l turned)
    | inr unpicked ↦ elim (Bool-cases (test e.1)) [
      | inl taken ↦ elim (ℕ_discrete e.0.raw f.raw) [
        | yes is ↦ inl (turn_at e l is taken)
        | no other ↦ inr (λ m. not_first e.0 l other unpicked (subst (λ b. Picked b e.0 l) taken m))
      ]
      | inr skipped ↦ inr (λ m. unpicked (subst (λ b. Picked b e.0 l) skipped m))
    ]
  ]

  pub picked_turn : (l : Ledger) → Mem f (picks test l) → Turned f p q l
  picked_turn l m = elim (find_turn l) [
    | inl turned ↦ turned
    | inr unpicked ↦ absurd (∥∥₁_elim m ⊥_prop unpicked)
  ]

pub only_active : (r : Status) → is_active r ≡ true → r ≡ active
only_active active e = refl
only_active Status.waiting e = cc
only_active Status.lost e = cc
only_active Status.finished e = cc
only_active (Status.making g) e = cc

pub only_waiting : (r : Status) → is_waiting r ≡ true → r ≡ Status.waiting
only_waiting Status.waiting e = refl
only_waiting active e = cc
only_waiting Status.lost e = cc
only_waiting Status.finished e = cc
only_waiting (Status.making g) e = cc

-- An entry can go over to any status.
pub turn_of :
    {f : Fiber unknown} {p : Status} (q : Status) (l : Ledger) → Memᴰ (f, p) l → Turned f p q l
turn_of q [] m = elim m [ ]
turn_of {f} {p} q (e ∷ l) (Memᴰ.head is) =
    ((f, q) ∷ l, subst (λ x. Changed f p q (x ∷ l) ((f, q) ∷ l)) is here)
turn_of q (e ∷ l) (Memᴰ.tail m) = let (n, change) = turn_of q l m in (e ∷ n, there change)

pub Changed-stays :
    {f g : Fiber unknown} {p q r : Status} {l m : Ledger}
    → Changed f p q l m
    → r ≢ p
    → Memᴰ (g, r) l
    → Memᴰ (g, r) m
Changed-stays change other n = elim (Changed-keeps change n) [
  | inl mine ↦ absurd (other mine.1)
  | inr still ↦ still
]
