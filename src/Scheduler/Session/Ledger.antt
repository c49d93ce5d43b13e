-- ===== src/Scheduler/Session/Ledger.antt =====
-- The ledger of a session, when one fiber goes over to another status.
use mathlib.Core.HLevel.{⊥_prop}
use mathlib.Core.List.{Perm, Memᴰ, Nodup, Nodup-cons, Pairwise}
use mathlib.Core.List.Perm
use mathlib.Core.Logic.{∥∥₁_elim}
use shredular.Base.{
  Bool, true, false, ◌≡◌, ◌≢◌, ◌⊎◌, inl, inr, refl, sym, ap, subst, List, [], ◌∷◌, ◌++◌, All,
  All-append, if◌then◌else◌, Bool-cases,
}
use shredular.Fiber.{Fiber, unknown}
use shredular.Scheduler.Session.{Status, active, waiting, lost, Ledger, Changed, here, there, Fresh}

-- The fibers whose status passes a test.
abbrev pub picks : (Status → Bool) → Ledger → List (Fiber unknown)
picks test [] = []
picks test ((f, p) ∷ l) = if test p then f ∷ picks test l else picks test l

abbrev pub is_waiting : Status → Bool
is_waiting waiting = true
is_waiting _ = false

abbrev pub is_active : Status → Bool
is_active active = true
is_active _ = false

abbrev pub is_lost : Status → Bool
is_lost lost = true
is_lost _ = false

pub picks-append :
    (test : Status → Bool) (l m : Ledger) → picks test (l ++ m) ≡ picks test l ++ picks test m
picks-append test [] m = refl
picks-append test ((f, p) ∷ l) m = elim (Bool-cases (test p)) [
  | inl taken ↦ rw taken (ap (λ x. f ∷ x) (picks-append test l m))
  | inr skipped ↦ rw skipped (picks-append test l m)
]

-- Under both statuses or under neither, the pick is the same.
pub Changed-picks :
    (test : Status → Bool) {f : Fiber unknown} {p q : Status} {l m : Ledger}
    → test p ≡ test q
    → Changed f p q l m
    → picks test l ≡ picks test m
Changed-picks test same here = rw same refl
Changed-picks test same (there {e} c) = elim (Bool-cases (test e.1)) [
  | inl taken ↦ rw taken (ap (λ x. e.0 ∷ x) (Changed-picks test same c))
  | inr skipped ↦ rw skipped (Changed-picks test same c)
]

-- Under the new status only, the fiber comes in.
pub Changed-in :
    (test : Status → Bool) {f : Fiber unknown} {p q : Status} {l m : Ledger}
    → test p ≡ false
    → test q ≡ true
    → Changed f p q l m
    → Perm (picks test m) (f ∷ picks test l)
Changed-in test out in_now here = rw (out, in_now) (Perm.refl _)
Changed-in test {f} out in_now (there {e} {l} c) = elim (Bool-cases (test e.1)) [
  | inl taken ↦
      rw taken
        (Perm.trans (Perm.cons e.0 (Changed-in test out in_now c)) (Perm.swap f e.0 (picks test l)))
  | inr skipped ↦ rw skipped (Changed-in test out in_now c)
]

pub Changed-back :
    {f : Fiber unknown} {p q : Status} {l m : Ledger} → Changed f p q l m → Changed f q p m l
Changed-back here = here
Changed-back (there c) = there (Changed-back c)

pub Changed-Memᴰ :
    {f : Fiber unknown} {p q : Status} {l m : Ledger} → Changed f p q l m → Memᴰ (f, q) m
Changed-Memᴰ here = Memᴰ.head refl
Changed-Memᴰ (there c) = Memᴰ.tail (Changed-Memᴰ c)

-- Every entry stays but that of the fiber.
pub Changed-keeps :
    {f g : Fiber unknown} {p q r : Status} {l m : Ledger}
    → Changed f p q l m
    → Memᴰ (g, r) l
    → ((g ≡ f) × (r ≡ p)) ⊎ Memᴰ (g, r) m
Changed-keeps here (Memᴰ.head e) = inl (cc, cc)
Changed-keeps here (Memᴰ.tail n) = inr (Memᴰ.tail n)
Changed-keeps (there c) (Memᴰ.head e) = inr (Memᴰ.head e)
Changed-keeps (there c) (Memᴰ.tail n) = elim (Changed-keeps c n) [
  | inl mine ↦ inl mine
  | inr still ↦ inr (Memᴰ.tail still)
]

-- What holds of the fibers, whatever their status, still holds.
pub Changed-keys :
    (P : Fiber unknown → Type 0) {f : Fiber unknown} {p q : Status} {l m : Ledger}
    → Changed f p q l m
    → All (λ e. P e.0) l
    → All (λ e. P e.0) m
Changed-keys P here h = h
Changed-keys P (there c) h = (h.0, Changed-keys P c h.1)

pub Changed-key :
    (P : Fiber unknown → Type 0) {f : Fiber unknown} {p q : Status} {l m : Ledger}
    → Changed f p q l m
    → All (λ e. P e.0) l
    → P f
Changed-key P here h = h.0
Changed-key P (there c) h = Changed-key P c h.1

pub key_of :
    (P : Fiber unknown → Type 0) {f : Fiber unknown} {p : Status} (l : Ledger)
    → All (λ e. P e.0) l
    → Memᴰ (f, p) l
    → P f
key_of P [] h m = elim m [ ]
key_of P (e ∷ l) h (Memᴰ.head x) = subst P (ap (λ k. k.0) (sym x)) h.0
key_of P (e ∷ l) h (Memᴰ.tail m) = key_of P l h.1 m

-- No fiber is in the ledger twice.
abbrev pub Distinct : Ledger → Type 0
Distinct [] = Unit
Distinct (e ∷ l) = Fresh e.0 l × Distinct l

pub Changed-Distinct :
    {f : Fiber unknown} {p q : Status} {l m : Ledger} → Changed f p q l m → Distinct l → Distinct m
Changed-Distinct here d = d
Changed-Distinct (there {e} c) d = (Changed-keys (λ k. k ≢ e.0) c d.0, Changed-Distinct c d.1)

pub Distinct-append :
    (l : Ledger) (e : Fiber unknown × Status) → Distinct l → Fresh e.0 l → Distinct (l ++ e ∷ [])
Distinct-append [] e d f = (tt, tt)
Distinct-append (x ∷ l) e d f = (
  All-append (λ k. k.0 ≢ x.0) l (e ∷ []) d.0 ((λ same. f.0 (sym same)), tt),
  Distinct-append l e d.1 f.1,
)

pub Fresh-absent : {g : Fiber unknown} {r : Status} (l : Ledger) → Fresh g l → Memᴰ (g, r) l → ⊥
Fresh-absent [] f m = elim m [ ]
Fresh-absent (e ∷ l) f (Memᴰ.head x) = f.0 (ap (λ k. k.0) (sym x))
Fresh-absent (e ∷ l) f (Memᴰ.tail m) = Fresh-absent l f.1 m

-- A fiber has one status.
pub Distinct-status :
    {g : Fiber unknown} {p q : Status} (l : Ledger)
    → Distinct l
    → Memᴰ (g, p) l
    → Memᴰ (g, q) l
    → p ≡ q
Distinct-status [] d m n = elim m [ ]
Distinct-status (e ∷ l) d (Memᴰ.head x) (Memᴰ.head y) = cc
Distinct-status (e ∷ l) d (Memᴰ.head x) (Memᴰ.tail n) =
    absurd (Fresh-absent l (subst (λ k. Fresh k l) (ap (λ k. k.0) (sym x)) d.0) n)
Distinct-status (e ∷ l) d (Memᴰ.tail m) (Memᴰ.head y) =
    absurd (Fresh-absent l (subst (λ k. Fresh k l) (ap (λ k. k.0) (sym y)) d.0) m)
Distinct-status (e ∷ l) d (Memᴰ.tail m) (Memᴰ.tail n) = Distinct-status l d.1 m n

abbrev Passing : (Status → Bool) → Fiber unknown → Ledger → Type 0
Passing test f l = (p : Status) × (test p ≡ true) × Memᴰ (f, p) l

-- The fibers that are picked are those under a status that passes.
pub picks-Mem :
    (test : Status → Bool) {f : Fiber unknown} (l : Ledger)
    → Memᴰ f (picks test l)
    → Passing test f l
picks-Mem test [] m = elim m [ ]
picks-Mem test {f} (e ∷ l) m = elim (Bool-cases (test e.1)) [
  | inl taken ↦ first taken (picks-Mem test l) (subst At taken m)
  | inr skipped ↦
      let (p, passes, n) = picks-Mem test l (subst At skipped m) in (p, passes, Memᴰ.tail n)
]
  where
    At : Bool → Type 0
    At b = Memᴰ f (if b then e.0 ∷ picks test l else picks test l)

    first :
        test e.1 ≡ true
        → (Memᴰ f (picks test l) → Passing test f l)
        → Memᴰ f (e.0 ∷ picks test l)
        → Passing test f (e ∷ l)
    first passes rest (Memᴰ.head x) = (e.1, passes, Memᴰ.head (ap (λ k. (k, e.1)) x))
    first passes rest (Memᴰ.tail n) = let (p, also, deeper) = rest n in (p, also, Memᴰ.tail deeper)

-- A fiber is picked once.
pub picks-Nodup : (test : Status → Bool) (l : Ledger) → Distinct l → Nodup (picks test l)
picks-Nodup test [] d = Pairwise.nil
picks-Nodup test (e ∷ l) d = elim (Bool-cases (test e.1)) [
  | inl taken ↦ rw taken (
      Nodup-cons.1 (
        λ m. ∥∥₁_elim m ⊥_prop (λ n. let (p, _, k) = picks-Mem test l n in Fresh-absent l d.0 k),
        picks-Nodup test l d.1,
      ))
  | inr skipped ↦ rw skipped (picks-Nodup test l d.1)
]
