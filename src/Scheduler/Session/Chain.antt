-- ===== src/Scheduler/Session/Chain.antt =====
-- Who waits for whom in the ledger of a session: a maker waits for a fiber made after it, and no two makers
-- wait for the same one.
use mathlib.Core.List.{Memᴰ}
use shredular.Base.{◌≡◌, ◌≢◌, inl, inr, refl, sym, ap, ◌∙◌, subst, [], ◌∷◌, ◌++◌, All-append}
use shredular.Fiber.{Fiber, unknown}
use shredular.Scheduler.Session.{
  Status, active, waiting, lost, finished, making, Ledger, Changed, here, there, Fresh, Unmade,
}
use shredular.Scheduler.Session.Ledger.{Changed-keeps, Changed-Memᴰ, Changed-back, Fresh-absent}

abbrev pub Unfinished : Fiber unknown → Ledger → Type 0
Unfinished g l = (p : Status) × Memᴰ (g, p) l × (p ≢ finished)

abbrev pub MadeIn : Status → Ledger → Type 0
MadeIn (making g) l = Unfinished g l × Unmade g l
MadeIn _ l = Unit

abbrev pub Chained : Ledger → Type 0
Chained [] = Unit
Chained (e ∷ l) = MadeIn e.1 l × Chained l

-- A status other than that of a maker.
abbrev pub Plain : Status → Type 0
Plain (making g) = ⊥
Plain _ = Unit

Plain-MadeIn : (q : Status) (l : Ledger) → Plain q → MadeIn q l
Plain-MadeIn active l n = tt
Plain-MadeIn waiting l n = tt
Plain-MadeIn lost l n = tt
Plain-MadeIn finished l n = tt
Plain-MadeIn (making g) l n = absurd n

Plain-ne : {g : Fiber unknown} (q : Status) → Plain q → q ≢ making g
Plain-ne q n e = subst Plain e n

Changed-Unmade :
    {f g : Fiber unknown} {p q : Status} {l m : Ledger}
    → Changed f p q l m
    → q ≢ making g
    → Unmade g l
    → Unmade g m
Changed-Unmade here other h = (other, h.1)
Changed-Unmade (there c) other h = (h.0, Changed-Unmade c other h.1)

Changed-Unfinished :
    {f g : Fiber unknown} {p q : Status} {l m : Ledger}
    → Changed f p q l m
    → (q ≡ finished → g ≢ f)
    → Unfinished g l
    → Unfinished g m
Changed-Unfinished {q} {m} c mine (r, n, open_yet) = elim (Changed-keeps c n) [
  | inl same ↦ (
    q,
    subst (λ (k : Fiber unknown). Memᴰ {A = Fiber unknown × Status} (k, q) m) (sym same.0)
        (Changed-Memᴰ c),
    λ e. mine e same.0,
  )
  | inr still ↦ (r, still, open_yet)
]

Changed-MadeIn :
    {f : Fiber unknown} {p q : Status} {l m : Ledger} (st : Status)
    → Changed f p q l m
    → (q ≡ finished → st ≢ making f)
    → ((g : Fiber unknown) → st ≡ making g → q ≢ making g)
    → MadeIn st l
    → MadeIn st m
Changed-MadeIn active c last other h = tt
Changed-MadeIn waiting c last other h = tt
Changed-MadeIn lost c last other h = tt
Changed-MadeIn finished c last other h = tt
Changed-MadeIn (making g) c last other h = (
  Changed-Unfinished c (λ e same. last e (ap making same)) h.0,
  Changed-Unmade c (other g refl) h.1,
)

-- A status that is no maker's, and that ends no block that a maker waits for.
pub Changed-Chained :
    {f : Fiber unknown} {p q : Status} {l m : Ledger}
    → Changed f p q l m
    → Plain q
    → (q ≡ finished → Unmade f l)
    → Chained l
    → Chained m
Changed-Chained {q} (here {l}) n last h = (Plain-MadeIn q l n, h.1)
Changed-Chained {q} (there {e} c) n last h = (
  Changed-MadeIn e.1 c (λ is. (last is).0) (λ g is. Plain-ne q n) h.0,
  Changed-Chained c n (λ is. (last is).1) h.1,
)

Unmade-absent : {f g : Fiber unknown} (l : Ledger) → Unmade g l → Memᴰ (f, making g) l → ⊥
Unmade-absent [] h m = elim m [ ]
Unmade-absent (e ∷ l) h (Memᴰ.head x) = h.0 (ap (λ k. k.1) (sym x))
Unmade-absent (e ∷ l) h (Memᴰ.tail m) = Unmade-absent l h.1 m

-- When its maker runs again, nobody waits for a fiber any more.
pub Changed-Unmade_now :
    {f g : Fiber unknown} {q : Status} {l m : Ledger}
    → Changed f (making g) q l m
    → Plain q
    → Chained l
    → Unmade g m
Changed-Unmade_now {q} here n h = (Plain-ne q n, h.0.1)
Changed-Unmade_now {f} {g} {q} (there {e} {l} c) n h = (
  λ is. Unmade-absent l (subst (λ st. MadeIn st l) is h.0).1 (Changed-Memᴰ (Changed-back c)),
  Changed-Unmade_now c n h.1,
)

-- Nobody waits for a fiber that is not in the ledger.
Fresh-Unmade : (g : Fiber unknown) (l : Ledger) → Fresh g l → Chained l → Unmade g l
Fresh-Unmade g [] f h = tt
Fresh-Unmade g (e ∷ l) f h = (
  λ is. let (p, m, _) = (subst (λ st. MadeIn st l) is h.0).0 in Fresh-absent l f.1 m,
  Fresh-Unmade g l f.1 h.1,
)

pub mem-append :
    {e : Fiber unknown × Status} (x : Fiber unknown × Status) (l : Ledger)
    → Memᴰ e l
    → Memᴰ e (l ++ x ∷ [])
mem-append x [] m = elim m [ ]
mem-append x (y ∷ l) (Memᴰ.head is) = Memᴰ.head is
mem-append x (y ∷ l) (Memᴰ.tail m) = Memᴰ.tail (mem-append x l m)

pub mem_last : (x : Fiber unknown × Status) (l : Ledger) → Memᴰ x (l ++ x ∷ [])
mem_last x [] = Memᴰ.head refl
mem_last x (y ∷ l) = Memᴰ.tail (mem_last x l)

Unmade-append : (g h : Fiber unknown) (l : Ledger) → Unmade g l → Unmade g (l ++ (h, active) ∷ [])
Unmade-append g h l u =
    All-append (λ e. e.1 ≢ making g) l ((h, active) ∷ []) u (Plain-ne active tt, tt)

MadeIn-append :
    (h : Fiber unknown) (st : Status) (l : Ledger) → MadeIn st l → MadeIn st (l ++ (h, active) ∷ [])
MadeIn-append h active l m = tt
MadeIn-append h waiting l m = tt
MadeIn-append h lost l m = tt
MadeIn-append h finished l m = tt
MadeIn-append h (making g) l ((p, m, open_yet), u) =
    ((p, mem-append (h, active) l m, open_yet), Unmade-append g h l u)

-- A new fiber that nobody waits for.
pub Chained-append : (h : Fiber unknown) (l : Ledger) → Chained l → Chained (l ++ (h, active) ∷ [])
Chained-append h [] m = (tt, tt)
Chained-append h (e ∷ l) m = (MadeIn-append h e.1 l m.0, Chained-append h l m.1)

-- A new fiber that its maker waits for.
pub Chained-made :
    {f g : Fiber unknown} {l m : Ledger}
    → Changed f active (making g) l m
    → Fresh g l
    → Chained l
    → Chained (m ++ (g, active) ∷ [])
Chained-made {g} (here {l}) new h = (
  ((active, mem_last (g, active) l, λ e. cc), Unmade-append g g l (Fresh-Unmade g l new.1 h.1)),
  Chained-append g l h.1,
)
Chained-made {g} (there {e} {l} {m} c) new h = (
  MadeIn-append g e.1 m (
      Changed-MadeIn e.1 c (λ is. cc)
        (λ k is same. (Fresh-Unmade g (e ∷ l) new h).0 (is ∙ sym same)) h.0),
  Chained-made c new.1 h.1,
)
