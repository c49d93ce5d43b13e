-- ===== src/Tests/Kernel.antt =====
-- Child processes, host names, fibers made for a block, and interrupts.
use shredular.Base.{
  ℕ, zero, suc, ◌<◌, ◌≡◌, ◌≢◌, inr, refl, [], ◌∷◌, ◌++◌, Option, none, some, true, false, Bool,
  arith, ltb, ◌==◌, if◌then◌else◌, i32_minus_one,
}
use shredular.Errors.{Result, ok, err}
use shredular.Async.{Outcome, done, M}
use shredular.FiberFuture.{pending}
use shredular.Scheduler.ProcessWait.{Wait, wait_target, try_wait, raw_pid_max, poll}
use shredular.Scheduler.ProcessWait.Never.{IsGroup, poll_stays_pending}
use shredular.Scheduler.ProcessWait.Inside.{WaitpidLaws}
use shredular.Scheduler.AddressResolve.{
  Text, Lookup, percent, colon, split, splitn_two, look_up, resolve_future,
}
use shredular.Tests.World.{World, ruby, tokio, idle, note, nil_value}

-- The clock counts the signals that are still to be delivered; no child ever ends,
-- and only the option 1 does not wait for it.
abbrev receive_signal : ℕ → World → Bool × World
receive_signal zero s = (true, s)
receive_signal (suc n) s = (false, record s { outside = record (s.outside) { clock = n } })

abbrev pub wait : Wait World
wait = record {
  Pid = ℕ;
  Options = ℕ;
  from_raw = λ n. if n == 0 then none else some n;
  from_bits = λ f. if ltb f 8 then some f else none;
  waitpid = λ pid options s. (done (if options == 1 then ok none else err 10), s);
  signal_child = λ s. (done (ok tt), s);
  poll_recv = λ s. receive_signal s.outside.clock s;
  allocate = λ s. (done 250, s);
  is_typed_data = λ v. true;
  xmalloc = λ s. (done tt, s);
  set_data = λ v d s. note v s;
  await_poll = λ p s. (done nil_value, s);
}

any_child : wait_target wait i32_minus_one ≡ done (some raw_pid_max)
unfolding wait_target
any_child = refl

signals_fall :
    (n : ℕ) (s : World)
    → (receive_signal n s).0 ≡ false
    → s.outside.clock ≡ n
    → (receive_signal n s).1.outside.clock < s.outside.clock
signals_fall zero s h e = cc
signals_fall (suc n) s h e = omega arith

abbrev left : World → ℕ
left s = s.outside.clock

-- The group -5, with two signals on their way.
abbrev group : ℕ
group = 0xffff_fffb

abbrev signalled : World
signalled = record idle { outside = record (idle.outside) { clock = 2 } }

group-IsGroup : IsGroup group
group-IsGroup = (omega arith, omega arith)

poll_stays_pending_example : (poll wait 3 group 1 signalled).0 ≡ done pending
poll_stays_pending_example =
    poll_stays_pending wait left group 1 (λ s h. signals_fall s.outside.clock s h refl)
      (inr group-IsGroup) 3 signalled (omega arith)

-- POSIX's law, with 1 for WNOHANG.
abbrev no_hang : ℕ → Bool
no_hang o = o == 1

waitpid_laws : WaitpidLaws wait no_hang
waitpid_laws = record { comes_back = λ pid o s t. never (no_hang o) s t }
  where
    never :
        (b : Bool) (s t : World)
        → b ≡ false
        → ◌≢◌ {A = Outcome (Result (Option ℕ) ℕ) × World}
            (done (if b then ok none else err 10), s)
            (done (ok none), t)
    never true s t h e = cc
    never false s t h e = cc

stays_pending : poll wait 3 group 0 signalled ≡ (done pending, idle)
unfolding poll try_wait wait_target
stays_pending = refl

-- Every name has one address.
abbrev pub lookup : Lookup World ℕ
lookup = record {
  to_string = λ v. ok [];
  lookup_host = λ name port s. (done (ok (port ∷ [])), s);
  address_string = λ a. a;
  array = λ vs. 230;
}

-- ab%eth, and ::1%e.
abbrev host : Text
host = b'a' ∷ b'b' ∷ []

abbrev zone : Text
zone = percent ∷ b'e' ∷ []

abbrev loopback : Text
loopback = colon ∷ colon ∷ b'1' ∷ []

name_looked_up :
    resolve_future ruby tokio lookup (host ++ zone) idle ≡ look_up ruby tokio lookup host idle
unfolding resolve_future split splitn_two
name_looked_up = refl

abbrev tick : M World (Unit {0})
tick s = (done tt, note 1 s)
