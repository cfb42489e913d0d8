-- ===== src/Proc/Inv/Switch.antt =====
-- `yield`, `sleep` and the scheduler keep the invariant.
use test_ascii.Common.{ℕ, zero, suc, ◌+◌, ◌≡◌, ◌≢◌, refl, Option, none, some, arith}
use test_ascii.Common.Arrays.{update}
use test_ascii.Proc.Types.{Table, object, Proc, nproc, running, runnable}
use test_ascii.Proc.Sched.{
  account, account_all, pick_from, pick, switch_to, run_chosen, schedule, yield,
}
use test_ascii.Proc.Signals.{sleep}
use test_ascii.Proc.Step.{Acts}
use test_ascii.Proc.Inv.{Inv, Fits, Fits-Inv, Fits-Inv_same}

-- A process that leaves its processor: nothing else runs there, and it runs nowhere else.
pub leave-Inv :
    {t : Table} {cpu c : ℕ} (f : ℕ → Proc)
    → Inv t
    → Acts t cpu c
    → ((i : ℕ) → Fits t i (f i))
    → ((i : ℕ) → i ≢ c → (t.procs i).state ≡ running → (f i).state ≡ running)
    → Inv (record t { procs = f; running_on = update t.running_on cpu none })
leave-Inv {t} {cpu} {c} f inv a fits keeps = Fits-Inv f _ inv fits λ k l. record {
  runs = λ d h. ground (arith, (inv.cpus k l).runs d, (inv.cpus k cpu).one_cpu d, a, keeps d);
  one_cpu = λ d h h'. ground (arith, (inv.cpus k l).one_cpu d);
}

module _ {t : Table} (inv : Inv t) where
  pub yield-Inv : {cpu c : ℕ} → Acts t cpu c → Inv (yield cpu c t)
  unfolding yield
  yield-Inv {cpu} {c} a =
      leave-Inv _ inv a (λ i. ground (arith, inv.slots i)) (λ i ne h. ground arith)

  pub sleep-Inv : {cpu c : ℕ} (n : ℕ) → Acts t cpu c → Inv (sleep cpu c (object n) t)
  unfolding sleep
  sleep-Inv {cpu} {c} n a =
      leave-Inv _ inv a (λ i. ground (arith, inv.slots i)) (λ i ne h. ground arith)

  pub account_all-Inv : Inv (account_all t)
  unfolding account_all account
  account_all-Inv = Fits-Inv_same _ inv (λ i. ground (arith, inv.slots i)) (λ i h. ground arith)

  pub switch_to-Inv :
      (cpu c : ℕ) → t.running_on cpu ≡ none → (t.procs c).state ≡ runnable → Inv (switch_to cpu c t)
  unfolding switch_to
  switch_to-Inv cpu c free ready =
      Fits-Inv _ _ inv (λ i. ground (arith, inv.slots i))
        λ k l. record {
          runs = λ d h. ground (arith, (inv.cpus k l).runs d);
          one_cpu = λ d h h'.
              ground
                (arith, (inv.cpus k l).one_cpu d, (inv.cpus k l).runs d, (inv.cpus l k).runs d);
        }

-- The selection loop chooses a runnable slot.
pub pick_from_runnable :
    (procs : ℕ → Proc) (n i : ℕ) (o : Option ℕ) (c : ℕ)
    → ((d : ℕ) → o ≡ some d → (procs d).state ≡ runnable)
    → pick_from procs n i o ≡ some c
    → (procs c).state ≡ runnable
unfolding pick_from
pick_from_runnable procs zero i o c h e = h c e
pick_from_runnable procs (suc n) i o c h e =
    pick_from_runnable procs n (i + 1) _ c (λ d q. ground (arith, h d)) e

run_chosen-Inv :
    {t : Table} (cpu : ℕ) (o : Option ℕ)
    → Inv t
    → t.running_on cpu ≡ none
    → ((c : ℕ) → o ≡ some c → (t.procs c).state ≡ runnable)
    → Inv (run_chosen cpu o t)
unfolding run_chosen
run_chosen-Inv cpu none inv free ready = inv
run_chosen-Inv cpu (some c) inv free ready = switch_to-Inv inv cpu c free (ready c refl)

pub schedule-Inv : {t : Table} (cpu : ℕ) → Inv t → t.running_on cpu ≡ none → Inv (schedule cpu t)
unfolding schedule
schedule-Inv {t} cpu inv free =
    run_chosen-Inv cpu (pick (account_all t)) (account_all-Inv inv) free
      λ c e. pick_from_runnable (account_all t).procs nproc 0 none c (λ d q. cc) e
