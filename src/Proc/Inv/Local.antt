-- ===== src/Proc/Inv/Local.antt =====
-- The sections that write one slot and leave its pid and its parent.
use test_ascii.Common.{ℕ, ◌≡◌, none, arith}
use test_ascii.Proc.Types.{Table, embryo}
use test_ascii.Proc.Life.{set_state_unused, set_kstack, set_runnable, unclaim, retire}
use test_ascii.Proc.Signals.{sleep_end}
use test_ascii.Proc.Inv.{Inv, Fits-Inv-update}

module _ {t : Table} (inv : Inv t) where
  pub set_state_unused-Inv :
      (i : ℕ) → (t.procs i).state ≡ embryo → (t.procs i).parent ≡ none → Inv (set_state_unused i t)
  unfolding set_state_unused
  set_state_unused-Inv i e p = Fits-Inv-update i _ inv (ground (arith, inv.slots i)) (ground arith)

  pub unclaim-Inv :
      (i : ℕ) → (t.procs i).state ≡ embryo → (t.procs i).parent ≡ none → Inv (unclaim i t)
  unfolding unclaim
  unclaim-Inv i e p = Fits-Inv-update i _ inv (ground (arith, inv.slots i)) (ground arith)

  pub set_kstack-Inv : (i page : ℕ) → Inv (set_kstack i page t)
  unfolding set_kstack
  set_kstack-Inv i page = Fits-Inv-update i _ inv (ground (arith, inv.slots i)) (λ h. h)

  pub set_runnable-Inv : (i : ℕ) → (t.procs i).state ≡ embryo → Inv (set_runnable i t)
  unfolding set_runnable
  set_runnable-Inv i e = Fits-Inv-update i _ inv (ground (arith, inv.slots i)) (ground arith)

  pub retire-Inv : (i : ℕ) → Inv (retire i t)
  unfolding retire
  retire-Inv i = Fits-Inv-update i _ inv (ground (arith, inv.slots i)) (λ h. h)

  pub sleep_end-Inv : (i : ℕ) → Inv (sleep_end i t)
  unfolding sleep_end
  sleep_end-Inv i = Fits-Inv-update i _ inv (ground (arith, inv.slots i)) (λ h. h)
