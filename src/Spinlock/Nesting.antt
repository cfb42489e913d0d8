-- ===== src/Spinlock/Nesting.antt =====
-- spinlock.c: nested calls of `pushcli` and `popcli`.
use test_ascii.Common.{
  ℕ, zero, suc, ◌+◌, ◌^◌, ◌≡◌, ◌<◌, refl, sym, ap, ◌∙◌, arith, false, ◌==◌, u32, sub32, slt,
  Outcome, done, ◌>>=◌,
}
use test_ascii.Spinlock.{Cpu, pushcli, popcli}

-- `k` calls of each.
unfoldable pub pushes : ℕ → Cpu → Cpu
pushes zero c = c
pushes (suc k) c = pushcli (pushes k c)

unfoldable pub pops : ℕ → Cpu → Outcome Cpu
pops zero c = done c
pops (suc k) c = popcli c >>= λ c'. pops k c'

pushes-ncli : (k : ℕ) (c : Cpu) → c.ncli + k < 2 ^ 31 → (pushes k c).ncli ≡ c.ncli + k
unfolding pushes pushcli
pushes-ncli zero c h = omega arith
pushes-ncli (suc k) c h = omega (arith, pushes-ncli k c (omega arith))

-- A pair of calls, where interrupts were off already, and where they were not counted off.
inner_pair :
    (d : Cpu) → 0 < d.ncli → d.ncli < 2 ^ 31 → d.enabled ≡ false → popcli (pushcli d) ≡ done d
unfolding pushcli popcli
inner_pair d pos small off =
    let not_zero : (d.ncli == 0) ≡ false = ground arith in
    let kept : sub32 (u32 (d.ncli + 1)) 1 ≡ d.ncli = omega arith in
    let positive : slt d.ncli 0 ≡ false = ground arith in
    rw (kept, positive, not_zero) (ap (λ b. done (record d { enabled = b })) (sym off))

outer_pair : (d : Cpu) → d.ncli ≡ 0 → popcli (pushcli d) ≡ done (record d { intena = d.enabled })
unfolding pushcli popcli
outer_pair d e = rw (e) refl

pushes-disabled : (k : ℕ) (c : Cpu) → (pushes (suc k) c).enabled ≡ false
unfolding pushes pushcli
pushes-disabled k c = refl

-- From a processor that counts no `pushcli`, after any number of nested calls, at least one, the
-- interrupts are off; and as many calls of `popcli` do not panic and leave the interrupts as they
-- were at first.
pub nested :
    (k : ℕ) (c : Cpu)
    → c.ncli ≡ 0
    → suc k < 2 ^ 31
    → ((pushes (suc k) c).enabled ≡ false)
      × (pops (suc k) (pushes (suc k) c) ≡ done (record c { intena = c.enabled }))
unfolding pushes pops
nested zero c e h = (pushes-disabled zero c, ap (λ m. m >>= λ c'. done c') (outer_pair c e))
nested (suc k) c e h = (
  pushes-disabled (suc k) c,
  ap (λ m. m >>= λ c'. pops (suc k) c')
        (inner_pair (pushes (suc k) c) (omega (arith, pushes-ncli (suc k) c (omega arith)))
          (omega (arith, pushes-ncli (suc k) c (omega arith))) (pushes-disabled k c))
      ∙ (nested k c e (omega arith)).1,
)
