-- ===== src/Fs/Logs.antt =====
-- fs.c: a change of the disk's blocks that the log knows of.
use test_ascii.Common.{ℕ, ◌≡◌, ◌∙◌, refl, false}
use test_ascii.Fs.{Disk}

-- Blocks that the transaction does not have are as before.
pub record Logs (d d' : Disk) : Type 0 where
  pub grows : (x : ℕ) → d'.logged x ≡ false → d.logged x ≡ false
  pub same : (x i : ℕ) → d'.logged x ≡ false → d'.blocks x i ≡ d.blocks x i

pub Logs-refl : (d : Disk) → Logs d d
Logs-refl d = record { grows = λ x h. h; same = λ x i h. refl }

pub Logs-trans : {d e f : Disk} → Logs d e → Logs e f → Logs d f
Logs-trans p q = record {
  grows = λ x h. p.grows x (q.grows x h);
  same = λ x i h. q.same x i h ∙ p.same x i (q.grows x h);
}
