-- ===== src/Syscall.antt =====
-- syscall.c: the arguments of a system call, which the kernel reads from the memory of the process.
pub mod Bounds
mod Tests
use test_ascii.Common.{
  ℕ, ◌+◌, ◌-◌, ◌*◌, ◌^◌, Bool, true, false, not, ◌||◌, Option, none, some, ltb, leb, ◌==◌,
  if◌then◌else◌, u32, slt,
}
use mathlib.Core.Option
use test_ascii.Common.Arrays.{find_from}

-- What the calls read of the current process: its size, the stack pointer in its trap frame, and
-- the bytes of its memory.
pub record User : Type 0 where
  pub sz : ℕ
  pub esp : ℕ
  pub memory : ℕ → ℕ

-- `*(int *)(addr)`
abbrev pub word_at : (ℕ → ℕ) → ℕ → ℕ
word_at memory addr =
    memory addr + 256 * memory (addr + 1) + 2 ^ 16 * memory (addr + 2) + 2 ^ 24 * memory (addr + 3)

-- The value that is fetched; `none` for a return of -1.
unfoldable pub fetchint : ℕ → User → Option ℕ
fetchint addr u =
    if leb u.sz addr || ltb u.sz (u32 (addr + 4)) then none else some (word_at u.memory addr)

-- The length of the string at `addr`, up to a NUL below the end of the memory.
unfoldable pub string_length : ℕ → Option ℕ → Option ℕ
string_length addr none = none
string_length addr (some s) = some (s - addr)

unfoldable pub fetchstr : ℕ → User → Option ℕ
unfolding find_from string_length
fetchstr addr u =
    if leb u.sz addr
    then none
    else string_length addr (find_from (λ s. u.memory s == 0) (u.sz - addr) addr)

unfoldable pub argint : ℕ → User → Option ℕ
unfolding fetchint
argint n u = fetchint (u32 (u.esp + 4 + 4 * n)) u

-- `size < 0 || (uint)i >= curproc->sz || (uint)i + size > curproc->sz`
abbrev pub is_outside : ℕ → ℕ → User → Bool
is_outside i size u = slt size 0 || (leb u.sz i || ltb u.sz (u32 (i + size)))

unfoldable pub check_block : ℕ → User → Option ℕ → Option ℕ
check_block size u none = none
check_block size u (some i) = if is_outside i size u then none else some i

-- The pointer to a block of `size` bytes, an `int`.
unfoldable pub argptr : ℕ → ℕ → User → Option ℕ
unfolding argint check_block
argptr n size u = check_block size u (argint n u)

unfoldable pub string_at : User → Option ℕ → Option (ℕ × ℕ)
unfolding fetchstr
string_at u none = none
string_at u (some addr) = Option.map (λ length. (addr, length)) (fetchstr addr u)

-- The pointer and the length.
unfoldable pub argstr : ℕ → User → Option (ℕ × ℕ)
unfolding argint string_at
argstr n u = string_at u (argint n u)
