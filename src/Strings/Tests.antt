-- ===== src/Strings/Tests.antt =====
-- Concrete memories for string.c.
use test_ascii.Common.{ℕ, ◌≡◌, ◌<◌, inr, arith, if◌then◌else◌, ltb}
use test_ascii.Strings.{Memory, memmove, safestrcpy}
use test_ascii.Strings.Move.{snapshot, memmove_lem}
use test_ascii.Strings.Copy.{Copied, safestrcpy_lem}

-- The string "aaa" at 100, and NULs elsewhere.
abbrev three : Memory
three = λ a. if ltb a 100 then 0 else if ltb a 103 then 97 else 0

three_bytes : (a : ℕ) → three a < 256
three_bytes a = ground arith

memmove_lem_example : memmove 101 100 5 three 103 ≡ snapshot 101 100 5 three 103
memmove_lem_example = memmove_lem 101 100 5 three 103

safestrcpy_lem_example : (k : ℕ) × Copied 200 100 3 k three (safestrcpy 200 100 3 three)
safestrcpy_lem_example = safestrcpy_lem 200 100 3 three (omega arith) (inr (omega arith))
