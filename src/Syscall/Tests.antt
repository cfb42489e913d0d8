-- ===== src/Syscall/Tests.antt =====
-- Concrete processes for syscall.c.
use test_ascii.Common.{◌≡◌, ◌==◌, if◌then◌else◌, refl, arith, none, some}
use test_ascii.Common.Arrays.{find_from}
use test_ascii.Syscall.{
  User, argptr, argstr, argint, fetchint, fetchstr, string_length, string_at, check_block,
}
use test_ascii.Syscall.Bounds.{Block, Text, argptr_lem, argstr_lem}

-- The first argument, at byte 100, is 40; the string there is two characters long.
abbrev caller : User
caller = record {
  sz = 4096;
  esp = 96;
  memory = λ a. if a == 100 then 40 else (if a == 40 then 104 else (if a == 41 then 105 else 0));
}

fetched : argstr 0 caller ≡ some (40, 2)
unfolding argstr argint fetchint fetchstr string_length string_at find_from
fetched = refl

too_long : argptr 0 4057 caller ≡ none
unfolding argptr argint fetchint check_block
too_long = refl

argptr_lem_example : Block caller 0 16 (argptr 0 16 caller)
argptr_lem_example = argptr_lem 0 16 caller (omega arith) (omega arith)

argstr_lem_example : Text caller 0 (argstr 0 caller)
argstr_lem_example = argstr_lem 0 caller (omega arith)
