-- ===== src/File/Tests.antt =====
-- Concrete file tables and writes of file.c.
use test_ascii.Common.{◌≡◌, refl, arith, true, false, done}
use test_ascii.Common.Arrays.{update, find_from}
use test_ascii.File.{
  File, Ftable, fd_none, fd_pipe, fd_inode, filealloc, filealloc_found, fileclose, Release,
}
use test_ascii.File.Refs.{Reach, booted, later, opened, set_up, Closed, fileclose_lem}
use test_ascii.File.OnDisk.{OnDisk}

abbrev closed_file : File
closed_file = record {
  kind = fd_none;
  ref = 0;
  readable = false;
  writable = false;
  pipe = 0;
  ip = 0;
  off = 0;
}

abbrev no_files : Ftable
no_files = λ _. closed_file

abbrev one_file : Ftable
one_file = update no_files 0 (record closed_file { ref = 1 })

Reach-one_file : Reach one_file (update (λ _. 0) 0 1)
unfolding filealloc filealloc_found find_from
Reach-one_file = later (booted no_files (λ f. refl)) (opened no_files one_file (λ _. 0) 0 refl)

-- The file set up as the writing end of pipe 5.
abbrev one_pipe : Ftable
one_pipe =
    update one_file 0 (record closed_file { ref = 1; kind = fd_pipe; writable = true; pipe = 5 })

Reach-one_pipe : Reach one_pipe (update (λ _. 0) 0 1)
Reach-one_pipe = later Reach-one_file (
    set_up one_file (update (λ _. 0) 0 1) 0
      (record closed_file { ref = 1; kind = fd_pipe; writable = true; pipe = 5 }) refl)

fileclose_lem_example :
    (x : Release) × (t' : Ftable) × (fileclose 0 one_pipe ≡ done (x, t')) × Closed one_pipe t' 0 x 1
fileclose_lem_example = fileclose_lem Reach-one_pipe 0 (omega arith)

abbrev on_inode : File
on_inode = record {
  kind = fd_inode;
  ref = 1;
  readable = true;
  writable = true;
  pipe = 0;
  ip = 0;
  off = 60;
}
