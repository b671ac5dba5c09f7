-- ===== src/Tests/Programs.antt =====
-- Executing and halting a program, at concrete inputs.
use loli_os.Prelude.{
  ℕ, ◌≡◌, refl, inl, inr, some, [], ◌∷◌, arith, ◌==◌, if◌then◌else◌, get_or, pos, minus_one,
}
use loli_os.Memory.Bytes.{Mem, bytes, store}
use loli_os.Memory.Words.{word_of}
use loli_os.FileSystem.{Image}
use loli_os.FileSystem.Spec.{contents}
use loli_os.Process.Command.{parse_cmd, find_executable, program}
use loli_os.Process.Command.Parsing.{CommandLine, found_program, parse_cmd-CommandLine}
use loli_os.Memory.Access.{InUserPage}
use loli_os.Process.Calls.{getargs}
use loli_os.Process.Calls.Arguments.{Arguments, getargs-Arguments}
use loli_os.Process.Context.{Kernel}
use loli_os.Process.Loader.{load_exe}
use loli_os.Process.Loader.Loaded.{Loadable, with_program, load_exe-Loaded}
use loli_os.Process.Execution.{running, execute_impl, resumed, halt_impl}
use loli_os.Process.Execution.Halting.{Returned, execute_impl-halt_impl}
use loli_os.Process.Execution.Success.{Started, execute_impl-Started}
use loli_os.Tests.Data.{letters, blanks, console, processes}

-- An image with one program of 5000 bytes, which is named "a".
abbrev programs : Image
programs = record {
  dentry_count = 1;
  inode_count = 1;
  dir_entries = λ i. record { name = λ p. if p == 0 then 97 else 0; type = 2; inode_idx = 0 };
  inode = λ i. record { size = 5000; data_blocks = λ b. b };
  data_block = λ b p. if b == 0 then get_or (0x7F ∷ 0x45 ∷ 0x4C ∷ 0x46 ∷ []) p 144 else 144;
}

programs-Loadable : Loadable programs 0
programs-Loadable = record { inode_in = omega arith; fits = omega arith }

-- The command " a  xy" at 100.
abbrev typed : Mem
typed = store letters 100 (32 ∷ 97 ∷ 32 ∷ 32 ∷ 120 ∷ 121 ∷ 0 ∷ [])

typed-CommandLine : CommandLine typed 100 1 1 2 2
unfolding store
typed-CommandLine = record {
  leading = record { space = λ i h. ground (arith, h); stop = λ e. ground (arith, e) };
  name = record {
    no_space = λ i h. ground (arith, h);
    no_end = λ i h. ground (arith, h);
    stop = inl refl;
  };
  between = record { space = λ i h. ground (arith, h); stop = λ e. ground (arith, e) };
  args = record { nonzero = λ i h. ground (arith, h); ended = refl };
  lead_in = omega arith;
  gap_in = omega arith;
}

parse_cmd-CommandLine_example :
    parse_cmd programs typed 100
    ≡ some (found_program (find_executable programs (bytes typed 101 1)) (bytes typed 104 2))
parse_cmd-CommandLine_example =
    parse_cmd-CommandLine programs typed 100 1 1 2 2 typed-CommandLine (omega arith) (omega arith)

load_exe-Loaded_example :
    (l : Mem) × (load_exe programs 0 letters
      ≡ some (l, word_of (contents programs (programs.inode 0) 24 4)))
    × ((p : ℕ) → l p ≡ with_program programs (programs.inode 0) letters p)
load_exe-Loaded_example = load_exe-Loaded programs 0 letters programs-Loadable (omega arith)

typed_parsed : parse_cmd programs typed 100 ≡ some (program 0 (120 ∷ 121 ∷ []))
unfolding parse_cmd store bytes
typed_parsed = refl

abbrev kernel : Kernel
kernel = record { table = processes; console = console; pages = λ i. blanks; esp0 = 0 }

execute_impl-Started_example :
    (i : ℕ) × (k' : Kernel) × (execute_impl programs 0x400000 7 kernel typed 100 (some 1) minus_one
      ≡ some (running i k'))
    × Started programs 0 kernel k' 1 i
execute_impl-Started_example =
    execute_impl-Started programs 0x400000 7 kernel typed 100 1 0 3 minus_one (120 ∷ 121 ∷ [])
      typed_parsed programs-Loadable (omega arith) (omega arith) refl refl (0, refl, omega arith)

-- The program after its start.
launched :
    (i : ℕ) × (k' : Kernel) × (execute_impl programs 0x400000 7 kernel typed 100 (some 1) minus_one
      ≡ some (running i k'))
    × Started programs 0 kernel k' 1 i
launched =
    execute_impl-Started programs 0x400000 7 kernel typed 100 1 0 3 minus_one (120 ∷ 121 ∷ [])
      typed_parsed programs-Loadable (omega arith) (omega arith) refl refl (0, refl, omega arith)

execute_impl-halt_impl_example :
    (k2 : Kernel) × (halt_impl programs 0x400000 9 launched.1 launched.0 5 ≡ some (resumed 1 5 k2))
    × Returned 0x400000 kernel k2 1 launched.0
execute_impl-halt_impl_example =
    execute_impl-halt_impl programs 0x400000 7 9 kernel launched.1 typed 100 1 launched.0 5
      minus_one (omega arith) refl (0, refl, omega arith) launched.2

getargs_page : InUserPage 0x8000010 100
getargs_page = record { from = omega arith; to = omega arith }

getargs-Arguments_example :
    (m' : Mem) × (getargs letters 0x400000 0x8000010 (pos 100) ≡ (pos 0, m'))
    × Arguments letters m' 0x400000 0x8000010 100
getargs-Arguments_example =
    getargs-Arguments letters 0x400000 0x8000010 100 (omega arith) (omega arith) (omega arith)
      getargs_page (inr (omega arith))
