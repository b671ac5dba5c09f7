-- ===== src/Process/Command.antt =====
-- process_parse_cmd of student-distrib/process.c: the command line, and the file that it names. The
-- loop over spaces is a recursion on rounds, 2^32 of them, and `none` when no round is left.
pub mod Parsing
use loli_os.Prelude.{
  ℕ, zero, suc, ◌+◌, ◌||◌, not, Option, none, some, List, [], ◌∷◌, ◌==◌, if◌then◌else◌,
}
use loli_os.Memory.Bytes.{Mem}
use loli_os.Memory.Words.{word_of, of_list}
use loli_os.Strings.{string_rounds}
use loli_os.FileSystem.{Image, max_fname_len, ftype_file, read_dentry_by_name, read_data}

-- MAX_ARGS_LEN and EXE_MAGIC.
abbrev pub max_args_len : ℕ
max_args_len = 1024

abbrev pub exe_magic : ℕ
exe_magic = 0x464C457F

-- `while (command[i] == ' ') i++`: the index of the first other character.
skip_spaces : Mem → ℕ → ℕ → ℕ → Option ℕ
skip_spaces m command i zero = none
skip_spaces m command i (suc n) =
    let rest = skip_spaces m command (i + 1) n in if m (command + i) == 32 then rest else some i

-- The loop over the characters of the filename: the name and the index where it ends, or `none` if
-- it is too long.
filename_from : Mem → ℕ → ℕ → ℕ → Option (List ℕ × ℕ)
filename_from m command i zero = none
filename_from m command i (suc n) =
    let c = m (command + i) in
    let rest = filename_from m command (i + 1) n in
    if c == 32 || c == 0
    then some ([], i)
    else elim rest [ none ↦ none | some (cs, j) ↦ some (c ∷ cs, j) ]

-- The loop over the arguments: the characters before the NUL, or `none` if they are too long.
args_from : Mem → ℕ → ℕ → ℕ → Option (List ℕ)
args_from m command i zero = none
args_from m command i (suc n) =
    let c = m (command + i) in
    let rest = args_from m command (i + 1) n in
    if c == 0 then some [] else elim rest [ none ↦ none | some cs ↦ some (c ∷ cs) ]

-- The end of process_parse_cmd: the inode of the executable file with a name, or `none` for -1. What
-- follows the NUL in the buffer of the name is not read.
unfoldable pub find_executable : Image → List ℕ → Option ℕ
unfolding read_dentry_by_name read_data
find_executable fs filename = elim (read_dentry_by_name fs (of_list filename)) [
  | none ↦ none
  | some dentry ↦
      if not (dentry.type == ftype_file) then none else elim (read_data fs dentry.inode_idx 0 4) [
        | none ↦ none
        | some (n, magic) ↦
            if not (n == 4)
            then none
            else if not (word_of magic == exe_magic)
            then none
            else some dentry.inode_idx
      ]
]

-- What process_parse_cmd leaves: the result -1, or the inode and the characters of the arguments.
pub data Command : Type 0 where
  invalid : Command
  program : ℕ → List ℕ → Command

-- The command line from the end of the filename on, with the rounds of its loops.
parse_rest : ℕ → ℕ → Image → Mem → ℕ → List ℕ → ℕ → Option Command
unfolding skip_spaces args_from find_executable
parse_rest rounds args_rounds fs m command filename i = elim (skip_spaces m command i rounds) [
  | none ↦ none
  | some j ↦ elim (args_from m command j args_rounds) [
    | none ↦ some invalid
    | some args ↦ elim (find_executable fs filename) [
      | none ↦ some invalid
      | some inode ↦ some (program inode args)
    ]
  ]
]

-- process_parse_cmd, with the rounds of its loops.
parse_with : ℕ → ℕ → ℕ → Image → Mem → ℕ → Option Command
unfolding skip_spaces filename_from parse_rest
parse_with rounds name_rounds args_rounds fs m command = elim (skip_spaces m command 0 rounds) [
  | none ↦ none
  | some i ↦ elim (filename_from m command i name_rounds) [
    | none ↦ some invalid
    | some (filename, j) ↦ parse_rest rounds args_rounds fs m command filename j
  ]
]

-- process_parse_cmd.
unfoldable pub parse_cmd : Image → Mem → ℕ → Option Command
unfolding parse_with
parse_cmd fs m command = parse_with string_rounds (max_fname_len + 1) max_args_len fs m command
