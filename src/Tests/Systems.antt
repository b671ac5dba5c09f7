-- ===== src/Tests/Systems.antt =====
-- The kernel as a whole, from its start, at a concrete image.
use loli_os.Prelude.{ℕ, ◌≡◌, refl, Option, none, some, [], ◌∷◌, ◌==◌, if◌then◌else◌, get_or}
use loli_os.FileSystem.{Image}
use loli_os.Memory.Bytes.{bytes}
use loli_os.Process.{init}
use loli_os.Process.Execution.Survivors.{Runs}
use loli_os.Devices.{pit_handle_irq}
use loli_os.System.{start, next, timer}
use loli_os.System.Invariant.{Reach-Runs}
use loli_os.Process.Context.{Kernel}
use loli_os.Process.Execution.{Executed, refused, running}
use loli_os.Process.Calls.{start_shell}
use loli_os.Tests.Data.{blanks, console, processes}

-- An image with a program of 32 bytes, which is named "shell".
abbrev shells : Image
shells = record {
  dentry_count = 1;
  inode_count = 1;
  dir_entries = λ i. record {
    name = λ p. get_or (115 ∷ 104 ∷ 101 ∷ 108 ∷ 108 ∷ []) p 0;
    type = 2;
    inode_idx = 0;
  };
  inode = λ i. record { size = 32; data_blocks = λ b. b };
  data_block = λ b p. if b == 0 then get_or (0x7F ∷ 0x45 ∷ 0x4C ∷ 0x46 ∷ []) p 144 else 144;
}

-- The kernel before its start.
abbrev booted : Kernel
booted = record { table = processes; console = console; pages = λ i. blanks; esp0 = 0 }

abbrev kernel_of : Option Executed → Kernel
kernel_of (some (running i k)) = k
kernel_of (some refused) = booted
kernel_of none = booted

shell_started :
    start_shell shells 0x400000 7 (record booted { table = init booted.table })
    ≡ some (
        running 2
          (kernel_of (start_shell shells 0x400000 7 (record booted { table = init booted.table }))))
unfolding start_shell init bytes
shell_started = refl

-- The kernel after the start, and after the timer's first interrupt.
abbrev first_kernel : Kernel
first_kernel =
    kernel_of (start_shell shells 0x400000 7 (record booted { table = init booted.table }))

abbrev switched : Option (ℕ × Kernel) → Kernel
switched none = booted
switched (some (i, k)) = k

abbrev second_kernel : Kernel
second_kernel = switched (pit_handle_irq 0x400000 first_kernel 2)

shell_switched : pit_handle_irq 0x400000 first_kernel 2 ≡ some (0, second_kernel)
unfolding start_shell init bytes pit_handle_irq
shell_switched = refl

Reach-Runs_example : Runs second_kernel 0
Reach-Runs_example =
    Reach-Runs (next (start booted shells 0x400000 7 shell_started) (timer 0x400000 shell_switched))
