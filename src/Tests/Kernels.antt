-- ===== src/Tests/Kernels.antt =====
-- Interrupts and system calls on the kernel's state, at concrete inputs.
use loli_os.Prelude.{
  ℕ, ◌+◌, ◌*◌, ◌%◌, ◌^◌, ◌<◌, min, ◌≡◌, refl, false, some, List, [], ◌∷◌, arith, ◌==◌,
  if◌then◌else◌,
}
use loli_os.Memory.Access.{InUserPage}
use loli_os.FileSystem.Reads.{left}
use loli_os.File.Transfer.{Looks}
use loli_os.File.Reading.{Advanced}
use loli_os.Signals.Handling.{Action, nothing}
use loli_os.Syscalls.{World, syscall_interrupt}
use loli_os.Syscalls.Reading.{idt_handle_interrupt-read}
use loli_os.Regs.{IntRegs}
use loli_os.Process.Context.{Kernel}
use loli_os.Interrupts.{idt_handle_interrupt}
use loli_os.Interrupts.Exceptions.{quiet, Excepted, OnlyProcess, idt_handle_interrupt_exception}
use loli_os.Devices.{ps2_handle_irq}
use loli_os.Devices.Drain.{
  Event, key, mouse, waiting, handle_events, drained, ps2_handle_irq-waiting,
}
use loli_os.Interrupts.Gates.{Gate, Thunk, exc, irq, syscall, unknown, idt_init}
use loli_os.Interrupts.Gates.Filled.{IsGate, idt_init-IsGate}
use loli_os.Tests.Data.{
  blanks, console, processes, image, open_file, open_file-IsOpenFile, user_regs,
}

-- Process 1 handles faults, and has an open file.
abbrev faulting : Kernel
faulting = record {
  table = λ i.
      let p = processes i in
      record p {
        signals = quiet (λ s. if s == 1 then 0x8048200 else 0);
        files = λ j. if j == 2 then open_file else p.files j;
      };
  console = console;
  pages = λ i. blanks;
  esp0 = 0;
}

abbrev fault : IntRegs
fault = record user_regs { int_num = 14 }

idt_handle_interrupt_exception_example :
    (action : Action) × (k' : Kernel) × (regs' : IntRegs) × (idt_handle_interrupt
        (λ line k. some k)
        (λ r k. some (r, k))
        faulting
        1
        fault
      ≡ some (action, k', regs'))
    × Excepted faulting k' 1 (λ s. if s == 1 then 0x8048200 else 0) 1 fault regs' action
    × OnlyProcess faulting k' 1
idt_handle_interrupt_exception_example =
    idt_handle_interrupt_exception (λ line k. some k) (λ r k. some (r, k)) faulting 1 fault
      (λ s. if s == 1 then 0x8048200 else 0) (omega arith) refl refl (omega arith) (omega arith)
      refl

abbrev looks : Looks
looks = record { pending = false; counter = 0; kbd = []; rtc = [] }

page : InUserPage 0x8000010 100
page = record { from = omega arith; to = omega arith }

-- Process 1 without pending signals, and its registers for the system call read.
abbrev settled_kernel : Kernel
settled_kernel = record faulting {
  table = λ i. let p = faulting.table i in record p { signals = [] };
}

abbrev reading : IntRegs
reading = record user_regs { int_num = 0x80; eax = 3; ebx = 2; ecx = 0x8000010; edx = 100 }

abbrev world : World
world = record { fs = image; process_data = 0x400000; looks = looks }

idt_handle_interrupt-read_example :
    (k' : Kernel) × (idt_handle_interrupt
        (λ line k. some k)
        (syscall_interrupt world 1)
        settled_kernel
        1
        reading
      ≡ some (nothing, k', record reading { eax = min 100 (left image open_file) }))
    × Advanced image settled_kernel k' 1 2 0x8000010 (min 100 (left image open_file))
idt_handle_interrupt-read_example =
    idt_handle_interrupt-read (λ line k. some k) world settled_kernel 1 0 2 0x8000010 100 reading
      refl refl refl refl refl refl refl refl (omega arith) refl refl open_file-IsOpenFile
      (omega arith) (omega arith) page

-- The key `a`, and a movement of the mouse.
abbrev events : List Event
events = key 30 ∷ mouse (record { flags = 8; dx = 3; dy = 250 }) ∷ []

ps2_handle_irq-waiting_example :
    ps2_handle_irq 1 (record { kernel = faulting; modifiers = 0; reads = waiting events })
    ≡ drained (handle_events 1 faulting 0 events)
ps2_handle_irq-waiting_example = ps2_handle_irq-waiting 1 faulting 0 events

-- Addresses of the thunks, one line apart.
abbrev thunks : Thunk → ℕ
thunks (exc i) = 0x400000 + i % 32 * 16
thunks (irq i) = 0x401000 + i % 16 * 16
thunks syscall = 0x402000
thunks unknown = 0x402010

thunks_bound : (t : Thunk) → thunks t < 2 ^ 32
thunks_bound (exc i) = ground arith
thunks_bound (irq i) = ground arith
thunks_bound syscall = omega arith
thunks_bound unknown = omega arith

-- Before idt_init the table is zero.
abbrev no_gate : Gate
no_gate = record {
  offset_15_00 = 0;
  seg_selector = 0;
  reserved4 = 0;
  reserved3 = 0;
  reserved2 = 0;
  reserved1 = 0;
  size = 0;
  reserved0 = 0;
  dpl = 0;
  present = 0;
  offset_31_16 = 0;
}

idt_init-IsGate_example : IsGate 0 0x401010 (idt_init thunks (λ i. no_gate) 0x21)
idt_init-IsGate_example = idt_init-IsGate thunks (λ i. no_gate) 0x21 thunks_bound (omega arith)
