-- ===== src/Syscalls/Keeping.antt =====
-- System calls that keep the numbers and the parents of the processes: reads, writes and vidmap.
use loli_os.Prelude.{
  ℕ, ◌≡◌, refl, subst, ◌∙◌, inl, inr, true, Option, none, some, arith, ◌==◌, if◌then◌else◌,
  Option-cases, ℤ, pos, minus_one, if_holds,
}
use loli_os.Memory.Bytes.{Mem, store}
use loli_os.FileSystem.{Image}
use loli_os.File.{get_file_obj}
use loli_os.File.Transfer.{
  Looks, Transfer, call_read, call_write, after_transfer, file_read, file_write,
}
use loli_os.Terminal.Console.{Console, terminal_update_vidmap, ◌>>=◌}
use loli_os.Process.Context.{Kernel}
use loli_os.Process.Ids.{SameTable, SameTable-update, Healthy-SameTable}
use loli_os.Process.Execution.Survivors.{Runs, HaltedRuns}
use loli_os.Process.Calls.{vidmap, map_vidmap}
use loli_os.Memory.{is_user_writable}
use loli_os.Memory.Words.{word_bytes}
use loli_os.Paging.{vidmap_page_start}
use loli_os.Syscalls.{Outcome, returned, started, ended}

-- The process that executes after a system call holds its own entry of a healthy table.
abbrev pub OutcomeRuns : ℕ → Outcome → Type 0
OutcomeRuns curr (returned value k regs) = Runs k curr
OutcomeRuns curr (started i k) = Runs k i
OutcomeRuns curr (ended h) = HaltedRuns h

pub Runs-SameTable :
    (k k' : Kernel) (curr : ℕ) → Runs k curr → SameTable k.table k'.table → Runs k' curr
Runs-SameTable k k' curr r s = record {
  healthy = Healthy-SameTable k.table k'.table r.healthy s;
  in_table = r.in_table;
  pid = (s curr).0 ∙ r.pid;
}

-- A call that returns and keeps the numbers in the table.
abbrev pub Keeps : Kernel → Option (ℤ × Kernel) → Type 0
Keeps k o = (value : ℤ) (k' : Kernel) → o ≡ some (value, k') → SameTable k.table k'.table

pair_inj :
    {a b : ℤ} {k l : Kernel} → ◌≡◌ {A = Option (ℤ × Kernel)} (some (a, k)) (some (b, l)) → k ≡ l
pair_inj e = cc

pub some-Keeps :
    (k k' : Kernel) (value : ℤ) → SameTable k.table k'.table → Keeps k (some (value, k'))
some-Keeps k k' value s v q e = subst (λ l. SameTable k.table l.table) (pair_inj e) s

after_transfer-Keeps :
    (k : Kernel) (curr n : ℕ) (o : Option Transfer)
    → Keeps k (do r ← o; some (after_transfer k curr n r))
after_transfer-Keeps k curr n none v q e = ground (arith, e)
after_transfer-Keeps k curr n (some r) v q e =
    some-Keeps k (after_transfer k curr n r).1 r.value
      (SameTable-update k.table curr
        (record (k.table curr) { files = λ j. if n == j then r.file else (k.table curr).files j })
        (refl, refl))
      v q e

pub file_read-Keeps :
    (fs : Image) (looks : Looks) (k : Kernel) (curr i : ℕ) (fd : ℤ) (buf : ℕ) (nbytes : ℤ)
    → Keeps k (file_read fs looks k curr i fd buf nbytes)
unfolding file_read
file_read-Keeps fs looks k curr i fd buf nbytes =
    elim (Option-cases (get_file_obj (k.table curr).files fd)) [
      | inl closed ↦ rw (file_read, closed) (some-Keeps k k minus_one (λ j. (refl, refl)))
      | inr (n, at) ↦
          rw (file_read, at)
            (after_transfer-Keeps k curr n (
              call_read fs looks k.console ((k.table curr).files n).ops_table
                ((k.table curr).files n) (k.pages curr) i buf nbytes))
    ]

pub file_write-Keeps :
    (k : Kernel) (curr i : ℕ) (fd : ℤ) (buf : ℕ) (nbytes : ℤ)
    → Keeps k (file_write k curr i fd buf nbytes)
unfolding file_write
file_write-Keeps k curr i fd buf nbytes =
    elim (Option-cases (get_file_obj (k.table curr).files fd)) [
      | inl closed ↦ rw (file_write, closed) (some-Keeps k k minus_one (λ j. (refl, refl)))
      | inr (n, at) ↦
          let f = (k.table curr).files n in
          rw (file_write, at)
            (after_transfer-Keeps k curr n
              (call_write k.console f.ops_table f (k.pages curr) i buf nbytes))
    ]

map_vidmap-Keeps :
    (k : Kernel) (curr : ℕ) (page : Mem) (o : Option Console)
    → Keeps k (do
      console ← o
      let p = k.table curr
      some (
        pos 0,
        record k {
          console = console;
          table = λ j. if curr == j then record p { vidmap = true } else k.table j;
          pages = λ j. if curr == j then page else k.pages j;
        },
      ))
map_vidmap-Keeps k curr page none v q e = ground (arith, e)
map_vidmap-Keeps k curr page (some console) v q e =
    subst (λ l. SameTable k.table l.table) (pair_inj e)
      (SameTable-update k.table curr (record (k.table curr) { vidmap = true }) (refl, refl))

pub vidmap-Keeps : (k : Kernel) (curr screen_start : ℕ) → Keeps k (vidmap k curr screen_start)
unfolding vidmap
vidmap-Keeps k curr screen_start =
    let p = k.table curr in
    if_holds (Keeps k) (is_user_writable screen_start (pos 4)) (map_vidmap k curr screen_start)
      (some (minus_one, k))
      (map_vidmap-Keeps k curr (store (k.pages curr) screen_start (word_bytes vidmap_page_start))
        (terminal_update_vidmap k.console p.terminal true))
      (some-Keeps k k minus_one (λ j. (refl, refl)))

abbrev pub Survives : ℕ → Option Outcome → Type 0
Survives curr o = (x : Outcome) → o ≡ some x → OutcomeRuns curr x
