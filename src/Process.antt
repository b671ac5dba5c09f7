-- ===== src/Process.antt =====
-- The process table of student-distrib/process.c: finding, allocating and freeing entries, the choice
-- of the next process, and the clock. The saved stack pointers belong to the assembly that switches
-- stacks, and are not modelled.
pub mod Command
pub mod Context
pub mod Execution
pub mod Calls
pub mod Ids
pub mod Loader
pub mod Schedule
pub mod Table
use loli_os.Prelude.{
  ℕ, zero, suc, ◌+◌, ◌-◌, ◌*◌, ◌%◌, Bool, true, false, ◌&&◌, ◌||◌, not, Option, none, some, List,
  ltb, leb, ◌==◌, if◌then◌else◌, ℤ, pos, negsuc, ltb_ℤ, minus_one, sub_u32,
}
use loli_os.FileObj.{FileObj}
use loli_os.Signals.{Signal, raise, sig_alarm}

-- MAX_PROCESSES, MAX_RTC_FREQ and SIG_ALARM_PERIOD.
abbrev pub max_processes : ℕ
max_processes = 6

abbrev pub max_rtc_freq : ℕ
max_rtc_freq = 1024

abbrev pub sig_alarm_period : ℕ
sig_alarm_period = 10

-- PROCESS_RUN, PROCESS_SLEEP and PROCESS_SCHED.
pub data Status : Type 0 where
  process_run process_sleep process_sched : Status

abbrev pub is_sleep : Status → Bool
is_sleep process_sleep = true
is_sleep process_run = false
is_sleep process_sched = false

-- `pcb_t`.
pub record Pcb : Type 0 where
  pub pid : ℤ
  pub parent_pid : ℤ
  pub entry_point : ℕ
  pub terminal : ℤ
  pub status : Status
  pub vidmap : Bool
  pub last_alarm : ℕ
  pub signals : List Signal
  pub files : ℕ → FileObj
  pub args : List ℕ

-- `pcb->pid >= 0`.
abbrev pub is_nonneg : ℤ → Bool
is_nonneg (pos n) = true
is_nonneg (negsuc n) = false

abbrev pub is_valid : Pcb → Bool
is_valid p = is_nonneg p.pid

-- The entry of a process: NULL for the parent of a root process, and `none` for a failed assertion.
pub data Lookup : Type 0 where
  null : Lookup
  found : ℕ → Lookup

-- get_pcb_by_pid, as the index that it returns a pointer to.
unfoldable pub get_pcb_by_pid : (ℕ → Pcb) → ℤ → Option Lookup
get_pcb_by_pid table (negsuc n) = some null
get_pcb_by_pid table (pos pid) =
    if ltb pid max_processes && is_valid (table pid) then some (found pid) else none

-- The search of get_pcb_by_terminal, from index i on, over n more entries.
find_terminal : (ℕ → Pcb) → ℤ → ℕ → ℕ → Option ℕ
find_terminal table terminal i zero = none
find_terminal table terminal i (suc n) =
    let p = table i in
    let rest = find_terminal table terminal (i + 1) n in
    if is_valid p
      && not (ltb_ℤ p.terminal terminal || ltb_ℤ terminal p.terminal)
      && not (is_sleep p.status)
    then some i
    else rest

unfoldable pub get_pcb_by_terminal : (ℕ → Pcb) → ℤ → Option ℕ
unfolding find_terminal
get_pcb_by_terminal table terminal = find_terminal table terminal 0 max_processes

-- `pcb->pid >= 0 && pcb->status != PROCESS_SLEEP`.
abbrev pub can_run : Pcb → Bool
can_run p = is_valid p && not (is_sleep p.status)

-- The loop of get_next_pcb, from distance i on, over n more entries.
find_next : (ℕ → Pcb) → ℕ → ℕ → ℕ → ℕ
find_next table curr i zero = curr
find_next table curr i (suc n) =
    let pid = (curr + i) % max_processes in
    let rest = find_next table curr (i + 1) n in if can_run (table pid) then pid else rest

-- get_next_pcb, for the executing process `curr`.
unfoldable pub get_next_pcb : (ℕ → Pcb) → ℕ → ℕ
unfolding find_next
get_next_pcb table curr = find_next table curr 1 (max_processes - 1)

abbrev pub update : (ℕ → Pcb) → ℕ → Pcb → ℕ → Pcb
update table i p j = if i == j then p else table j

-- The loop of process_new_pcb, from index i on: the index that it fills and the table.
new_from : (ℕ → Pcb) → ℕ → ℕ → Option (ℕ × (ℕ → Pcb))
new_from table i zero = none
new_from table i (suc n) =
    let rest = new_from table (i + 1) n in
    let p = table i in
    if is_valid p then rest else some (i, update table i (record p { pid = pos i }))

-- process_new_pcb.
unfoldable pub new_pcb : (ℕ → Pcb) → Option (ℕ × (ℕ → Pcb))
unfolding new_from
new_pcb table = new_from table 0 max_processes

-- What process_halt_impl does to the entries of the halting process and of its parent.
unfoldable pub free_pcb : (ℕ → Pcb) → ℕ → ℕ → Pcb
free_pcb table i = let p = table i in update table i (record p { pid = minus_one })

unfoldable pub wake_parent : (ℕ → Pcb) → ℕ → ℕ → Pcb
wake_parent table i = let p = table i in update table i (record p { status = process_run })

-- The loop of process_init, from index i on.
init_from : (ℕ → Pcb) → ℕ → ℕ → ℕ → Pcb
init_from table i zero = table
init_from table i (suc n) =
    let p = table i in init_from (update table i (record p { pid = minus_one })) (i + 1) n

-- process_init.
unfoldable pub init : (ℕ → Pcb) → ℕ → Pcb
unfolding init_from
init table = init_from table 0 max_processes

-- One round of the loop of process_update_clock.
unfoldable pub tick : Pcb → ℕ → Pcb
unfolding raise
tick p counter =
    if is_valid p && leb (max_rtc_freq * sig_alarm_period) (sub_u32 counter p.last_alarm)
    then record p { last_alarm = counter; signals = raise p.signals sig_alarm }
    else p

-- process_update_clock: each round touches its own entry alone.
clock_from : (ℕ → Pcb) → ℕ → ℕ → ℕ → ℕ → Pcb
unfolding tick
clock_from table counter i zero = table
clock_from table counter i (suc n) =
    clock_from (update table i (tick (table i) counter)) counter (i + 1) n

unfoldable pub update_clock : (ℕ → Pcb) → ℕ → ℕ → Pcb
unfolding clock_from
update_clock table counter = clock_from table counter 0 max_processes
