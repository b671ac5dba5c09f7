-- ===== src/Rtc.antt =====
-- The real-time clock of student-distrib/rtc.c: the frequency, and the file operations of its virtual
-- device. The counter that a read sees each time that it looks, with whether a signal is pending, is
-- an argument; the registers A and B that the ports reach are values.
pub mod Ticks
use loli_os.Prelude.{
  [], ℕ, ◌+◌, ◌*◌, ◌/◌, ◌%◌, ◌^◌, bit_and, bit_or, Bool, ◌||◌, Option, none, some, List, ◌∷◌, leb,
  ◌==◌, if◌then◌else◌, ℤ, pos, negsuc, ltb_ℤ, minus_one, add_u32, to_u32, to_i32,
}
use loli_os.FileObj.{FileObj}
use loli_os.Memory.{copy_from_user}
use loli_os.Memory.Words.{word_of}
use loli_os.Memory.Bytes.{Mem}

-- MAX_RTC_FREQ and RTC_A_RS_NONE.
abbrev pub max_rtc_freq : ℕ
max_rtc_freq = 1024

abbrev pub rs_none : ℕ
rs_none = 0

-- rtc_freq_to_rs.
unfoldable pub freq_to_rs : ℤ → ℕ
freq_to_rs (negsuc n) = rs_none
freq_to_rs (pos f) =
    if f == 8192 || f == 4096 || f == 2048
    then rs_none
    else if f == 1024
    then 6
    else if f == 512
    then 7
    else if f == 256
    then 8
    else if f == 128
    then 9
    else if f == 64
    then 10
    else if f == 32
    then 11
    else if f == 16
    then 12
    else if f == 8
    then 13
    else if f == 4
    then 14
    else if f == 2
    then 15
    else rs_none

-- rtc_set_frequency, on the contents of register A.
unfoldable pub set_frequency : ℕ → ℤ → ℤ × ℕ
unfolding freq_to_rs
set_frequency reg_a freq =
    let rs = freq_to_rs freq in
    if rs == rs_none then (minus_one, reg_a) else (pos 0, bit_or (bit_and reg_a 240) rs)

-- rtc_open.
unfoldable pub open_rtc : FileObj → ℤ × FileObj
open_rtc file = (pos 0, record file { offset = 2 })

-- The loop of rtc_read: what it returns, or `none` while it waits.
unfoldable pub wait_ticks : ℕ → List (ℕ × Bool) → Option ℤ
wait_ticks target [] = none
wait_ticks target ((counter, pending) ∷ later) =
    let rest = wait_ticks target later in
    if leb target counter then some (pos 0) else if pending then some minus_one else rest

-- `MAX_RTC_FREQ / file->offset`, and the counter at which the read returns.
abbrev pub max_ticks : FileObj → ℕ
max_ticks file = max_rtc_freq / file.offset

unfoldable pub target_counter : FileObj → ℕ → ℕ
target_counter file counter = (counter / max_ticks file + 1) * max_ticks file % 2 ^ 32

-- rtc_read.
unfoldable pub read_rtc : FileObj → ℕ → Bool → List (ℕ × Bool) → Option ℤ
unfolding target_counter wait_ticks
read_rtc file counter pending later =
    wait_ticks (target_counter file counter) ((counter, pending) ∷ later)

-- The end of rtc_write, once the frequency has been read.
accept : FileObj → ℤ → ℤ × FileObj
unfolding freq_to_rs
accept file freq =
    if freq_to_rs freq == rs_none
    then (minus_one, file)
    else (pos 0, record file { offset = to_u32 freq })

-- rtc_write.
unfoldable pub write_rtc : Mem → FileObj → ℕ → ℤ → ℤ × FileObj
unfolding copy_from_user accept
write_rtc m file buf nbytes =
    if ltb_ℤ nbytes (pos 4) || ltb_ℤ (pos 4) nbytes
    then (minus_one, file)
    else elim (copy_from_user m buf (pos 4)) [
      | none ↦ (minus_one, file)
      | some bs ↦ accept file (to_i32 (word_of bs))
    ]

-- rtc_close.
abbrev pub close_rtc : ℤ
close_rtc = pos 0

-- The counter after rtc_handle_irq.
unfoldable pub next_counter : ℕ → ℕ
next_counter counter = add_u32 counter 1
