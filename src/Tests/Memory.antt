-- ===== src/Tests/Memory.antt =====
-- The memory routines and the tables of pages, at concrete inputs.
use loli_os.Prelude.{
  ◌+◌, ◌*◌, ◌^◌, ◌≡◌, refl, ◌↔◌, inl, true, false, Option, none, some, arith, pos,
}
use loli_os.Memory.{is_user_readable, copy_to_user, user_page_start}
use loli_os.Memory.Access.{InUserPage, is_user_readable_iff}
use loli_os.Memory.Bytes.{bytes, store}
use loli_os.MemOps.{memcpy}
use loli_os.MemOps.Copy.{Copied, memcpy-Copied}
use loli_os.Paging.{Paging, enable, update_process_page}
use loli_os.Paging.Translate.{translate, user_page_lem, kernel_pages_lem}
use loli_os.Tests.Data.{letters, blanks, tables, tables-Placed}

is_user_readable_iff_example :
    (is_user_readable 0x8000010 (pos 16) ≡ true) ↔ InUserPage 0x8000010 16
is_user_readable_iff_example = is_user_readable_iff 0x8000010 16 (omega arith) (omega arith)

copied :
    copy_to_user blanks 0x8000010 letters (pos 3)
    ≡ some (store blanks 0x8000010 (bytes letters 0 3))
unfolding copy_to_user
copied = refl

memcpy-Copied_example : Copied letters 67 16 9 (memcpy letters 67 16 9)
memcpy-Copied_example =
    memcpy-Copied letters 67 16 9 (inl (omega arith)) (omega arith) (omega arith)

abbrev paging_of : Option Paging → Paging
paging_of none = tables
paging_of (some s) = s

abbrev started : Paging
started = paging_of (enable 4096 tables)

abbrev running : Paging
running = paging_of (update_process_page started (pos 2))

started_lem : enable 4096 tables ≡ some started
unfolding enable
started_lem = refl

running_lem : update_process_page started (pos 2) ≡ some running
unfolding update_process_page
running_lem = refl

user_page_lem_example :
    translate running (user_page_start + 5)
    ≡ some (record { phys = (8 + 4 * 2) * 2 ^ 20 + 5; user = true })
user_page_lem_example =
    user_page_lem tables started 4096 2 5 started_lem running_lem (omega arith) (omega arith)

kernel_pages_lem_example :
    translate running (0xB8 * 4096 + 5) ≡ some (record { phys = 0xB8 * 4096 + 5; user = false })
kernel_pages_lem_example =
    kernel_pages_lem tables started 4096 2 0xB8 5 tables-Placed started_lem running_lem
      (inl (inl refl)) (omega arith)
