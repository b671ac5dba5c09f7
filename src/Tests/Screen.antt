-- ===== src/Tests/Screen.antt =====
-- The terminals, at concrete inputs.
use loli_os.Prelude.{[], ◌-◌, ◌≡◌, refl, Bool, false, some, List, ◌∷◌, arith, pos, negsuc}
use loli_os.Memory.Bytes.{bytes, store}
use loli_os.Terminal.{putc_impl, space, KbdInputBuf}
use loli_os.Terminal.Input.{Typing, handle_char_input-Typing}
use loli_os.Terminal.Overrun.{Within, putc_impl-Within, backspace_overrun}
use loli_os.Terminal.Reads.{wait_kbd_input, take_input, StdinResult}
use loli_os.Terminal.Reads.Lines.{take_input_stale, WaitEnd, wait_kbd_input-WaitEnd}
use loli_os.Terminal.Pages.{show_char}
use loli_os.Terminal.Screen.{Shows, putc_impl-Shows}
use loli_os.Terminal.Switch.{Displays, set_display_terminal-Displays}
use loli_os.Tests.Data.{
  letters, blanks, kbd, terminal, console, console-IsShown, corner, corner-Shows, corner-OnScreen,
  top-LeavesTop,
}

putc_impl-Shows_example :
    Shows
      (putc_impl blanks (terminal 0 79 79 24) 97).0
      (putc_impl blanks (terminal 0 79 79 24) 97).1
      (show_char corner 97)
putc_impl-Shows_example =
    putc_impl-Shows blanks (terminal 0 79 79 24) corner 97 (omega arith) corner-Shows
      (λ e. absurd (omega (arith, e)))

putc_impl-Within_example :
    Within (terminal 0 79 79 24) letters (putc_impl letters (terminal 0 79 79 24) 97).0
putc_impl-Within_example =
    putc_impl-Within letters (terminal 0 79 79 24) 97 (omega arith) corner-OnScreen
      (λ e. absurd (omega (arith, e.is_backspace)))

backspace_overrun_example :
    ((putc_impl letters (terminal 0 80 0 0) 8).1.cursor.screen_y ≡ negsuc 0)
    × ((putc_impl letters (terminal 0 80 0 0) 8).0 (0xB8000 - 2) ≡ space)
backspace_overrun_example =
    backspace_overrun letters (terminal 0 80 0 0) 8 (omega arith) (omega arith) top-LeavesTop

set_display_terminal-Displays_example : Displays console 0 2
set_display_terminal-Displays_example =
    set_display_terminal-Displays console 0 2 0 console-IsShown (omega arith) (omega arith)

handle_char_input-Typing_example : Typing console 0 98
handle_char_input-Typing_example =
    handle_char_input-Typing console 0 98 refl (omega arith) (omega arith)

take_input_stale_example : (take_input kbd 1).buf 2 ≡ kbd.buf 2
take_input_stale_example =
    take_input_stale kbd 1 2 (omega arith) (omega arith) (omega arith) (omega arith)

abbrev looks : List (KbdInputBuf × Bool)
looks = (record kbd { count = 2 }, false) ∷ (kbd, false) ∷ []

waited : wait_kbd_input 100 looks ≡ some (pos 5, kbd)
unfolding wait_kbd_input
waited = refl

wait_kbd_input-WaitEnd_example : WaitEnd 100 (pos 5) kbd
wait_kbd_input-WaitEnd_example = wait_kbd_input-WaitEnd 100 looks (pos 5) kbd waited

abbrev line_read : StdinResult
line_read = record {
  value = pos 5;
  mem = store blanks 0x8000010 (bytes kbd.buf 0 5);
  input = take_input kbd 5;
}
