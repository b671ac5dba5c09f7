-- ===== src/Terminal/Console.antt =====
-- The static state of terminal.c and the functions over it: which terminal is displayed, the swap of
-- video buffers, clearing, and the page that vidmap shows. `none` is a failed assertion, at which the
-- kernel stops. The terminal of the executing process, which get_executing_pcb gives, is an argument.
use loli_os.Prelude.{
  ℕ, zero, suc, ◌+◌, ◌-◌, ◌*◌, ◌/◌, ◌%◌, ◌^◌, Bool, true, ◌&&◌, ◌||◌, Option, none, some, ltb, ◌==◌,
  if◌then◌else◌, ℤ, pos, negsuc, pos_part, neg_part, ltb_ℤ,
}
use loli_os.Memory.Bytes.{Mem}
use loli_os.MemOps.{memcpy}
use loli_os.Paging.{Paging, update, update_vidmap_page, terminal_page_start}
use loli_os.Terminal.{
  Terminal, Cursor, num_terminals, num_cols, video_mem_size, vga_memory, putc_impl,
  vga_clear_region,
}

-- The memory, `terminal_states`, `display_terminal`, the two VGA cursor registers and the tables that
-- paging_update_vidmap_page changes.
pub record Console : Type 0 where
  pub mem : Mem
  pub states : ℕ → Terminal
  pub display_terminal : ℤ
  pub cursor_lo : ℕ
  pub cursor_hi : ℕ
  pub paging : Paging

infixl 5 ◌>>=◌
abbrev pub ◌>>=◌ {ℓ κ} : {A : Type ℓ} {B : Type κ} → Option A → (A → Option B) → Option B
none >>= f = none
some a >>= f = f a

-- get_terminal, as the index that it returns a pointer to.
unfoldable pub get_terminal : ℤ → Option ℕ
get_terminal (negsuc n) = none
get_terminal (pos i) = if ltb i num_terminals then some i else none

-- The terminal i with new contents.
abbrev pub set_state : Console → ℕ → Terminal → Console
set_state s i t = record s { states = update s.states i t }

-- `screen_y * NUM_COLS + screen_x` as a `uint16_t`.
abbrev pub cursor_position : Terminal → ℕ
cursor_position t =
    let x = t.cursor.screen_x in
    let y = t.cursor.screen_y in
    (pos_part y * num_cols + pos_part x + 2 ^ 32 - (neg_part y * num_cols + neg_part x)) % 2 ^ 16

-- terminal_update_cursor.
unfoldable pub update_cursor : Console → ℕ → Option Console
unfolding get_terminal
update_cursor s i = do
  d ← get_terminal s.display_terminal
  let p = cursor_position (s.states i)
  if i == d then some (record s { cursor_lo = p % 256; cursor_hi = p / 256 % 256 }) else some s

-- terminal_swap_buffer, once its assertion holds.
unfoldable pub swap_mem : Mem → Terminal → Terminal → Mem
swap_mem m old new =
    let saved = memcpy m old.backing_mem vga_memory video_mem_size in
    memcpy saved vga_memory new.backing_mem video_mem_size

unfoldable pub swap_states : (ℕ → Terminal) → ℕ → ℕ → ℕ → Terminal
swap_states f old new =
    let t = f old in
    let g = update f old (record t { video_mem = t.backing_mem }) in
    let u = g new in update g new (record u { video_mem = vga_memory })

unfoldable pub swap_buffer : Console → ℕ → ℕ → Option Console
unfolding swap_mem swap_states
swap_buffer s old new =
    if (s.states old).video_mem == vga_memory
    then some (record s {
      mem = swap_mem s.mem (s.states old) (s.states new);
      states = swap_states s.states old new;
    })
    else none

-- The end of set_display_terminal: the vidmap page follows the executing terminal's buffer.
unfoldable pub refresh_vidmap : Console → ℕ → ℕ → ℕ → Console
refresh_vidmap s old new exec =
    let t = s.states exec in
    if t.vidmap && (old == exec || new == exec)
    then record s { paging = update_vidmap_page s.paging t.video_mem true }
    else s

-- set_display_terminal where another terminal is displayed.
unfoldable pub switch_display : ℤ → ℤ → ℕ → Console → Option Console
unfolding swap_buffer update_cursor refresh_vidmap get_terminal
switch_display executing index new s = do
  old ← get_terminal s.display_terminal
  swapped ← swap_buffer (record s { display_terminal = index }) old new
  updated ← update_cursor swapped new
  exec ← get_terminal executing
  some (refresh_vidmap updated old new exec)

unfoldable pub set_display_terminal : ℤ → ℤ → Console → Option Console
unfolding switch_display get_terminal
set_display_terminal executing index s = do
  new ← get_terminal index
  if ltb_ℤ index s.display_terminal || ltb_ℤ s.display_terminal index
      then switch_display executing index new s
      else some s

-- terminal_putc_impl on terminal i.
unfoldable pub putc_at : Console → ℕ → ℕ → Console
unfolding putc_impl
putc_at s i c = let (m, t) = putc_impl s.mem (s.states i) c in set_state (record s { mem = m }) i t

-- terminal_putc.
unfoldable pub terminal_putc : Console → ℕ → Option Console
unfolding putc_at update_cursor get_terminal
terminal_putc s c = do i ← get_terminal s.display_terminal; update_cursor (putc_at s i c) i

-- terminal_clear_impl. The test before its update of the cursor is the one that the update makes.
unfoldable pub clear_impl : Console → ℕ → Option Console
unfolding update_cursor
clear_impl s i =
    let t = s.states i in
    let home : Cursor = record { logical_x = pos 0; screen_x = pos 0; screen_y = pos 0 } in
    let cleared =
      set_state (record s { mem = vga_clear_region s.mem t.video_mem (video_mem_size / 2) }) i
        (record t { cursor = home }) in
    update_cursor cleared i

-- terminal_clear and terminal_clear_input.
unfoldable pub terminal_clear : Console → Option Console
unfolding clear_impl get_terminal
terminal_clear s = do
  i ← get_terminal s.display_terminal
  s' ← clear_impl s i
  let t = s'.states i
  let k = t.kbd_input
  some (set_state s' i (record t { kbd_input = record k { count = 0 } }))

unfoldable pub terminal_clear_input : Console → ℤ → Option Console
unfolding get_terminal
terminal_clear_input s terminal = do
  i ← get_terminal terminal
  let t = s.states i
  let k = t.kbd_input
  let b = t.mouse_input
  some (
      set_state s i
        (record t { kbd_input = record k { count = 0 }; mouse_input = record b { count = 0 } }))

-- terminal_update_vidmap.
unfoldable pub terminal_update_vidmap : Console → ℤ → Bool → Option Console
unfolding get_terminal
terminal_update_vidmap s index present = do
  i ← get_terminal index
  let t = s.states i
  some (
      set_state (record s { paging = update_vidmap_page s.paging t.video_mem present }) i
        (record t { vidmap = present }))

-- The loop of terminal_init over the terminals, from terminal i on.
init_from : Mem → (ℕ → Terminal) → ℕ → ℕ → Mem × (ℕ → Terminal)
init_from m f i zero = (m, f)
init_from m f i (suc n) =
    let page = terminal_page_start + i * 4 * 1024 in
    let t = f i in
    init_from (vga_clear_region m page (video_mem_size / 2))
      (update f i (record t { backing_mem = page; video_mem = page })) (i + 1) n

-- terminal_init.
unfoldable pub terminal_init : Console → Console
unfolding init_from vga_clear_region
terminal_init s =
    let (m, f) = init_from s.mem s.states 0 num_terminals in
    let t = f 0 in
    record s {
      mem = m;
      states = update f 0 (record t { video_mem = vga_memory });
      display_terminal = pos 0;
    }
