-- ===== src/Terminal/Switch.antt =====
-- Switching the displayed terminal, in student-distrib/terminal.c, and what each terminal shows.
use loli_os.Prelude.{
  ℕ, ◌+◌, ◌-◌, ◌*◌, ◌/◌, ◌%◌, ◌<◌, ◌≡◌, refl, sym, ap, ap₂, subst, ◌∙◌, ◌≢◌, inl, inr, true, false,
  ◌&&◌, ◌||◌, some, arith, ℕ_discrete, ltb, leb, ◌==◌, if◌then◌else◌, Bool-cases, pos, ltb_ℤ,
}
use loli_os.Memory.Bytes.{Mem}
use loli_os.MemOps.{memcpy}
use loli_os.MemOps.Copy.{memcpy-Copied}
use loli_os.Paging.{terminal_page_start}
use loli_os.Terminal.{Terminal, num_terminals, video_mem_size, vga_memory}
use loli_os.Terminal.Console.{
  Console, get_terminal, cursor_position, update_cursor, swap_mem, swap_states, swap_buffer,
  refresh_vidmap, switch_display, set_display_terminal,
}

-- The backing page of terminal i.
abbrev pub backing_page : ℕ → ℕ
backing_page i = terminal_page_start + 4096 * i

-- Terminal d is displayed: it draws in the VGA memory, and the others in their backing pages.
pub record IsShown (s : Console) (d : ℕ) : Type 0 where
  pub display : s.display_terminal ≡ pos d
  pub display_in : d < num_terminals
  pub backing : (i : ℕ) → i < num_terminals → (s.states i).backing_mem ≡ backing_page i
  pub active : (s.states d).video_mem ≡ vga_memory
  pub hidden : (i : ℕ) → i < num_terminals → i ≢ d → (s.states i).video_mem ≡ backing_page i

-- The k-th byte of what terminal i shows.
abbrev pub shown : Console → ℕ → ℕ → ℕ
shown s i k = s.mem ((s.states i).video_mem + k)

module _ (m : Mem) (f : ℕ → Terminal) (old new : ℕ) (ho : old < num_terminals)
    (hn : new < num_terminals) (ne : old ≢ new) (bo : (f old).backing_mem ≡ backing_page old)
    (bn : (f new).backing_mem ≡ backing_page new) where
  swap_mem_lem :
      (p : ℕ)
      → swap_mem m (f old) (f new) p ≡ (
          if leb vga_memory p && ltb p (vga_memory + video_mem_size)
          then m (backing_page new + (p - vga_memory))
          else if leb (backing_page old) p && ltb p (backing_page old + video_mem_size)
          then m (vga_memory + (p - backing_page old))
          else m p)
  unfolding swap_mem
  swap_mem_lem p =
      let saved = memcpy m (backing_page old) vga_memory video_mem_size in
      let first =
        memcpy-Copied m (backing_page old) vga_memory video_mem_size (omega arith) (omega arith)
          (omega arith) in
      let second =
        memcpy-Copied saved vga_memory (backing_page new) video_mem_size (omega arith) (omega arith)
          (omega arith) in
      rw (bo, bn) (ground (arith, second p, first p, first (backing_page new + (p - vga_memory))))

  swap_states_video :
      (j : ℕ)
      → (swap_states f old new j).video_mem
        ≡ (if j == new then vga_memory else if j == old then backing_page old else (f j).video_mem)
  unfolding swap_states
  swap_states_video j = ground (arith, bo)

  swap_states_backing : (j : ℕ) → (swap_states f old new j).backing_mem ≡ (f j).backing_mem
  unfolding swap_states
  swap_states_backing j = ground (arith, bo)

refresh_vidmap_same :
    (s : Console) (old new exec : ℕ)
    → ((refresh_vidmap s old new exec).mem ≡ s.mem)
      × ((refresh_vidmap s old new exec).states ≡ s.states)
      × ((refresh_vidmap s old new exec).display_terminal ≡ s.display_terminal)
unfolding refresh_vidmap
refresh_vidmap_same s old new exec =
    elim (Bool-cases ((s.states exec).vidmap && (old == exec || new == exec))) [
      | inl e ↦ rw e (refl, refl, refl)
      | inr e ↦ rw e (refl, refl, refl)
    ]

-- The console once terminals d and i have changed places, and the cursor follows.
swapped : Console → ℕ → ℕ → ℕ → ℕ → Console
swapped s d i lo hi = record s {
  mem = swap_mem s.mem (s.states d) (s.states i);
  states = swap_states s.states d i;
  display_terminal = pos i;
  cursor_lo = lo;
  cursor_hi = hi;
}

switch_display_result :
    (s : Console) (d i e : ℕ)
    → IsShown s d
    → i < num_terminals
    → e < num_terminals
    → (lo : ℕ) × (hi : ℕ) × (switch_display (pos e) (pos i) i s
        ≡ some (refresh_vidmap (swapped s d i lo hi) d i e))
unfolding switch_display get_terminal swap_buffer update_cursor swapped
switch_display_result s d i e v hi he =
    let display = v.display in
    let active : ((s.states d).video_mem == vga_memory) ≡ true = ground (arith, v.active) in
    let in_d : ltb d num_terminals ≡ true = ground (arith, v.display_in) in
    let in_i : ltb i num_terminals ≡ true = ground arith in
    let in_e : ltb e num_terminals ≡ true = ground arith in
    let same : (i == i) ≡ true = ground arith in
    let p = cursor_position (swap_states s.states d i i) in
    (p % 256, p / 256 % 256, rw (display, in_d, active, in_i, same, in_e))

swapped-IsShown :
    (s : Console) (d i lo hi : ℕ)
    → IsShown s d
    → i < num_terminals
    → d ≢ i
    → IsShown (swapped s d i lo hi) i
unfolding swapped
swapped-IsShown s d i lo hi v hi' ne =
    let bd = v.backing d v.display_in in
    let bi = v.backing i hi' in
    let video = swap_states_video s.mem s.states d i v.display_in hi' ne bd bi in
    let backing = swap_states_backing s.mem s.states d i v.display_in hi' ne bd bi in
    record {
      display = refl;
      display_in = hi';
      backing = λ j hj. backing j ∙ v.backing j hj;
      active = ground (arith, video i);
      hidden = λ j hj nj. ground (arith, video j, v.hidden j hj);
    }

-- The bytes that terminal j shows move with it.
swapped-shown :
    (s : Console) (d i lo hi j k : ℕ)
    → IsShown s d
    → i < num_terminals
    → d ≢ i
    → j < num_terminals
    → k < video_mem_size
    → shown (swapped s d i lo hi) j k ≡ shown s j k
unfolding swapped
swapped-shown s d i lo hi j k v hi' ne hj hk =
    let bd = v.backing d v.display_in in
    let bi = v.backing i hi' in
    let video = swap_states_video s.mem s.states d i v.display_in hi' ne bd bi j in
    let mem = swap_mem_lem s.mem s.states d i v.display_in hi' ne bd bi in
    let swap : Console → Mem = λ c. swap_mem c.mem (c.states d) (c.states i) in
    elim (ℕ_discrete j i) [
      | yes e ↦
          let to : (swap_states s.states d i j).video_mem ≡ vga_memory = ground (arith, video) in
          let from : (s.states j).video_mem ≡ backing_page i =
            ap (λ n. (s.states n).video_mem) e ∙ v.hidden i hi' (λ h. ne (sym h)) in
          let moved : swap s (vga_memory + k) ≡ s.mem (backing_page i + k) =
            ground (arith, mem (vga_memory + k)) in
          ap (λ a. swap s (a + k)) to ∙ moved ∙ sym (ap (λ a. s.mem (a + k)) from)
      | no nj ↦ elim (ℕ_discrete j d) [
        | yes e ↦
            let to : (swap_states s.states d i j).video_mem ≡ backing_page d =
              ground (arith, video) in
            let from : (s.states j).video_mem ≡ vga_memory =
              ap (λ n. (s.states n).video_mem) e ∙ v.active in
            let moved : swap s (backing_page d + k) ≡ s.mem (vga_memory + k) =
              ground (arith, mem (backing_page d + k), v.display_in) in
            ap (λ a. swap s (a + k)) to ∙ moved ∙ sym (ap (λ a. s.mem (a + k)) from)
        | no nd ↦
            let from : (s.states j).video_mem ≡ backing_page j = v.hidden j hj nd in
            let to : (swap_states s.states d i j).video_mem ≡ backing_page j =
              ground (arith, video) in
            let moved : swap s (backing_page j + k) ≡ s.mem (backing_page j + k) =
              ground (arith, mem (backing_page j + k), v.display_in) in
            ap (λ a. swap s (a + k)) to ∙ moved ∙ sym (ap (λ a. s.mem (a + k)) from)
      ]
    ]

-- What terminal j shows depends on the memory and the terminals alone.
shown_same :
    (s r : Console) (j k : ℕ) → s.mem ≡ r.mem → s.states ≡ r.states → shown s j k ≡ shown r j k
shown_same s r j k mem states = ap₂ (λ m f. m ((f j).video_mem + k)) mem states

-- What set_display_terminal has done: terminal i is displayed, and every terminal, displayed or
-- not, shows the bytes that it showed.
pub record Displays (s : Console) (e i : ℕ) : Type 0 where
  pub after : Console
  pub result : set_display_terminal (pos e) (pos i) s ≡ some after
  pub is_shown : IsShown after i
  pub kept : (j k : ℕ) → j < num_terminals → k < video_mem_size → shown after j k ≡ shown s j k

-- From a state in which terminal d is displayed and the others draw in their backing pages,
-- set_display_terminal succeeds for each of the three terminals, leaves such a state with the new
-- terminal displayed, and every terminal shows the same bytes as before.
pub set_display_terminal-Displays :
    (s : Console) (d i e : ℕ) → IsShown s d → i < num_terminals → e < num_terminals → Displays s e i
unfolding set_display_terminal
set_display_terminal-Displays s d i e v hi he = elim (ℕ_discrete d i) [
  | yes same ↦
      let in_i : ltb i num_terminals ≡ true = ground arith in
      let shows : (ltb_ℤ (pos i) s.display_terminal || ltb_ℤ s.display_terminal (pos i)) ≡ false =
        ground (arith, v.display) in
      record {
        after = s;
        result = rw in_i (rw shows);
        is_shown = subst (IsShown s) same v;
        kept = λ j k hj hk. refl;
      }
  | no ne ↦
      let (lo, hi', done) = switch_display_result s d i e v hi he in
      let in_i : ltb i num_terminals ≡ true = ground arith in
      let other : (ltb_ℤ (pos i) s.display_terminal || ltb_ℤ s.display_terminal (pos i)) ≡ true =
        ground (arith, v.display) in
      let q = swapped s d i lo hi' in
      let (mem, states, display) = refresh_vidmap_same q d i e in
      let r = swapped-IsShown s d i lo hi' v hi ne in
      record {
        after = refresh_vidmap q d i e;
        result = rw in_i (rw (other, done));
        is_shown = record {
          display = display ∙ r.display;
          display_in = r.display_in;
          backing = λ j hj. rw states (r.backing j hj);
          active = rw states r.active;
          hidden = λ j hj nj. rw states (r.hidden j hj nj);
        };
        kept = λ j k hj hk.
            shown_same (refresh_vidmap q d i e) q j k mem states
            ∙ swapped-shown s d i lo hi' j k v hi ne hj hk;
      }
]
