-- ===== src/Keyboard.antt =====
-- The keyboard driver of student-distrib/keyboard.c: the modifier keys and what a packet means.
pub mod Modifiers
pub mod Layout
use loli_os.Prelude.{
  [], ℕ, ◌+◌, ◌-◌, ◌^◌, bit_and, bit_or, bit_xor, Bool, not, List, ◌∷◌, leb, ◌==◌, if◌then◌else◌,
  get_or,
}

-- NUM_KEYS.
abbrev pub num_keys : ℕ
num_keys = 58

-- The key codes: KC_LCTRL, KC_RCTRL, KC_LSHIFT, KC_RSHIFT, KC_LALT, KC_RALT, KC_CAPS_LOCK, KC_C, KC_L,
-- KC_F1, KC_F2 and KC_F3 are the numbers in the functions below.

-- keycode_map.
abbrev pub keycode_map_neutral : List ℕ
keycode_map_neutral =
    0 ∷ 0 ∷ 49 ∷ 50 ∷ 51 ∷ 52 ∷ 53 ∷ 54 ∷ 55 ∷ 56 ∷ 57 ∷ 48 ∷ 45 ∷ 61 ∷ 8 ∷ 0 ∷ 113 ∷ 119 ∷ 101
    ∷ 114 ∷ 116 ∷ 121 ∷ 117 ∷ 105 ∷ 111 ∷ 112 ∷ 91 ∷ 93 ∷ 10 ∷ 0 ∷ 97 ∷ 115 ∷ 100 ∷ 102 ∷ 103 ∷ 104
    ∷ 106 ∷ 107 ∷ 108 ∷ 59 ∷ 39 ∷ 96 ∷ 0 ∷ 92 ∷ 122 ∷ 120 ∷ 99 ∷ 118 ∷ 98 ∷ 110 ∷ 109 ∷ 44 ∷ 46 ∷ 47
    ∷ 0 ∷ 42 ∷ 0 ∷ 32 ∷ []

abbrev pub keycode_map_shift : List ℕ
keycode_map_shift =
    0 ∷ 0 ∷ 33 ∷ 64 ∷ 35 ∷ 36 ∷ 37 ∷ 94 ∷ 38 ∷ 42 ∷ 40 ∷ 41 ∷ 95 ∷ 43 ∷ 8 ∷ 0 ∷ 81 ∷ 87 ∷ 69 ∷ 82
    ∷ 84 ∷ 89 ∷ 85 ∷ 73 ∷ 79 ∷ 80 ∷ 123 ∷ 125 ∷ 10 ∷ 0 ∷ 65 ∷ 83 ∷ 68 ∷ 70 ∷ 71 ∷ 72 ∷ 74 ∷ 75 ∷ 76
    ∷ 58 ∷ 34 ∷ 126 ∷ 0 ∷ 124 ∷ 90 ∷ 88 ∷ 67 ∷ 86 ∷ 66 ∷ 78 ∷ 77 ∷ 60 ∷ 62 ∷ 63 ∷ 0 ∷ 42 ∷ 0 ∷ 32
    ∷ []

abbrev pub keycode_map_caps : List ℕ
keycode_map_caps =
    0 ∷ 0 ∷ 49 ∷ 50 ∷ 51 ∷ 52 ∷ 53 ∷ 54 ∷ 55 ∷ 56 ∷ 57 ∷ 48 ∷ 45 ∷ 61 ∷ 8 ∷ 0 ∷ 81 ∷ 87 ∷ 69 ∷ 82
    ∷ 84 ∷ 89 ∷ 85 ∷ 73 ∷ 79 ∷ 80 ∷ 91 ∷ 93 ∷ 10 ∷ 0 ∷ 65 ∷ 83 ∷ 68 ∷ 70 ∷ 71 ∷ 72 ∷ 74 ∷ 75 ∷ 76
    ∷ 59 ∷ 39 ∷ 96 ∷ 0 ∷ 92 ∷ 90 ∷ 88 ∷ 67 ∷ 86 ∷ 66 ∷ 78 ∷ 77 ∷ 44 ∷ 46 ∷ 47 ∷ 0 ∷ 42 ∷ 0 ∷ 32 ∷ []

abbrev pub keycode_map_shift_caps : List ℕ
keycode_map_shift_caps =
    0 ∷ 0 ∷ 33 ∷ 64 ∷ 35 ∷ 36 ∷ 37 ∷ 94 ∷ 38 ∷ 42 ∷ 40 ∷ 41 ∷ 95 ∷ 43 ∷ 8 ∷ 0 ∷ 113 ∷ 119 ∷ 101
    ∷ 114 ∷ 116 ∷ 121 ∷ 117 ∷ 105 ∷ 111 ∷ 112 ∷ 123 ∷ 125 ∷ 10 ∷ 0 ∷ 97 ∷ 115 ∷ 100 ∷ 102 ∷ 103
    ∷ 104 ∷ 106 ∷ 107 ∷ 108 ∷ 58 ∷ 34 ∷ 126 ∷ 0 ∷ 124 ∷ 122 ∷ 120 ∷ 99 ∷ 118 ∷ 98 ∷ 110 ∷ 109 ∷ 60
    ∷ 62 ∷ 63 ∷ 0 ∷ 42 ∷ 0 ∷ 32 ∷ []

-- KMOD_LCTRL to KMOD_CAPS, and the masks of both sides.
abbrev pub kmod_ctrl : ℕ
kmod_ctrl = 3

abbrev pub kmod_shift : ℕ
kmod_shift = 12

abbrev pub kmod_alt : ℕ
kmod_alt = 48

abbrev pub kmod_caps : ℕ
kmod_caps = 64

-- set_modifier_bit and toggle_modifier_bit, on the modifiers.
unfoldable pub set_modifier_bit : ℕ → Bool → ℕ → ℕ
set_modifier_bit modifiers bit mask =
    if bit then bit_or modifiers mask else bit_and modifiers (2 ^ 32 - 1 - mask)

unfoldable pub toggle_modifier_bit : ℕ → ℕ → ℕ
toggle_modifier_bit modifiers mask = bit_xor modifiers mask

-- keycode_to_modifier.
unfoldable pub keycode_to_modifier : ℕ → ℕ
keycode_to_modifier keycode =
    if keycode == 29
    then 1
    else if keycode == 97
    then 2
    else if keycode == 42
    then 4
    else if keycode == 54
    then 8
    else if keycode == 56
    then 16
    else if keycode == 100
    then 32
    else if keycode == 58
    then kmod_caps
    else 0

-- One line of get_modifiers.
abbrev pub both_sides : ℕ → ℕ → ℕ
both_sides modifiers mask = if bit_and modifiers mask == 0 then modifiers else bit_or modifiers mask

-- get_modifiers.
unfoldable pub get_modifiers : ℕ → ℕ
get_modifiers modifiers =
    both_sides (both_sides (both_sides modifiers kmod_ctrl) kmod_shift) kmod_alt

-- `kbd_input_ctrl_t`, where the three terminals carry their number.
pub data Control : Type 0 where
  kctl_none kctl_clear kctl_interrupt : Control
  kctl_term : ℕ → Control

-- keycode_to_ctrl.
unfoldable pub keycode_to_ctrl : ℕ → ℕ → Control
unfolding get_modifiers
keycode_to_ctrl modifiers keycode =
    let held = bit_and (get_modifiers modifiers) (2 ^ 32 - 1 - kmod_caps) in
    if held == kmod_ctrl
    then if keycode == 38 then kctl_clear else if keycode == 46 then kctl_interrupt else kctl_none
    else if held == kmod_alt
    then if keycode == 59
      then kctl_term 0
      else if keycode == 60
      then kctl_term 1
      else if keycode == 61
      then kctl_term 2
      else kctl_none
    else kctl_none

-- keycode_to_char.
unfoldable pub keycode_to_char : ℕ → ℕ → ℕ
unfolding get_modifiers
keycode_to_char modifiers keycode =
    let held = get_modifiers modifiers in
    if leb num_keys keycode
    then 0
    else if held == 0
    then get_or keycode_map_neutral keycode 0
    else if held == kmod_shift
    then get_or keycode_map_shift keycode 0
    else if held == kmod_caps
    then get_or keycode_map_caps keycode 0
    else if held == kmod_caps + kmod_shift
    then get_or keycode_map_shift_caps keycode 0
    else 0

-- `kbd_input_t`.
pub data KbdInput : Type 0 where
  ktyp_none : KbdInput
  ktyp_char : ℕ → KbdInput
  ktyp_ctrl : Control → KbdInput

char_input : ℕ → KbdInput
char_input c = if c == 0 then ktyp_none else ktyp_char c

-- keycode_to_input.
unfoldable pub keycode_to_input : ℕ → ℕ → KbdInput
unfolding keycode_to_ctrl keycode_to_char char_input
keycode_to_input modifiers keycode = elim (keycode_to_ctrl modifiers keycode) [
  | kctl_none ↦ char_input (keycode_to_char modifiers keycode)
  | kctl_clear ↦ ktyp_ctrl kctl_clear
  | kctl_interrupt ↦ ktyp_ctrl kctl_interrupt
  | kctl_term i ↦ ktyp_ctrl (kctl_term i)
]

-- process_packet: the input that it returns, and the modifiers that it leaves. Bit 7 of the packet
-- says that the key is released.
unfoldable pub process_packet : ℕ → ℕ → KbdInput × ℕ
unfolding keycode_to_modifier set_modifier_bit toggle_modifier_bit keycode_to_input
process_packet modifiers packet =
    let pressed = bit_and packet 128 == 0 in
    let keycode = bit_and packet 127 in
    let modifier = keycode_to_modifier keycode in
    if not (modifier == 0)
    then if modifier == kmod_caps
      then (ktyp_none, if pressed then toggle_modifier_bit modifiers modifier else modifiers)
      else (ktyp_none, set_modifier_bit modifiers pressed modifier)
    else if pressed
    then (keycode_to_input modifiers keycode, modifiers)
    else (ktyp_none, modifiers)
