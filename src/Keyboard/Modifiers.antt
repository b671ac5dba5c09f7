-- ===== src/Keyboard/Modifiers.antt =====
-- The modifier keys of student-distrib/keyboard.c, in each of the 128 states.
use loli_os.Prelude.{
  all_below, all_below_sound, ℕ, ◌+◌, ◌-◌, ◌<◌, bit_and, ◌≡◌, refl, ◌≢◌, ◌⊎◌, inl, inr, Bool, true,
  ◌&&◌, not, arith, ◌==◌, if◌then◌else◌,
}
use loli_os.Keyboard.{
  ktyp_none, keycode_to_modifier, process_packet, set_modifier_bit, toggle_modifier_bit,
  keycode_to_input,
}

-- Pressing and then releasing a modifier key, other than caps lock, from state m.
abbrev pub press_release : ℕ → ℕ → ℕ
press_release m keycode = (process_packet (process_packet m keycode).1 (keycode + 128)).1

released_ok : ℕ → ℕ → Bool
unfolding process_packet keycode_to_modifier set_modifier_bit toggle_modifier_bit
released_ok keycode m =
    let mask = keycode_to_modifier keycode in
    not (bit_and (process_packet m keycode).1 mask == 0)
    && press_release m keycode == bit_and m (127 - mask)

-- The modifier keys other than caps lock.
abbrev pub IsHeldKey : ℕ → Type 0
IsHeldKey k = (k ≡ 29) ⊎ (k ≡ 97) ⊎ (k ≡ 42) ⊎ (k ≡ 54) ⊎ (k ≡ 56) ⊎ (k ≡ 100)

released_ok_all : (k : ℕ) → IsHeldKey k → all_below 128 (released_ok k) ≡ true
unfolding released_ok
released_ok_all k (inl e) = rw e refl
released_ok_all k (inr (inl e)) = rw e refl
released_ok_all k (inr (inr (inl e))) = rw e refl
released_ok_all k (inr (inr (inr (inl e)))) = rw e refl
released_ok_all k (inr (inr (inr (inr (inl e))))) = rw e refl
released_ok_all k (inr (inr (inr (inr (inr e))))) = rw e refl

-- In each of the 128 states, a modifier key other than caps lock is held from its press to its
-- release, and no other modifier changes: after both, the state is the one before without that
-- key.
pub press_release_lem :
    (k m : ℕ)
    → IsHeldKey k
    → m < 128
    → (bit_and (process_packet m k).1 (keycode_to_modifier k) ≢ 0)
      × (press_release m k ≡ bit_and m (127 - keycode_to_modifier k))
unfolding released_ok
press_release_lem k m hk hm =
    let ok : released_ok k m ≡ true =
      all_below_sound 128 (released_ok k) m (released_ok_all k hk) hm in
    (λ e. ground (arith, ok, e), ground (arith, ok))

-- A packet gives input exactly if it says that a key is pressed which is no modifier, and then the
-- input of the key in the present state; a key that is no modifier leaves the modifiers as they are.
pub process_packet_lem :
    (m packet : ℕ)
    → ((process_packet m packet).0 ≡ (
        if keycode_to_modifier (bit_and packet 127) == 0 && bit_and packet 128 == 0
        then keycode_to_input m (bit_and packet 127)
        else ktyp_none))
      × ((process_packet m packet).1 ≡ (
          if keycode_to_modifier (bit_and packet 127) == 0 then m else (process_packet m packet).1))
unfolding process_packet
process_packet_lem m packet = (ground arith, ground arith)
