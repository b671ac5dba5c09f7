-- ===== src/Keyboard/Layout.antt =====
-- What caps lock does to the key maps of student-distrib/keyboard.c.
use loli_os.Prelude.{
  all_below, all_below_sound, ℕ, ◌+◌, ◌-◌, ◌≤◌, ◌≡◌, refl, sym, ap, ◌∙◌, ◌⊎◌, inl, inr, Bool, true,
  ◌&&◌, arith, dec_lt, leb, ◌==◌, if◌then◌else◌, ==_iff,
}
use loli_os.Keyboard.{keycode_to_char, num_keys, get_modifiers, kmod_caps}

-- A letter in the other case.
abbrev pub toggle_case : ℕ → ℕ
toggle_case c = if leb 97 c && leb c 122 then c - 32 else if leb 65 c && leb c 90 then c + 32 else c

caps_ok : ℕ → ℕ → Bool
unfolding keycode_to_char get_modifiers
caps_ok m k = keycode_to_char (m + kmod_caps) k == toggle_case (keycode_to_char m k)

-- No modifier but shift keys: none, the left one, the right one or both.
abbrev pub IsShiftState : ℕ → Type 0
IsShiftState m = (m ≡ 0) ⊎ (m ≡ 4) ⊎ (m ≡ 8) ⊎ (m ≡ 12)

caps_ok_all : (m : ℕ) → IsShiftState m → all_below num_keys (caps_ok m) ≡ true
unfolding caps_ok
caps_ok_all m (inl e) = rw e refl
caps_ok_all m (inr (inl e)) = rw e refl
caps_ok_all m (inr (inr (inl e))) = rw e refl
caps_ok_all m (inr (inr (inr e))) = rw e refl

out_of_range : (m k : ℕ) → num_keys ≤ k → keycode_to_char m k ≡ 0
unfolding keycode_to_char
out_of_range m k h = let out : leb num_keys k ≡ true = ground (arith, h) in rw out refl

-- With caps lock on, every key gives what it gives without it, with letters in the other case,
-- whichever shift keys are held and no other modifier.
pub keycode_to_char-toggle_case :
    (m k : ℕ)
    → IsShiftState m
    → keycode_to_char (m + kmod_caps) k ≡ toggle_case (keycode_to_char m k)
unfolding caps_ok
keycode_to_char-toggle_case m k h = elim (dec_lt k num_keys) [
  | yes small ↦
      let ok : caps_ok m k ≡ true =
        all_below_sound num_keys (caps_ok m) k (caps_ok_all m h) small in
      (==_iff (keycode_to_char (m + kmod_caps) k) (toggle_case (keycode_to_char m k))).0 ok
  | no large ↦
      let out : num_keys ≤ k = omega (arith, large) in
      out_of_range (m + kmod_caps) k out ∙ sym (ap toggle_case (out_of_range m k out))
]
