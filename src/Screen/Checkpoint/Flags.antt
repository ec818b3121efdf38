-- ===== src/Screen/Checkpoint/Flags.antt =====
-- `checkpoint_flags` and `apply_checkpoint_flags`: twelve flags as the bits of a number.
use rill.Prelude.{
  ℕ, zero, suc, ◌+◌, ◌*◌, ◌/◌, ◌%◌, ◌^◌, ◌<◌, ◌≡◌, refl, ap, ◌∙◌, List, [], ◌∷◌, Bool, true, false,
  ◌==◌, if◌then◌else◌, length, arith,
}
use native.Mathlib.Nat.{pow-suc}
use rill.Screen.State.{Screen}

-- the number whose bits are the flags, the lowest one first
unfoldable pub bits : List Bool → ℕ
bits [] = 0
bits (b ∷ bs) = (if b then 1 else 0) + 2 * bits bs

-- `f & (1 << i) != 0`
unfoldable pub bit_at : ℕ → ℕ → Bool
bit_at zero f = f % 2 == 1
bit_at (suc i) f = bit_at i (f / 2)

-- in the order of their bits
abbrev flags_of : Screen → List Bool
flags_of s =
    s.pending_wrap ∷ s.autowrap ∷ s.cursor_visible ∷ s.in_alt ∷ s.application_cursor_keys
    ∷ s.application_keypad ∷ s.bracketed_paste ∷ s.mouse_x10 ∷ s.mouse_button ∷ s.mouse_any
    ∷ s.mouse_sgr ∷ s.focus_events ∷ []

unfoldable pub checkpoint_flags : Screen → ℕ
checkpoint_flags s = bits (flags_of s)

unfoldable pub apply_checkpoint_flags : Screen → ℕ → Screen
apply_checkpoint_flags s f = record s {
  pending_wrap = bit_at 0 f;
  autowrap = bit_at 1 f;
  cursor_visible = bit_at 2 f;
  in_alt = bit_at 3 f;
  application_cursor_keys = bit_at 4 f;
  application_keypad = bit_at 5 f;
  bracketed_paste = bit_at 6 f;
  mouse_x10 = bit_at 7 f;
  mouse_button = bit_at 8 f;
  mouse_any = bit_at 9 f;
  mouse_sgr = bit_at 10 f;
  focus_events = bit_at 11 f;
}

-- the entry of a list of flags, `false` behind its end
abbrev flag_at : ℕ → List Bool → Bool
flag_at i [] = false
flag_at zero (b ∷ bs) = b
flag_at (suc i) (b ∷ bs) = flag_at i bs

low_bit : (b : Bool) (n : ℕ) → (((if b then 1 else 0) + 2 * n) % 2 == 1) ≡ b
low_bit true n = ground arith
low_bit false n = ground arith

high_bits : (b : Bool) (n : ℕ) → ((if b then 1 else 0) + 2 * n) / 2 ≡ n
high_bits true n = omega arith
high_bits false n = omega arith

bit_at-zero : (i : ℕ) → bit_at i 0 ≡ false
unfolding bit_at
bit_at-zero zero = refl
bit_at-zero (suc i) = bit_at-zero i

bit_at-bits : (i : ℕ) (bs : List Bool) → bit_at i (bits bs) ≡ flag_at i bs
unfolding bit_at bits
bit_at-bits i [] = bit_at-zero i
bit_at-bits zero (b ∷ bs) = low_bit b (bits bs)
bit_at-bits (suc i) (b ∷ bs) = ap (bit_at i) (high_bits b (bits bs)) ∙ bit_at-bits i bs

bits_bound : (bs : List Bool) → bits bs < 2 ^ length bs
unfolding bits
bits_bound [] = omega arith
bits_bound (true ∷ bs) = omega (arith, bits_bound bs, pow-suc 2 (length bs))
bits_bound (false ∷ bs) = omega (arith, bits_bound bs, pow-suc 2 (length bs))

pub checkpoint_flags_bound : (s : Screen) → checkpoint_flags s < 2 ^ 32
unfolding checkpoint_flags
checkpoint_flags_bound s = omega (arith, bits_bound (flags_of s))

-- the flags of `s`, on `t`
abbrev pub with_flags_of : Screen → Screen → Screen
with_flags_of s t = record t {
  pending_wrap = s.pending_wrap;
  autowrap = s.autowrap;
  cursor_visible = s.cursor_visible;
  in_alt = s.in_alt;
  application_cursor_keys = s.application_cursor_keys;
  application_keypad = s.application_keypad;
  bracketed_paste = s.bracketed_paste;
  mouse_x10 = s.mouse_x10;
  mouse_button = s.mouse_button;
  mouse_any = s.mouse_any;
  mouse_sgr = s.mouse_sgr;
  focus_events = s.focus_events;
}

pub apply_checkpoint_flags-checkpoint_flags :
    (s t : Screen) → apply_checkpoint_flags t (checkpoint_flags s) ≡ with_flags_of s t
unfolding apply_checkpoint_flags checkpoint_flags
apply_checkpoint_flags-checkpoint_flags s t =
    let at = λ (n : ℕ). bit_at-bits n (flags_of s) in
    λ i. record t {
      pending_wrap = at 0 i;
      autowrap = at 1 i;
      cursor_visible = at 2 i;
      in_alt = at 3 i;
      application_cursor_keys = at 4 i;
      application_keypad = at 5 i;
      bracketed_paste = at 6 i;
      mouse_x10 = at 7 i;
      mouse_button = at 8 i;
      mouse_any = at 9 i;
      mouse_sgr = at 10 i;
      focus_events = at 11 i;
    }
