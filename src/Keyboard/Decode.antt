-- ===== src/Keyboard/Decode.antt =====
-- What single-byte scan codes do to a keyboard between two scan codes.
use safa_os.Prelude.{
  ℕ, ◌+◌, ◌-◌, ◌*◌, ◌/◌, ◌%◌, ◌<◌, ◌≡◌, ◌≢◌, ap, ◌∙◌, true, false, ◌==◌, if◌then◌else◌, some, List,
  ◌∷◌, bit_and, replicate, arith,
}
use safa_os.Prelude.Bits.{bit_and_shifted, bit_and-one}
use safa_os.Keyboard.{
  Keyboard, process_keycode, remove_pressed_keycode, add_pressed_keycode, from_bytes, finish_code,
  handle_ps2_set_1,
}
use safa_os.Keyboard.Keys.{Key, null_key, same_code, decode_set1, caps_lock}

-- a keyboard that waits for the first byte of a scan code, with the keys `ks` pressed
abbrev pub clean : List Key → Keyboard
clean ks = record {
  current_keys = ks;
  latest_unencoded_byte = 0;
  current_unencoded_key = replicate 8 0;
}

high_bit : (b : ℕ) → bit_and b 128 ≡ b / 128 % 2 * 128
high_bit b = bit_and_shifted 7 b 1 ∙ ap (λ k. k * 128) (bit_and-one (b / 128))

one_byte : (b : ℕ) → from_bytes (b ∷ replicate 7 0) ≡ b
unfolding from_bytes
one_byte b = omega arith

finish_make :
    (ks : List Key) (b : ℕ)
    → b < 128
    → finish_code (clean ks) (b ∷ replicate 7 0) b ≡ (
      add_pressed_keycode (clean ks) (decode_set1 b),
      process_keycode (add_pressed_keycode (clean ks) (decode_set1 b)) (decode_set1 b),
    )
unfolding finish_code
finish_make ks b h =
    let e : (bit_and b 128 == 128) ≡ false = ground (arith, high_bit b) in rw e (rw (one_byte b))

pub handle_make :
    (ks : List Key) (b : ℕ)
    → b < 128
    → handle_ps2_set_1 (clean ks) b
      ≡ some (
        add_pressed_keycode (clean ks) (decode_set1 b),
        process_keycode (add_pressed_keycode (clean ks) (decode_set1 b)) (decode_set1 b),
      )
unfolding handle_ps2_set_1
handle_make ks b h =
    let e : (b == 0xE0) ≡ false = ground arith in rw e (ap some (finish_make ks b h))

finish_break :
    (ks : List Key) (b : ℕ)
    → b < 128
    → finish_code (clean ks) ((b + 128) ∷ replicate 7 0) (b + 128) ≡ (
      (if same_code (decode_set1 b) caps_lock
          then clean ks
          else remove_pressed_keycode (clean ks) (decode_set1 b)),
      null_key,
    )
unfolding finish_code
finish_break ks b h =
    let e : (bit_and (b + 128) 128 == 128) ≡ true = ground (arith, high_bit (b + 128)) in
    let d : b + 128 - 128 ≡ b = omega arith in rw e (rw (d, one_byte b))

pub handle_break :
    (ks : List Key) (b : ℕ)
    → b < 128
    → b ≢ 0x60
    → handle_ps2_set_1 (clean ks) (b + 128)
      ≡ some (
        (if same_code (decode_set1 b) caps_lock
            then clean ks
            else remove_pressed_keycode (clean ks) (decode_set1 b)),
        null_key,
      )
unfolding handle_ps2_set_1
handle_break ks b h ne =
    let e : (b + 128 == 0xE0) ≡ false = ground arith in rw e (ap some (finish_break ks b h))
