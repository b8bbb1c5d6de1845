-- ===== src/Keyboard/Tests.antt =====
-- Scan codes run through the keyboard, and keys through the key map.
use safa_os.Prelude.{◌+◌, ◌≡◌, refl, arith, true, some, [], ◌∷◌}
use safa_os.Keyboard.{Keyboard, handle_ps2_set_1, new, code_is_pressed, holds_code}
use safa_os.Keyboard.Keys.{Key, null_key, key_q, decode_set1, same_code}
use safa_os.Keyboard.Decode.{clean}
use safa_os.Keyboard.Press.{press_release}

press_q :
    handle_ps2_set_1 new 0x10
    ≡ some (
      record new { current_keys = record { code = key_q; flags = 0 } ∷ [] },
      record { code = key_q; flags = 0 },
    )
unfolding handle_ps2_set_1 decode_set1 same_code
press_q = refl

press_release_example :
    (held : Keyboard) × (key : Key) × (handle_ps2_set_1 (clean []) 0x10 ≡ some (held, key))
    × (key.code ≡ decode_set1 0x10)
    × (code_is_pressed held (decode_set1 0x10) ≡ true)
    × (handle_ps2_set_1 held (0x10 + 128) ≡ some (clean [], null_key))
unfolding decode_set1 same_code holds_code
press_release_example =
    press_release [] 0x10 (omega arith) (omega arith) refl refl refl (omega arith)
