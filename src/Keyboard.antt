-- ===== src/Keyboard.antt =====
-- kernel/src/drivers/keyboard/mod.rs and set1.rs: the pressed keys, and the decoder of scan codes.
-- `none` is a panic: the byte buffer of 8 has no place for a ninth byte.
pub mod Keys
pub mod Keymap
pub mod Decode
pub mod Press
mod Tests
use safa_os.Prelude.{
  ℕ, zero, suc, ◌+◌, ◌-◌, ◌*◌, Bool, true, false, not, ◌&&◌, ◌||◌, ◌==◌, ltb, if◌then◌else◌, Option,
  none, some, List, [], ◌∷◌, ◌++◌, bit_and, bit_or, length, set, get_elem?, replicate,
}
use safa_os.Keyboard.Keys.{
  KeyCode, Key, null_key, same_code, decode_set1, ctrl_flag, alt_flag, shift_flag, caps_lock_flag,
  null, ctrl, shift, alt, caps_lock,
}

abbrev pub max_keys : ℕ
max_keys = 256

pub record Keyboard : Type 0 where
  pub current_keys : List Key
  pub latest_unencoded_byte : ℕ
  pub current_unencoded_key : List ℕ

abbrev pub new : Keyboard
new = record { current_keys = []; latest_unencoded_byte = 0; current_unencoded_key = replicate 8 0 }

pub reset_unencoded_buffer : Keyboard → Keyboard
reset_unencoded_buffer this = record this {
  latest_unencoded_byte = 0;
  current_unencoded_key = replicate 8 0;
}

-- the loop of `code_is_pressed`
pub holds_code : List Key → KeyCode → Bool
holds_code [] code = false
holds_code (k ∷ ks) code = same_code k.code code || holds_code ks code

pub code_is_pressed : Keyboard → KeyCode → Bool
unfolding holds_code
code_is_pressed this code = holds_code this.current_keys code

-- the loop of `is_pressed`
pub holds_key : List Key → Key → Bool
holds_key [] key = false
holds_key (k ∷ ks) key = (same_code k.code key.code && k.flags == key.flags) || holds_key ks key

pub is_pressed : Keyboard → Key → Bool
unfolding holds_key
is_pressed this key = holds_key this.current_keys key

-- `flags |= flag` under a test
abbrev add_flag : Bool → ℕ → ℕ → ℕ
add_flag test flag flags = if test then bit_or flags flag else flags

pub process_keycode : Keyboard → KeyCode → Key
unfolding code_is_pressed
process_keycode this keycode =
    let held =
      λ (code other : KeyCode). code_is_pressed this code && not (same_code keycode other) in
    let f1 = add_flag (held shift ctrl) shift_flag 0 in
    let f2 = add_flag (held ctrl shift) ctrl_flag f1 in
    let f3 = add_flag (held alt alt) alt_flag f2 in
    record { code = keycode; flags = add_flag (held caps_lock caps_lock) caps_lock_flag f3 }

-- drops the first key with the code
pub remove_first : List Key → KeyCode → List Key
remove_first [] code = []
remove_first (k ∷ ks) code = if same_code k.code code then ks else k ∷ remove_first ks code

pub remove_pressed_keycode : Keyboard → KeyCode → Keyboard
unfolding remove_first
remove_pressed_keycode this code =
    if same_code code null
    then this
    else record this { current_keys = remove_first this.current_keys code }

-- `push`, or a write over the last key where the vector is full
pub push_key : List Key → Key → List Key
push_key ks key = if ltb (length ks) max_keys then ks ++ key ∷ [] else set ks (length ks - 1) key

pub add_pressed_keycode : Keyboard → KeyCode → Keyboard
unfolding push_key remove_pressed_keycode process_keycode
add_pressed_keycode this code =
    if same_code code null
    then this
    else if same_code code caps_lock && code_is_pressed this code
    then remove_pressed_keycode this code
    else record this { current_keys = push_key this.current_keys (process_keycode this code) }

-- `transmute` of the buffer: the bytes as a number, the first byte lowest
pub from_bytes : List ℕ → ℕ
from_bytes [] = 0
from_bytes (b ∷ bs) = b + 256 * from_bytes bs

-- the second half of `handle_ps2_set_1`: the buffer `bytes` is complete and its last byte is `byte`
pub finish_code : Keyboard → List ℕ → ℕ → Keyboard × Key
unfolding from_bytes reset_unencoded_buffer add_pressed_keycode
finish_code this bytes byte =
    let break_code = bit_and byte 128 == 128 in
    let bytes' = if break_code then set bytes this.latest_unencoded_byte (byte - 0x80) else bytes in
    let encoded = decode_set1 (from_bytes bytes') in
    let this' = reset_unencoded_buffer this in
    if break_code
    then (
      (if same_code encoded caps_lock then this' else remove_pressed_keycode this' encoded),
      null_key,
    )
    else let this'' = add_pressed_keycode this' encoded in (this'', process_keycode this'' encoded)

pub handle_ps2_set_1 : Keyboard → ℕ → Option (Keyboard × Key)
unfolding finish_code
handle_ps2_set_1 this code =
    if ltb this.latest_unencoded_byte 8
    then (let bytes = set this.current_unencoded_key this.latest_unencoded_byte code in
        if code == 0xE0
        then some (
          record this {
            latest_unencoded_byte = this.latest_unencoded_byte + 1;
            current_unencoded_key = bytes;
          },
          null_key,
        )
        else some (finish_code this bytes code))
    else none

-- a run of received bytes
pub run : List ℕ → Keyboard → Option Keyboard
unfolding handle_ps2_set_1
run [] this = some this
run (b ∷ bs) this = elim (handle_ps2_set_1 this b) [ none ↦ none | some (this', _) ↦ run bs this' ]
