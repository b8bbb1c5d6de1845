-- ===== src/Keyboard/Keymap/Laws.antt =====
-- What `map_key` returns for the keys of the built-in map, under any modifiers.
use safa_os.Prelude.{
  ℕ, ◌+◌, ◌≡◌, ◌≢◌, refl, Bool, true, false, ◌==◌, none, some, List, [], ◌∷◌, not, ◌&&◌, ◌||◌, leb,
  if◌then◌else◌, bit_and, arith,
}
use safa_os.Keyboard.Keys.{KeyCode, Key, same_code, caps_lock_flag, shift_flag, null, key_q, key_w}
use safa_os.Keyboard.Keymap.{MappingEntry, default_mapping, best_match, map_key}

-- an entry with flags has a character, so that padding is never taken for a modified key
has_char : List MappingEntry → Bool
has_char [] = true
has_char (m ∷ ms) = (m.flags == 0 || not (m.result == 0)) && has_char ms

-- the key has a character without modifiers
unfoldable pub is_mapped : List MappingEntry → Bool
is_mapped [] = false
is_mapped (m ∷ ms) = m.flags == 0 && not (m.result == 0)

best_match-ne_zero :
    (flags : ℕ) (ms : List MappingEntry) (m : MappingEntry) (most : ℕ)
    → flags ≢ 0
    → has_char ms ≡ true
    → m.result ≢ 0
    → best_match flags ms (some m) most ≢ 0
unfolding best_match has_char
best_match-ne_zero flags [] m most nf h hm = hm
best_match-ne_zero flags (x ∷ ms) m most nf h hm = ground (
  arith,
  best_match-ne_zero flags ms m most nf,
  best_match-ne_zero flags ms x (bit_and x.flags flags) nf,
)

default_mapping-has_char : (c : KeyCode) → has_char (default_mapping c) ≡ true
unfolding default_mapping has_char
default_mapping-has_char null = refl
default_mapping-has_char _ = refl

mapped-ne_zero :
    (flags : ℕ) (ms : List MappingEntry)
    → has_char ms ≡ true
    → is_mapped ms ≡ true
    → best_match flags ms none 0 ≢ 0
unfolding best_match has_char is_mapped
mapped-ne_zero flags [] h k = cc
mapped-ne_zero flags (m ∷ ms) h k =
    ground (
      arith,
      best_match-ne_zero flags ms m 0,
      best_match-ne_zero flags ms m (bit_and m.flags flags),
    )

-- A key that has a character without modifiers has one under every combination of modifiers.
pub map_key-ne_zero : (key : Key) → is_mapped (default_mapping key.code) ≡ true → map_key key ≢ 0
unfolding map_key
map_key-ne_zero key h =
    mapped-ne_zero key.flags (default_mapping key.code) (default_mapping-has_char key.code) h

-- the keys whose unmodified character is a small letter
unfoldable pub is_letter : KeyCode → Bool
is_letter c = let r = map_key (record { code = c; flags = 0 }) in leb b'a' r && leb r b'z'

-- For each letter key caps lock gives the capital of its small letter.
pub map_key-caps_lock :
    (c : KeyCode)
    → is_letter c ≡ true
    → map_key (record { code = c; flags = caps_lock_flag }) + 32
      ≡ map_key (record { code = c; flags = 0 })
unfolding is_letter map_key
map_key-caps_lock null h = cc
map_key-caps_lock key_q h = refl
map_key-caps_lock key_w h = refl
map_key-caps_lock _ h = ground arith

-- The shift key alone gives the capital of q, and leaves every other letter key at its small
-- letter.
pub map_key-shift :
    (c : KeyCode)
    → is_letter c ≡ true
    → map_key (record { code = c; flags = shift_flag })
      ≡ (if same_code c key_q then b'Q' else map_key (record { code = c; flags = 0 }))
unfolding is_letter map_key same_code
map_key-shift null h = cc
map_key-shift key_q h = refl
map_key-shift key_w h = refl
map_key-shift _ h = ground arith
