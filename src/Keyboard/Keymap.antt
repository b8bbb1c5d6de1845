-- ===== src/Keyboard/Keymap.antt =====
-- kernel/src/drivers/keymapper.rs: the built-in key map and the choice of a character.
pub mod Laws
use safa_os.Prelude.{
  ℕ, ◌==◌, Option, none, some, List, [], ◌∷◌, not, ◌&&◌, ◌||◌, ltb, if◌then◌else◌, bit_and,
  replicate, is_some,
}
use safa_os.Keyboard.Keys.{KeyCode, Key, same_code, caps_lock_flag, shift_flag, alt_flag}
use safa_os.Keyboard.Keys.{
  back_slash, backspace, comma, dot, double_quote, equals, key0, key1, key2, key3, key4, key5, key6,
  key7, key8, key9, key_a, key_b, key_c, key_d, key_e, key_f, key_g, key_h, key_i, key_j, key_k,
  key_l, key_m, key_n, key_o, key_p, key_q, key_r, key_s, key_t, key_u, key_v, key_w, key_x, key_y,
  key_z, left_brace, minus, return, right_brace, semicolon, slash, space, tab,
}

-- A character is its code point; 0 is the empty entry.
pub record MappingEntry : Type 0 where
  pub flags : ℕ
  pub result : ℕ

abbrev pub default_entry : MappingEntry
default_entry = record { flags = 0; result = 0 }

-- one line of the table: the key, its alternative flags, and the character
pub record MappingRow : Type 0 where
  pub keycode : KeyCode
  pub alternatives : List ℕ
  pub char : ℕ

abbrev row : KeyCode → List ℕ → ℕ → MappingRow
row k fs c = record { keycode = k; alternatives = fs; char = c }

pub mapping_rows : List MappingRow
mapping_rows =
    row key_q (0 ∷ []) 113
    ∷ row key_q (caps_lock_flag ∷ shift_flag ∷ []) 81
    ∷ row key_w (0 ∷ []) 119
    ∷ row key_w (caps_lock_flag ∷ []) 87
    ∷ row key_e (0 ∷ []) 101
    ∷ row key_e (caps_lock_flag ∷ []) 69
    ∷ row key_r (0 ∷ []) 114
    ∷ row key_r (caps_lock_flag ∷ []) 82
    ∷ row key_t (0 ∷ []) 116
    ∷ row key_t (caps_lock_flag ∷ []) 84
    ∷ row key_y (0 ∷ []) 121
    ∷ row key_y (caps_lock_flag ∷ []) 89
    ∷ row key_u (0 ∷ []) 117
    ∷ row key_u (caps_lock_flag ∷ []) 85
    ∷ row key_i (0 ∷ []) 105
    ∷ row key_i (caps_lock_flag ∷ []) 73
    ∷ row key_o (0 ∷ []) 111
    ∷ row key_o (caps_lock_flag ∷ []) 79
    ∷ row key_p (0 ∷ []) 112
    ∷ row key_p (caps_lock_flag ∷ []) 80
    ∷ row key_a (0 ∷ []) 97
    ∷ row key_a (caps_lock_flag ∷ []) 65
    ∷ row key_s (0 ∷ []) 115
    ∷ row key_s (caps_lock_flag ∷ []) 83
    ∷ row key_d (0 ∷ []) 100
    ∷ row key_d (caps_lock_flag ∷ []) 68
    ∷ row key_f (0 ∷ []) 102
    ∷ row key_f (caps_lock_flag ∷ []) 70
    ∷ row key_g (0 ∷ []) 103
    ∷ row key_g (caps_lock_flag ∷ []) 71
    ∷ row key_h (0 ∷ []) 104
    ∷ row key_h (caps_lock_flag ∷ []) 72
    ∷ row key_j (0 ∷ []) 106
    ∷ row key_j (caps_lock_flag ∷ []) 74
    ∷ row key_k (0 ∷ []) 107
    ∷ row key_k (caps_lock_flag ∷ []) 75
    ∷ row key_l (0 ∷ []) 108
    ∷ row key_l (caps_lock_flag ∷ []) 76
    ∷ row key_z (0 ∷ []) 122
    ∷ row key_z (caps_lock_flag ∷ []) 90
    ∷ row key_x (0 ∷ []) 120
    ∷ row key_x (caps_lock_flag ∷ []) 88
    ∷ row key_c (0 ∷ []) 99
    ∷ row key_c (caps_lock_flag ∷ []) 67
    ∷ row key_v (0 ∷ []) 118
    ∷ row key_v (caps_lock_flag ∷ []) 86
    ∷ row key_b (0 ∷ []) 98
    ∷ row key_b (caps_lock_flag ∷ []) 66
    ∷ row key_n (0 ∷ []) 110
    ∷ row key_n (caps_lock_flag ∷ []) 78
    ∷ row key_m (0 ∷ []) 109
    ∷ row key_m (caps_lock_flag ∷ []) 77
    ∷ row key1 (0 ∷ []) 49
    ∷ row key1 (shift_flag ∷ []) 33
    ∷ row key1 (alt_flag ∷ []) 161
    ∷ row key2 (0 ∷ []) 50
    ∷ row key2 (shift_flag ∷ []) 64
    ∷ row key2 (alt_flag ∷ []) 178
    ∷ row key3 (0 ∷ []) 51
    ∷ row key3 (shift_flag ∷ []) 35
    ∷ row key3 (alt_flag ∷ []) 179
    ∷ row key4 (0 ∷ []) 52
    ∷ row key4 (shift_flag ∷ []) 36
    ∷ row key5 (0 ∷ []) 53
    ∷ row key5 (shift_flag ∷ []) 37
    ∷ row key6 (0 ∷ []) 54
    ∷ row key6 (shift_flag ∷ []) 94
    ∷ row key7 (0 ∷ []) 55
    ∷ row key7 (shift_flag ∷ []) 38
    ∷ row key8 (0 ∷ []) 56
    ∷ row key8 (shift_flag ∷ []) 42
    ∷ row key9 (0 ∷ []) 57
    ∷ row key9 (shift_flag ∷ []) 40
    ∷ row key0 (0 ∷ []) 48
    ∷ row key0 (shift_flag ∷ []) 41
    ∷ row minus (0 ∷ []) 45
    ∷ row minus (shift_flag ∷ []) 95
    ∷ row equals (0 ∷ []) 61
    ∷ row equals (shift_flag ∷ []) 43
    ∷ row backspace (0 ∷ []) 8
    ∷ row tab (0 ∷ []) 9
    ∷ row return (0 ∷ []) 10
    ∷ row space (0 ∷ []) 32
    ∷ row left_brace (0 ∷ []) 91
    ∷ row left_brace (shift_flag ∷ []) 123
    ∷ row right_brace (0 ∷ []) 93
    ∷ row right_brace (shift_flag ∷ []) 125
    ∷ row back_slash (0 ∷ []) 92
    ∷ row back_slash (shift_flag ∷ []) 124
    ∷ row semicolon (0 ∷ []) 59
    ∷ row semicolon (shift_flag ∷ []) 58
    ∷ row double_quote (0 ∷ []) 39
    ∷ row double_quote (shift_flag ∷ []) 34
    ∷ row comma (0 ∷ []) 44
    ∷ row comma (shift_flag ∷ []) 60
    ∷ row dot (0 ∷ []) 46
    ∷ row dot (shift_flag ∷ []) 62
    ∷ row slash (0 ∷ []) 47
    ∷ row slash (shift_flag ∷ []) 63
    ∷ []

-- `create_mapping!`: each alternative goes to the first slot whose result is still 0.
pub fill_slot : List MappingEntry → MappingEntry → List MappingEntry
fill_slot [] e = []
fill_slot (s ∷ slots) e = if s.result == 0 then e ∷ slots else s ∷ fill_slot slots e

pub fill_row : List MappingEntry → List ℕ → ℕ → List MappingEntry
fill_row slots [] c = slots
fill_row slots (f ∷ fs) c = fill_row (fill_slot slots (record { flags = f; result = c })) fs c

pub fill_rows : KeyCode → List MappingEntry → List MappingRow → List MappingEntry
fill_rows k slots [] = slots
fill_rows k slots (r ∷ rs) =
    fill_rows k (if same_code r.keycode k then fill_row slots r.alternatives r.char else slots) rs

-- the 16 slots of one key
unfoldable pub default_mapping : KeyCode → List MappingEntry
unfolding mapping_rows fill_slot fill_row fill_rows same_code
default_mapping k = fill_rows k (replicate 16 default_entry) mapping_rows

-- The loop of `map_key`: an exact match returns at once, else the best mapping so far is kept with
-- the number its common flags make.
pub best_match : ℕ → List MappingEntry → Option MappingEntry → ℕ → ℕ
best_match flags [] best most = elim best [ some m ↦ m.result | none ↦ 0 ]
best_match flags (m ∷ ms) best most =
    let sim = bit_and m.flags flags in
    let better = not (m.result == 0) && ((m.flags == 0 && not (is_some best)) || ltb most sim) in
    let rest =
      best_match flags ms (if better then some m else best) (if better then sim else most) in
    if m.flags == flags then m.result else rest

unfoldable pub map_key : Key → ℕ
unfolding best_match default_mapping
map_key key = best_match key.flags (default_mapping key.code) none 0
