-- ===== src/Keyboard/Keys.antt =====
-- kernel/src/drivers/keyboard/keys.rs: key codes, key flags, and the scan codes of set 1.
use safa_os.Prelude.{ℕ, Bool, ◌==◌, Option, none, some, List, [], ◌∷◌, if◌then◌else◌}

pub data KeyCode : Type 0 where
  null f1 f2 f3 f4 f5 f6 f7 f8 f9 f10 f11 f12 print_scr : KeyCode
  esc key1 key2 key3 key4 key5 key6 key7 key8 key9 key0 minus equals backspace : KeyCode
  key_q key_w key_e key_r key_t key_y key_u key_i key_o key_p left_brace right_brace back_slash :
      KeyCode
  key_a key_s key_d key_f key_g key_h key_j key_k key_l semicolon double_quote return : KeyCode
  key_z key_x key_c key_v key_b key_n key_m back_quote comma dot slash : KeyCode
  tab caps_lock ctrl shift alt super space up down left right : KeyCode
  page_up page_down insert delete home end_key last_key : KeyCode

-- The discriminants: row!(N) is N << 5, and the codes of a row follow in order.
pub discriminant : KeyCode → ℕ
discriminant null = 0
discriminant f1 = 1
discriminant f2 = 2
discriminant f3 = 3
discriminant f4 = 4
discriminant f5 = 5
discriminant f6 = 6
discriminant f7 = 7
discriminant f8 = 8
discriminant f9 = 9
discriminant f10 = 10
discriminant f11 = 11
discriminant f12 = 12
discriminant print_scr = 13
discriminant esc = 32
discriminant key1 = 33
discriminant key2 = 34
discriminant key3 = 35
discriminant key4 = 36
discriminant key5 = 37
discriminant key6 = 38
discriminant key7 = 39
discriminant key8 = 40
discriminant key9 = 41
discriminant key0 = 42
discriminant minus = 43
discriminant equals = 44
discriminant backspace = 45
discriminant key_q = 64
discriminant key_w = 65
discriminant key_e = 66
discriminant key_r = 67
discriminant key_t = 68
discriminant key_y = 69
discriminant key_u = 70
discriminant key_i = 71
discriminant key_o = 72
discriminant key_p = 73
discriminant left_brace = 74
discriminant right_brace = 75
discriminant back_slash = 76
discriminant key_a = 96
discriminant key_s = 97
discriminant key_d = 98
discriminant key_f = 99
discriminant key_g = 100
discriminant key_h = 101
discriminant key_j = 102
discriminant key_k = 103
discriminant key_l = 104
discriminant semicolon = 105
discriminant double_quote = 106
discriminant return = 107
discriminant key_z = 128
discriminant key_x = 129
discriminant key_c = 130
discriminant key_v = 131
discriminant key_b = 132
discriminant key_n = 133
discriminant key_m = 134
discriminant back_quote = 135
discriminant comma = 136
discriminant dot = 137
discriminant slash = 138
discriminant tab = 160
discriminant caps_lock = 161
discriminant ctrl = 162
discriminant shift = 163
discriminant alt = 164
discriminant super = 165
discriminant space = 166
discriminant up = 167
discriminant down = 168
discriminant left = 169
discriminant right = 170
discriminant page_up = 192
discriminant page_down = 193
discriminant insert = 194
discriminant delete = 195
discriminant home = 196
discriminant end_key = 197
discriminant last_key = 198

-- the derived `PartialEq`
unfoldable pub same_code : KeyCode → KeyCode → Bool
unfolding discriminant
same_code a b = discriminant a == discriminant b

-- `KeyFlags` as its bits
abbrev pub ctrl_flag : ℕ
ctrl_flag = 1

abbrev pub alt_flag : ℕ
alt_flag = 2

abbrev pub shift_flag : ℕ
shift_flag = 4

abbrev pub caps_lock_flag : ℕ
caps_lock_flag = 8

pub record Key : Type 0 where
  pub code : KeyCode
  pub flags : ℕ

abbrev pub null_key : Key
null_key = record { code = null; flags = 0 }

-- `Set1Key`: each variant encodes to the key code of its name (the derive macro `EncodeKey`), and
-- its value is the bytes of the scan code, the first byte lowest.
pub record Set1Key : Type 0 where
  pub encode : KeyCode
  pub value : ℕ

abbrev set1 : KeyCode → ℕ → Set1Key
set1 code value = record { encode = code; value = value }

pub set1_keys : List Set1Key
set1_keys =
    set1 null 0
    ∷ set1 f1 0x3B
    ∷ set1 f2 0x3C
    ∷ set1 f3 0x3D
    ∷ set1 f4 0x3E
    ∷ set1 f5 0x3F
    ∷ set1 f6 0x40
    ∷ set1 f7 0x41
    ∷ set1 f8 0x42
    ∷ set1 f9 0x43
    ∷ set1 f10 0x44
    ∷ set1 f11 0x57
    ∷ set1 f12 0x58
    ∷ set1 print_scr 0x37E02AE0
    ∷ set1 esc 0x1
    ∷ set1 key1 0x2
    ∷ set1 key2 0x3
    ∷ set1 key3 0x4
    ∷ set1 key4 0x5
    ∷ set1 key5 0x6
    ∷ set1 key6 0x7
    ∷ set1 key7 0x8
    ∷ set1 key8 0x9
    ∷ set1 key9 0xA
    ∷ set1 key0 0xB
    ∷ set1 minus 0xC
    ∷ set1 equals 0xD
    ∷ set1 backspace 0xE
    ∷ set1 key_q 0x10
    ∷ set1 key_w 0x11
    ∷ set1 key_e 0x12
    ∷ set1 key_r 0x13
    ∷ set1 key_t 0x14
    ∷ set1 key_y 0x15
    ∷ set1 key_u 0x16
    ∷ set1 key_i 0x17
    ∷ set1 key_o 0x18
    ∷ set1 key_p 0x19
    ∷ set1 left_brace 0x1A
    ∷ set1 right_brace 0x1B
    ∷ set1 back_slash 0x2B
    ∷ set1 key_a 0x1E
    ∷ set1 key_s 0x1F
    ∷ set1 key_d 0x20
    ∷ set1 key_f 0x21
    ∷ set1 key_g 0x22
    ∷ set1 key_h 0x23
    ∷ set1 key_j 0x24
    ∷ set1 key_k 0x25
    ∷ set1 key_l 0x26
    ∷ set1 semicolon 0x27
    ∷ set1 double_quote 0x28
    ∷ set1 return 0x1C
    ∷ set1 key_z 0x2C
    ∷ set1 key_x 0x2D
    ∷ set1 key_c 0x2E
    ∷ set1 key_v 0x2F
    ∷ set1 key_b 0x30
    ∷ set1 key_n 0x31
    ∷ set1 key_m 0x32
    ∷ set1 back_quote 0x29
    ∷ set1 comma 0x33
    ∷ set1 dot 0x34
    ∷ set1 slash 0x35
    ∷ set1 tab 0x0F
    ∷ set1 caps_lock 0x3A
    ∷ set1 ctrl 0x1D
    ∷ set1 shift 0x2A
    ∷ set1 alt 0x38
    ∷ set1 super 0x5Be0
    ∷ set1 space 0x39
    ∷ set1 up 0x48e0
    ∷ set1 down 0x50e0
    ∷ set1 left 0x4Be0
    ∷ set1 right 0x4De0
    ∷ set1 page_up 0x49e0
    ∷ set1 page_down 0x51e0
    ∷ set1 insert 0x52e0
    ∷ set1 delete 0x53e0
    ∷ set1 home 0x47e0
    ∷ set1 end_key 0x4Fe0
    ∷ []

pub find_value : List Set1Key → ℕ → Option Set1Key
find_value [] value = none
find_value (k ∷ ks) value = if k.value == value then some k else find_value ks value

-- `Set1Key::try_from(value).unwrap_or(Set1Key::NULL).encode()`
unfoldable pub decode_set1 : ℕ → KeyCode
unfolding find_value set1_keys
decode_set1 value = elim (find_value set1_keys value) [ some k ↦ k.encode | none ↦ null ]
