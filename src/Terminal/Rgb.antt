-- ===== src/Terminal/Rgb.antt =====
-- `RGB` of kernel/src/utils/display.rs: a colour in the lower 24 bits of a word. A `u16` and a `u8`
-- keep their wrap-around.
use safa_os.Prelude.{ℕ, ◌+◌, ◌-◌, ◌*◌, ◌/◌, ◌%◌, ◌^◌, bit_and, bit_or, List, [], ◌∷◌}
pub mod Channels

abbrev pub Rgb : Type 0
Rgb = ℕ

unfoldable pub new : ℕ → ℕ → ℕ → Rgb
new r g b = bit_or (bit_or r (g * 2 ^ 8)) (b * 2 ^ 16)

unfoldable pub r : Rgb → ℕ
r this = bit_and this 0xFF

unfoldable pub g : Rgb → ℕ
g this = bit_and (this / 2 ^ 8) 0xFF

unfoldable pub b : Rgb → ℕ
b this = bit_and (this / 2 ^ 16) 0xFF

unfoldable pub bytes : Rgb → List ℕ
bytes this = r this ∷ g this ∷ b this ∷ []

-- one channel of `with_alpha`
unfoldable pub blend : ℕ → ℕ → ℕ → ℕ
blend fore intensity back =
    ((fore * intensity % 2 ^ 16 + back * (255 - intensity) % 2 ^ 16) % 2 ^ 16) / 255 % 2 ^ 8

unfoldable pub with_alpha : Rgb → ℕ → Rgb → Rgb
with_alpha this intensity back =
    new (blend (r this) intensity (r back)) (blend (g this) intensity (g back))
      (blend (b this) intensity (b back))

abbrev pub black : Rgb
black = new 0 0 0

abbrev pub white : Rgb
white = new 211 215 207

abbrev pub red : Rgb
red = new 204 0 0

abbrev pub green : Rgb
green = new 78 154 6

abbrev pub blue : Rgb
blue = new 114 159 207

abbrev pub yellow : Rgb
yellow = new 196 160 0

abbrev pub cyan : Rgb
cyan = new 6 152 154

abbrev pub magenta : Rgb
magenta = new 117 80 123

abbrev pub bright_black : Rgb
bright_black = new 85 87 83

abbrev pub bright_white : Rgb
bright_white = new 255 255 255

abbrev pub bright_red : Rgb
bright_red = new 239 41 41

abbrev pub bright_green : Rgb
bright_green = new 138 226 52

abbrev pub bright_blue : Rgb
bright_blue = new 50 175 255

abbrev pub bright_yellow : Rgb
bright_yellow = new 252 233 79

abbrev pub bright_cyan : Rgb
bright_cyan = new 52 226 226

abbrev pub bright_magenta : Rgb
bright_magenta = new 173 127 168
