-- ===== src/Terminal/Rgb/Channels.antt =====
-- The channels of a colour, and of one colour shown through another.
use native.Mathlib.Nat.{mul-le-mul_left}
use safa_os.Prelude.{ℕ, ◌+◌, ◌-◌, ◌*◌, ◌/◌, ◌^◌, ◌<◌, ◌≤◌, ◌≡◌, ◌∙◌, bit_or, min, max, arith}
use safa_os.Prelude.Bits.{bit_or_fields, bit_or_comm, bit_and_mask}
use safa_os.Terminal.Rgb.{Rgb, new, r, g, b, blend, with_alpha}

-- The word of three bytes.
new_value : (x y z : ℕ) → x < 256 → y < 256 → new x y z ≡ z * 2 ^ 16 + (y * 2 ^ 8 + x)
unfolding new
new_value x y z hx hy =
    let low : x < 2 ^ 8 = omega arith in
    let pair : bit_or x (y * 2 ^ 8) ≡ y * 2 ^ 8 + x = bit_or_comm _ _ ∙ bit_or_fields 8 y x low in
    let both : y * 2 ^ 8 + x < 2 ^ 16 = omega arith in
    rw pair (bit_or_comm _ _ ∙ bit_or_fields 16 z (y * 2 ^ 8 + x) both)

module _ (x y z : ℕ) (hx : x < 256) (hy : y < 256) (hz : z < 256) where
  -- The channels of a colour made of three bytes are these bytes.
  pub new-channels : (r (new x y z) ≡ x) × (g (new x y z) ≡ y) × (b (new x y z) ≡ z)
  unfolding r g b
  new-channels = rw (new_value x y z hx hy) (
    bit_and_mask 8 _ ∙ omega arith,
    bit_and_mask 8 _ ∙ omega arith,
    bit_and_mask 8 _ ∙ omega arith,
  )

-- A mean with the weights `i` and `j` lies between bounds of the two values.
mean-bounds :
    (fore i back j low high : ℕ)
    → low ≤ fore
    → low ≤ back
    → fore ≤ high
    → back ≤ high
    → (low * (i + j) ≤ fore * i + back * j) × (fore * i + back * j ≤ high * (i + j))
mean-bounds fore i back j low high h1 h2 h3 h4 =
    let under_fore : i * low ≤ i * fore = mul-le-mul_left i h1 in
    let under_back : j * low ≤ j * back = mul-le-mul_left j h2 in
    let over_fore : i * fore ≤ i * high = mul-le-mul_left i h3 in
    let over_back : j * back ≤ j * high = mul-le-mul_left j h4 in (omega arith, omega arith)

-- A channel shown through another lies between the two, and no intermediate value wraps.
blend-bounds :
    (fore i back low high : ℕ)
    → i < 256
    → high < 256
    → low ≤ fore
    → low ≤ back
    → fore ≤ high
    → back ≤ high
    → (low ≤ blend fore i back) × (blend fore i back ≤ high)
unfolding blend
blend-bounds fore i back low high hi hh h1 h2 h3 h4 =
    let (under, over) = mean-bounds fore i back (255 - i) low high h1 h2 h3 h4 in
    let whole : i + (255 - i) ≡ 255 = omega arith in
    let low_sum : low * 255 ≤ fore * i + back * (255 - i) = rw whole at under in
    let high_sum : fore * i + back * (255 - i) ≤ high * 255 = rw whole at over in
    (omega arith, omega arith)

abbrev pub Between : ℕ → ℕ → ℕ → Type 0
Between x y z = (min x y ≤ z) × (z ≤ max x y)

blend-Between :
    (fore i back : ℕ)
    → fore < 256
    → i < 256
    → back < 256
    → (blend fore i back < 256) × Between fore back (blend fore i back)
blend-Between fore i back hf hi hb =
    let (under, over) =
      blend-bounds fore i back (min fore back) (max fore back) hi (omega arith) (omega arith)
        (omega arith) (omega arith) (omega arith) in
    (omega arith, (under, over))

r-lt : (this : Rgb) → r this < 256
unfolding r
r-lt this = rw (bit_and_mask 8 this) (omega arith)

g-lt : (this : Rgb) → g this < 256
unfolding g
g-lt this = rw (bit_and_mask 8 (this / 2 ^ 8)) (omega arith)

b-lt : (this : Rgb) → b this < 256
unfolding b
b-lt this = rw (bit_and_mask 8 (this / 2 ^ 16)) (omega arith)

-- A colour shown through another with an intensity of one byte has in each channel a value between
-- those of the two colours.
pub with_alpha-Between :
    (fore back : Rgb) (i : ℕ)
    → i < 256
    → Between (r fore) (r back) (r (with_alpha fore i back))
      × Between (g fore) (g back) (g (with_alpha fore i back))
      × Between (b fore) (b back) (b (with_alpha fore i back))
unfolding with_alpha
with_alpha-Between fore back i hi =
    let (red, red_between) = blend-Between (r fore) i (r back) (r-lt fore) hi (r-lt back) in
    let (green, green_between) = blend-Between (g fore) i (g back) (g-lt fore) hi (g-lt back) in
    let (blue, blue_between) = blend-Between (b fore) i (b back) (b-lt fore) hi (b-lt back) in
    let (is_r, is_g, is_b) = new-channels _ _ _ red green blue in
    (rw is_r red_between, rw is_g green_between, rw is_b blue_between)
