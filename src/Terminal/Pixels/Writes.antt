-- ===== src/Terminal/Pixels/Writes.antt =====
-- Pixels written into the buffer.
use native.Mathlib.Nat.{mul-le-mul_left}
use safa_os.Prelude.{
  ℕ, suc, ◌+◌, ◌*◌, ◌≤◌, ◌<◌, ◌≡◌, ◌≢◌, ◌⊎◌, inl, inr, refl, ap, Bool-cases, ltb, ltb→lt, Option,
  some, none, length, get_elem?, leb, false, arith,
}
use safa_os.Terminal.Rgb.{Rgb, bytes}
use safa_os.Terminal.Pixels.{
  FrameBuffer, PixelFormat, rgb, bgr, in_format, copy_to, with_buffer, set_pixel,
}
use safa_os.Terminal.Pixels.Copies.{copy_to-CopiedTo}

below_scaled : (a b k i : ℕ) → a < b → i < k → a * k + i < b * k
below_scaled a b k i h hi =
    let whole : k * suc a ≤ k * b = mul-le-mul_left k h in
    let split : k * suc a ≡ a * k + k = grind arith in
    let turned : k * b ≡ b * k = omega arith in omega arith

-- the index of a pixel
abbrev pub place : FrameBuffer → ℕ → ℕ → ℕ
place this x y = x + y * this.stride

-- byte `i` of a pixel
abbrev pub pixel_byte : FrameBuffer → ℕ → ℕ → ℕ → Option ℕ
pixel_byte this x y i = get_elem? this.buffer (place this x y * this.bytes_per_pixel + i)

place-lt :
    (this : FrameBuffer) (x y px py : ℕ)
    → px < this.stride
    → py < y
    → place this px py < place this x y
place-lt this x y px py hpx above =
    let lines : this.stride * suc py ≤ this.stride * y = mul-le-mul_left this.stride above in
    let split : this.stride * suc py ≡ py * this.stride + this.stride = grind arith in
    let turned : this.stride * y ≡ y * this.stride = omega arith in omega arith

-- Another pixel is elsewhere, if both are inside of their lines.
place-ne :
    (this : FrameBuffer) (x y px py : ℕ)
    → x < this.stride
    → px < this.stride
    → (px ≢ x) ⊎ (py ≢ y)
    → (place this px py < place this x y) ⊎ (place this x y < place this px py)
place-ne this x y px py hx hpx other = elim (Bool-cases (ltb py y)) [
  | inl above ↦ inl (place-lt this x y px py hpx (ltb→lt py y above))
  | inr low ↦ elim (Bool-cases (ltb y py)) [
    | inl below ↦ inr (place-lt this px py x y hx (ltb→lt y py below))
    | inr high ↦
        let same : py ≡ y = ground arith in
        elim other [ inl px_ne ↦ rw same (ground arith) | inr py_ne ↦ absurd (py_ne same) ]
  ]
]

-- the pixels of line `y` are in the buffer
abbrev pub HasLine : FrameBuffer → ℕ → Type 0
HasLine this y = suc y * this.stride * this.bytes_per_pixel ≤ length this.buffer

abbrev pub SameShape : FrameBuffer → FrameBuffer → Type 0
SameShape this after =
    (after.stride ≡ this.stride)
    × (after.bytes_per_pixel ≡ this.bytes_per_pixel)
    × (after.pixel_format ≡ this.pixel_format)
    × (after.buffer_display_index ≡ this.buffer_display_index)
    × (after.video_buffer ≡ this.video_buffer)
    × (length after.buffer ≡ length this.buffer)

pub length-in_format : (f : PixelFormat) (color : Rgb) → length (in_format f (bytes color)) ≡ 3
unfolding bytes
length-in_format rgb color = refl
length-in_format bgr color = refl

module _ (this : FrameBuffer) where
  abbrev pub Keeps : FrameBuffer → ℕ → ℕ → Type 0
  Keeps after px py = (i : ℕ) → i < 3 → pixel_byte after px py i ≡ pixel_byte this px py i

  abbrev pub Shows : FrameBuffer → ℕ → ℕ → Rgb → Type 0
  Shows after px py color =
      (i : ℕ)
      → i < 3
      → pixel_byte after px py i ≡ get_elem? (in_format this.pixel_format (bytes color)) i

  -- `after` is `this` with one pixel painted.
  pub record Painted (x y : ℕ) (color : Rgb) (after : FrameBuffer) : Type 0 where
    pub same_shape : SameShape this after
    pub painted : Shows after x y color
    pub others : (px py : ℕ) → px < this.stride → (px ≢ x) ⊎ (py ≢ y) → Keeps after px py

module _ (this : FrameBuffer) (wide : 3 ≤ this.bytes_per_pixel) where
  pixel-fits :
      (x y : ℕ)
      → x < this.stride
      → HasLine this y
      → place this x y * this.bytes_per_pixel + 3 ≤ length this.buffer
  pixel-fits x y hx line =
      let inside : place this x y < suc y * this.stride =
        let split : suc y * this.stride ≡ y * this.stride + this.stride = grind arith in
        omega arith in
      let last : place this x y * this.bytes_per_pixel + 2
          < suc y * this.stride * this.bytes_per_pixel =
        below_scaled (place this x y) (suc y * this.stride) this.bytes_per_pixel 2 inside
          (omega arith) in
      omega arith

  pub set_pixel-Painted :
      (x y : ℕ) (color : Rgb)
      → x < this.stride
      → HasLine this y
      → (after : FrameBuffer) × (set_pixel this x y color ≡ some after)
        × Painted this x y color after
  unfolding set_pixel
  set_pixel-Painted x y color hx line =
      let at = place this x y * this.bytes_per_pixel in
      let source = in_format this.pixel_format (bytes color) in
      let three : length source ≡ 3 = length-in_format this.pixel_format color in
      let (after, runs, copied) =
        copy_to-CopiedTo this.buffer at source (rw three (pixel-fits x y hx line)) in
      (
        record this { buffer = after },
        ap (with_buffer this) runs,
        record {
          same_shape = (refl, refl, refl, refl, refl, copied.same_length);
          painted = λ i hi. copied.inside i (rw three hi);
          others = λ px py hpx other i hi. elim (place-ne this x y px py hx hpx other) [
            | inl lower ↦
                let before : place this px py * this.bytes_per_pixel + i < at =
                  below_scaled (place this px py) (place this x y) this.bytes_per_pixel i lower
                    (omega arith) in
                copied.before _ before
            | inr higher ↦
                let behind : at + length source ≤ place this px py * this.bytes_per_pixel + i =
                  let last : at + 2 < place this px py * this.bytes_per_pixel =
                    below_scaled (place this x y) (place this px py) this.bytes_per_pixel 2 higher
                      (omega arith) in
                  rw three (omega arith) in
                copied.behind _ behind
          ];
        },
      )

-- A pixel of a line behind the end of the buffer panics.
pub set_pixel-none :
    (this : FrameBuffer) (x y : ℕ) (color : Rgb)
    → length this.buffer ≤ y * this.stride * this.bytes_per_pixel
    → set_pixel this x y color ≡ none
unfolding set_pixel copy_to
set_pixel-none this x y color behind =
    let source = in_format this.pixel_format (bytes color) in
    let three : length source ≡ 3 = length-in_format this.pixel_format color in
    let at : y * this.stride * this.bytes_per_pixel ≤ place this x y * this.bytes_per_pixel =
      omega arith in
    let outside : leb (place this x y * this.bytes_per_pixel + length source) (length this.buffer)
        ≡ false =
      rw three (ground arith) in
    rw outside refl
