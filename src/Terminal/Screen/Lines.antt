-- ===== src/Terminal/Screen/Lines.antt =====
-- What drawing the lines of a raster does to the pixels.
use native.Mathlib.Nat.{mul-le-mul_left}
use safa_os.Prelude.{
  ℕ, suc, ◌+◌, ◌*◌, ◌≤◌, ◌<◌, ◌≡◌, refl, ap, ◌∙◌, some, none, List, [], ◌∷◌, length, false, ◌==◌,
  Bool-cases, inl, inr, arith,
}
use safa_os.Prelude.Options.{◌>>=◌}
use safa_os.Terminal.Rgb.{Rgb}
use safa_os.Terminal.Pixels.{FrameBuffer}
use safa_os.Terminal.Screen.{draw_rows}
use safa_os.Terminal.Screen.Draws.{
  col_at, byte_at, row_at, Drawn, shape_trans, kept-ShowsByte, ShowsByte-kept, draw_cols-Drawn,
}

-- Every row ends inside of its line.
abbrev pub RowsFit : FrameBuffer → ℕ → List (List ℕ) → Type 0
RowsFit this x [] = Unit
RowsFit this x (row ∷ rows) = (x + length row ≤ this.stride) × RowsFit this x rows

-- The first `lines` lines are in the buffer.
abbrev pub HasLines : FrameBuffer → ℕ → Type 0
HasLines this lines = lines * this.stride * this.bytes_per_pixel ≤ length this.buffer

HasLines-le :
    (this : FrameBuffer) (few many : ℕ) → few ≤ many → HasLines this many → HasLines this few
HasLines-le this few many h lines =
    let once : this.stride * few ≤ this.stride * many = mul-le-mul_left this.stride h in
    let twice : this.bytes_per_pixel * (this.stride * few)
        ≤ this.bytes_per_pixel * (this.stride * many) =
      mul-le-mul_left this.bytes_per_pixel once in
    omega arith

byte_at-above :
    (x y : ℕ) (rows : List (List ℕ)) (px py : ℕ) → py < y → byte_at x y rows px py ≡ none
byte_at-above x y [] px py h = refl
byte_at-above x y (row ∷ rows) px py h =
    let other : (py == y) ≡ false = ground arith in
    rw other (byte_at-above x (suc y) rows px py (omega arith))

pub RowsFit-same :
    (this first : FrameBuffer) (x : ℕ) (rows : List (List ℕ))
    → first.stride ≡ this.stride
    → RowsFit this x rows
    → RowsFit first x rows
RowsFit-same this first x [] same fit = tt
RowsFit-same this first x (row ∷ rows) same (here, rest) =
    (rw same here, RowsFit-same this first x rows same rest)

module _ (fg bg : Rgb) where
  row-then-rows :
      (this first after : FrameBuffer) (x y : ℕ) (row : List ℕ) (rows : List (List ℕ))
      → Drawn this fg bg (row_at x y row) first
      → Drawn first fg bg (byte_at x (suc y) rows) after
      → Drawn this fg bg (byte_at x y (row ∷ rows)) after
  row-then-rows this first after x y row rows one rest = record {
    same_shape = shape_trans this first after one.same_shape rest.same_shape;
    pixels = λ px py hpx.
        let hpx' : px < first.stride = rw (one.same_shape.0) hpx in
        let soon = one.pixels px py hpx in
        let later = rest.pixels px py hpx' in
        elim (Bool-cases (py == y)) [
          | inl same ↦
              let at : py ≡ y = ground arith in
              let nothing_later : byte_at x (suc y) rows px py ≡ none =
                byte_at-above x (suc y) rows px py (omega arith) in
              let here : row_at x y row px py ≡ col_at x row px = rw same refl in
              rw same (
                ShowsByte-kept fg bg this first after px py (col_at x row px) (rw here at soon)
                  (rw nothing_later at later))
          | inr other ↦
              let nothing_soon : row_at x y row px py ≡ none = rw other refl in
              rw other (
                kept-ShowsByte fg bg this first after px py (byte_at x (suc y) rows px py)
                  one.same_shape.2 (rw nothing_soon at soon) later)
        ];
  }

  -- Drawing a raster whose rows fit in their lines, and whose lines are in the buffer, does not
  -- panic; each pixel shows the byte of the raster that falls on it, mixed of the two colours, and
  -- keeps what it showed if none does.
  pub draw_rows-Drawn :
      (this : FrameBuffer) (x y : ℕ) (rows : List (List ℕ))
      → 3 ≤ this.bytes_per_pixel
      → RowsFit this x rows
      → HasLines this (y + length rows)
      → (after : FrameBuffer) × (draw_rows this fg bg x y rows ≡ some after)
        × Drawn this fg bg (byte_at x y rows) after
  unfolding draw_rows
  draw_rows-Drawn this x y [] wide fit lines = (
    this,
    refl,
    record { same_shape = (refl, refl, refl, refl, refl, refl); pixels = λ px py hpx i hi. refl },
  )
  draw_rows-Drawn this x y (row ∷ rows) wide (here, fit) lines =
      let (first, runs, one) =
        draw_cols-Drawn fg bg this wide x y row here
          (HasLines-le this (suc y) (y + suc (length rows)) (omega arith) lines) in
      let (stride, bpp, format, index, video, size) = one.same_shape in
      let next : suc y + length rows ≡ y + suc (length rows) = omega arith in
      let (after, rest_runs, rest) =
        draw_rows-Drawn first x (suc y) rows (rw bpp wide)
          (RowsFit-same this first x rows stride fit) (rw (next, stride, bpp, size) lines) in
      (
        after,
        ap (λ o. o >>= λ f. draw_rows f fg bg x (suc y) rows) runs ∙ rest_runs,
        row-then-rows this first after x y row rows one rest,
      )
