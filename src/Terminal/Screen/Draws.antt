-- ===== src/Terminal/Screen/Draws.antt =====
-- What drawing a raster does to the pixels.
use safa_os.Prelude.{
  ℕ, suc, ◌+◌, ◌-◌, ◌≤◌, ◌<◌, ◌≡◌, ◌≢◌, ◌⊎◌, inl, inr, refl, ap, ◌∙◌, Option, some, none, List, [],
  ◌∷◌, length, get_elem?, true, false, leb, ◌==◌, if◌then◌else◌, Bool-cases, ==-refl, arith,
}
use safa_os.Prelude.Options.{◌>>=◌}
use safa_os.Terminal.Rgb.{Rgb, with_alpha}
use safa_os.Terminal.Pixels.{FrameBuffer}
use safa_os.Terminal.Pixels.Writes.{HasLine, SameShape, Keeps, Shows, Painted, set_pixel-Painted}
use safa_os.Terminal.Screen.{draw_cols}

-- the byte of a row of a raster that falls on column `px`, when the row starts at column `x`
abbrev pub col_at : ℕ → List ℕ → ℕ → Option ℕ
col_at x row px = if leb x px then get_elem? row (px - x) else none

-- the byte of a raster that falls on a pixel, when its corner is at `x`, `y`
abbrev pub byte_at : ℕ → ℕ → List (List ℕ) → ℕ → ℕ → Option ℕ
byte_at x y [] px py = none
byte_at x y (row ∷ rows) px py = if py == y then col_at x row px else byte_at x (suc y) rows px py

module _ (this : FrameBuffer) (fg bg : Rgb) where
  -- A pixel shows the byte that falls on it, and keeps what it showed if none does.
  abbrev pub ShowsByte : FrameBuffer → ℕ → ℕ → Option ℕ → Type 0
  ShowsByte after px py (some byte) = Shows this after px py (with_alpha fg byte bg)
  ShowsByte after px py none = Keeps this after px py

  -- `after` is `this` with the bytes drawn that `falling` gives for each pixel.
  pub record Drawn (falling : ℕ → ℕ → Option ℕ) (after : FrameBuffer) : Type 0 where
    pub same_shape : SameShape this after
    pub pixels : (px py : ℕ) → px < this.stride → ShowsByte after px py (falling px py)

-- the byte of one row
abbrev pub row_at : ℕ → ℕ → List ℕ → ℕ → ℕ → Option ℕ
row_at x y row px py = if py == y then col_at x row px else none

col_at-here : (x byte : ℕ) (row : List ℕ) → col_at x (byte ∷ row) x ≡ some byte
col_at-here x byte row =
    let inside : leb x x ≡ true = ground arith in
    let first : x - x ≡ 0 = omega arith in rw (inside, first) refl

col_at-behind : (x : ℕ) (row : List ℕ) → col_at (suc x) row x ≡ none
col_at-behind x row = let outside : leb (suc x) x ≡ false = ground arith in rw outside refl

col_at-ne :
    (x byte : ℕ) (row : List ℕ) (px : ℕ) → px ≢ x → col_at x (byte ∷ row) px ≡ col_at (suc x) row px
col_at-ne x byte row px ne = elim (Bool-cases (leb (suc x) px)) [
  | inl right ↦
      let inside : leb x px ≡ true = ground arith in
      let next : px - x ≡ suc (px - suc x) = ground arith in rw (right, inside, next) refl
  | inr left ↦ let outside : leb x px ≡ false = ground arith in rw (left, outside) refl
]

row_at-empty : (x y px py : ℕ) → row_at x y [] px py ≡ none
row_at-empty x y px py = ground arith

same-or-not : (px py x y : ℕ) → ((px ≡ x) × (py ≡ y)) ⊎ ((px ≢ x) ⊎ (py ≢ y))
same-or-not px py x y = elim (Bool-cases (px == x)) [
  | inl here ↦ elim (Bool-cases (py == y)) [
    | inl same ↦ inl (ground arith, ground arith)
    | inr other ↦ inr (inr (ground arith))
  ]
  | inr other ↦ inr (inl (ground arith))
]

row_at-ne :
    (x y byte : ℕ) (row : List ℕ) (px py : ℕ)
    → (px ≢ x) ⊎ (py ≢ y)
    → row_at x y (byte ∷ row) px py ≡ row_at (suc x) y row px py
row_at-ne x y byte row px py (inl ne) =
    ap (λ o. if py == y then o else none) (col_at-ne x byte row px ne)
row_at-ne x y byte row px py (inr ne) =
    let other : (py == y) ≡ false = ground arith in rw other refl

pub shape_trans :
    (this first after : FrameBuffer)
    → SameShape this first
    → SameShape first after
    → SameShape this after
shape_trans this first after (a1, a2, a3, a4, a5, a6) (b1, b2, b3, b4, b5, b6) =
    (b1 ∙ a1, b2 ∙ a2, b3 ∙ a3, b4 ∙ a4, b5 ∙ a5, b6 ∙ a6)

module _ (fg bg : Rgb) (this first after : FrameBuffer) (px py : ℕ) where
  -- a pixel that the first change keeps
  pub kept-ShowsByte :
      (falling : Option ℕ)
      → first.pixel_format ≡ this.pixel_format
      → Keeps this first px py
      → ShowsByte first fg bg after px py falling
      → ShowsByte this fg bg after px py falling
  kept-ShowsByte (some byte) format kept shows = λ i hi. rw (← format) (shows i hi)
  kept-ShowsByte none format kept keeps = λ i hi. keeps i hi ∙ kept i hi

  -- a pixel that the second change keeps
  pub ShowsByte-kept :
      (falling : Option ℕ)
      → ShowsByte this fg bg first px py falling
      → Keeps first after px py
      → ShowsByte this fg bg after px py falling
  ShowsByte-kept (some byte) shows kept = λ i hi. kept i hi ∙ shows i hi
  ShowsByte-kept none keeps kept = λ i hi. kept i hi ∙ keeps i hi

module _ (fg bg : Rgb) where
  first-then-row :
      (this first after : FrameBuffer) (x y byte : ℕ) (row : List ℕ)
      → Painted this x y (with_alpha fg byte bg) first
      → Drawn first fg bg (row_at (suc x) y row) after
      → Drawn this fg bg (row_at x y (byte ∷ row)) after
  first-then-row this first after x y byte row painted drawn = record {
    same_shape = shape_trans this first after painted.same_shape drawn.same_shape;
    pixels = λ px py hpx.
        let hpx' : px < first.stride = rw (painted.same_shape.0) hpx in
        let later : ShowsByte first fg bg after px py (row_at (suc x) y row px py) =
          drawn.pixels px py hpx' in
        elim (same-or-not px py x y) [
          | inl (same_x, same_y) ↦
              let drawn_here : row_at x y (byte ∷ row) px py ≡ some byte =
                rw (same_x, same_y, ==-refl y) (col_at-here x byte row) in
              let drawn_later : row_at (suc x) y row px py ≡ none =
                rw (same_x, same_y, ==-refl y) (col_at-behind x row) in
              let shows : Shows this first px py (with_alpha fg byte bg) =
                rw (same_x, same_y) painted.painted in
              rw drawn_here (
                ShowsByte-kept fg bg this first after px py (some byte) shows
                  (rw drawn_later at later))
          | inr other ↦ rw (row_at-ne x y byte row px py other) (
              kept-ShowsByte fg bg this first after px py (row_at (suc x) y row px py)
                painted.same_shape.2 (painted.others px py hpx other) later)
        ];
  }

  pub draw_cols-Drawn :
      (this : FrameBuffer)
      → 3 ≤ this.bytes_per_pixel
      → (x y : ℕ) (row : List ℕ) → x + length row ≤ this.stride
      → HasLine this y
      → (after : FrameBuffer) × (draw_cols this fg bg x y row ≡ some after)
        × Drawn this fg bg (row_at x y row) after
  unfolding draw_cols
  draw_cols-Drawn this wide x y [] h line =
      (this, refl, record { same_shape = (refl, refl, refl, refl, refl, refl); pixels = nothing })
    where
      nothing :
          (px py : ℕ) → px < this.stride → ShowsByte this fg bg this px py (row_at x y [] px py)
      nothing px py hpx = rw (row_at-empty x y px py) (λ i hi. refl)
  draw_cols-Drawn this wide x y (byte ∷ row) h line =
      let (first, runs, painted) =
        set_pixel-Painted this wide x y (with_alpha fg byte bg) (omega arith) line in
      let (stride, bpp, format, index, video, size) = painted.same_shape in
      let (after, rest_runs, drawn) =
        draw_cols-Drawn first (rw bpp wide) (suc x) y row (rw stride (omega arith))
          (rw (stride, bpp, size) line) in
      (
        after,
        ap (λ o. o >>= λ f. draw_cols f fg bg (suc x) y row) runs ∙ rest_runs,
        first-then-row this first after x y byte row painted drawn,
      )
