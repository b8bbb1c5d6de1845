-- ===== src/Terminal/Screen/Behind.antt =====
-- Characters behind the end of the buffer.
use safa_os.Prelude.{
  ℕ, ◌+◌, ◌*◌, ◌^◌, ◌≤◌, ◌<◌, ◌≡◌, refl, Option, none, List, ◌∷◌, length, false, ltb, some, inl,
  inr, arith,
}
use safa_os.Terminal.Rgb.{Rgb, with_alpha}
use safa_os.Terminal.Pixels.Writes.{set_pixel-none}
use safa_os.Terminal.Pixels.{FrameBuffer}
use safa_os.Terminal.Pixels.Window.{IsInside}
use safa_os.Terminal.Screen.{Raster, Screen, draw_cols, draw_rows}
use safa_os.Terminal.Screen.Rasters.{wrapped, draw_at, draw_raster}
use safa_os.Terminal.Screen.Characters.{checked_lt, scrolled-outcome, draws_nothing, draws_through}

module _ (raster_width raster_height : ℕ) (get_raster : ℕ → Option Raster) where
  rows_behind :
      (framebuffer : FrameBuffer) (fg bg : Rgb) (x y byte : ℕ) (row : List ℕ) (rows : List (List ℕ))
      → length framebuffer.buffer ≤ y * framebuffer.stride * framebuffer.bytes_per_pixel
      → draw_rows framebuffer fg bg x y ((byte ∷ row) ∷ rows) ≡ none
  unfolding draw_rows draw_cols
  rows_behind framebuffer fg bg x y byte row rows behind =
      rw (set_pixel-none framebuffer x y (with_alpha fg byte bg) behind) refl

  -- A raster that is not empty panics on a line behind the end of the buffer: scrolling stops there
  -- while the cursor goes on.
  pub draw_raster-none :
      (this : Screen) (width height byte : ℕ) (row : List ℕ) (rows : List (List ℕ)) (fg bg : Rgb)
      → IsInside this.framebuffer
      → this.framebuffer.stride * raster_height < 2 ^ 63
      → this.cursor_x * raster_width + width ≤ this.framebuffer.stride
      → this.framebuffer.stride < 2 ^ 64
      → this.cursor_y * raster_height + height < 2 ^ 64
      → length this.framebuffer.buffer
        ≤ this.cursor_y * raster_height * this.framebuffer.stride * this.framebuffer.bytes_per_pixel
      → draw_raster raster_width raster_height get_raster this
          (record { width = width; height = height; raster = (byte ∷ row) ∷ rows })
          fg
          bg
        ≡ none
  unfolding wrapped draw_at
  draw_raster-none this width height byte row rows fg bg inside small on_line word_x word_y behind =
      let x = this.cursor_x * raster_width in
      let y = this.cursor_y * raster_height in
      let stays : ltb this.framebuffer.stride (x + width) ≡ false = ground arith in
      let on_this : wrapped raster_width raster_height get_raster this width x ≡ some this =
        rw stays refl in
      let found : Raster = record {
        width = width;
        height = height;
        raster = (byte ∷ row) ∷ rows;
      } in
      elim (scrolled-outcome raster_width raster_height get_raster this height y inside small) [
        | inl fails ↦
            draws_nothing raster_width raster_height get_raster this this found fg bg x y
              (checked_lt _ (omega arith)) (checked_lt _ (omega arith)) on_this
              (checked_lt _ (omega arith)) (checked_lt _ word_y) fails
        | inr (moved, scrolls, buffer, stride, bpp) ↦
            let nothing =
              rows_behind moved fg bg x y byte row rows (rw (buffer, stride, bpp) behind) in
            draws_through raster_width raster_height get_raster this this
              (record this { framebuffer = moved }) none found fg bg x y x y
              (checked_lt _ (omega arith)) (checked_lt _ (omega arith)) on_this
              (checked_lt _ (omega arith)) (checked_lt _ word_y) scrolls
              (checked_lt _ (omega arith)) (checked_lt _ (omega arith)) (rw nothing refl)
      ]
