-- ===== src/Terminal/Screen.antt =====
-- `FrameBufferTTY` of kernel/src/terminal/framebuffer.rs: a screen with a cursor and two colours.
-- `none` is a panic, as an overflow of a word is.
use safa_os.Prelude.{
  ℕ, zero, suc, ◌+◌, ◌-◌, ◌*◌, ◌/◌, ◌%◌, ◌^◌, ◌==◌, ltb, leb, Bool, true, false, ◌&&◌,
  if◌then◌else◌, Option, none, some, List, [], ◌∷◌, get_elem?, length,
}
use safa_os.Prelude.Options.{◌>>=◌, ◌>>◌, checked, checked_sub}
use safa_os.Terminal.Rgb.{Rgb, with_alpha}
use safa_os.Terminal.Rgb
use safa_os.Terminal.Pixels.{
  FrameBuffer, set_pixel, sync_pixels, shift_buffer, get_cursor, set_cursor,
}
use safa_os.Terminal.Pixels
pub mod Graphics
pub mod Rasters
pub mod Texts
pub mod Draws
pub mod Lines
pub mod Characters
pub mod Behind

pub record Raster : Type 0 where
  pub width : ℕ
  pub height : ℕ
  pub raster : List (List ℕ)

-- the two loops of `draw_raster`
unfoldable pub draw_cols : FrameBuffer → Rgb → Rgb → ℕ → ℕ → List ℕ → Option FrameBuffer
draw_cols framebuffer fg bg x y [] = some framebuffer
draw_cols framebuffer fg bg x y (byte ∷ row) =
    set_pixel framebuffer x y (with_alpha fg byte bg) >>= λ framebuffer'.
    draw_cols framebuffer' fg bg (suc x) y row

unfoldable pub draw_rows : FrameBuffer → Rgb → Rgb → ℕ → ℕ → List (List ℕ) → Option FrameBuffer
draw_rows framebuffer fg bg x y [] = some framebuffer
draw_rows framebuffer fg bg x y (row ∷ rows) =
    draw_cols framebuffer fg bg x y row >>= λ framebuffer'.
    draw_rows framebuffer' fg bg x (suc y) rows

-- the two loops of `remove_char`
unfoldable pub blank_cols : FrameBuffer → ℕ → ℕ → ℕ → Option FrameBuffer
blank_cols framebuffer x y zero = some framebuffer
blank_cols framebuffer x y (suc cols) =
    set_pixel framebuffer x y (Rgb.new 0 0 0) >>= λ framebuffer'.
    blank_cols framebuffer' (suc x) y cols

unfoldable pub blank_rows : FrameBuffer → ℕ → ℕ → ℕ → ℕ → Option FrameBuffer
blank_rows framebuffer x y cols zero = some framebuffer
blank_rows framebuffer x y cols (suc rows) =
    blank_cols framebuffer x y cols >>= λ framebuffer'. blank_rows framebuffer' x (suc y) cols rows

pub record Screen : Type 0 where
  pub framebuffer : FrameBuffer
  pub cursor_x : ℕ
  pub cursor_y : ℕ
  pub fg_color : Rgb
  pub bg_color : Rgb

abbrev pub default_fg_color : Rgb
default_fg_color = Rgb.white

abbrev pub default_bg_color : Rgb
default_bg_color = Rgb.black

-- the buffer grows to four times the size of the screen
pub new : FrameBuffer → Screen
new driver =
    let size_pixels = Pixels.width driver * Pixels.height driver in
    let size = size_pixels * driver.bytes_per_pixel in
    record {
      framebuffer = Pixels.increase_buffer driver (size * 3);
      cursor_x = 0;
      cursor_y = 0;
      fg_color = default_fg_color;
      bg_color = default_bg_color;
    }

unfoldable pub newline : Screen → Option Screen
newline this =
    checked (this.cursor_y + 1) >>= λ y. some (record this { cursor_x = 0; cursor_y = y })

pub move_cursor : Screen → ℕ → ℕ → Screen
move_cursor this x y = record this { cursor_x = x; cursor_y = y }

-- the sum of two words of `isize`; `none` when the sign overflows
abbrev pub add_isize : ℕ → ℕ → Option ℕ
add_isize a b =
    let sum = (a + b) % 2 ^ 64 in
    let negative = λ (n : ℕ). leb (2 ^ 63) n in
    if negative a
    then (if negative b then (if negative sum then some sum else none) else some sum)
    else (if negative b then some sum else (if negative sum then none else some sum))

abbrev pub negated : ℕ → ℕ
negated n = (2 ^ 64 - n) % 2 ^ 64

unfoldable pub offset_cursor : Screen → ℕ → ℕ → Option Screen
offset_cursor this x y = (do
  x' ← add_isize this.cursor_x x
  y' ← add_isize this.cursor_y y
  some (record this { cursor_x = x'; cursor_y = y' }))
