-- ===== src/Terminal/Screen/Rasters.antt =====
-- Characters and scrolling on the screen of kernel/src/terminal/framebuffer.rs. The font, a crate,
-- is a parameter: the size of its rasters and the raster of a character, if it has one.
use safa_os.Prelude.{ℕ, ◌+◌, ◌-◌, ◌*◌, ◌/◌, ◌==◌, ltb, leb, ◌&&◌, if◌then◌else◌, Option, none, some}
use safa_os.Prelude.Options.{◌>>=◌, checked, checked_sub}
use safa_os.Terminal.Rgb.{Rgb}
use safa_os.Terminal.Pixels.{
  FrameBuffer, set_pixel, sync_pixels, shift_buffer, get_cursor, set_cursor,
}
use safa_os.Terminal.Pixels
use safa_os.Terminal.Screen.{Raster, Screen, draw_rows, blank_rows, newline, negated}

abbrev pub with_pixels : Screen → Option FrameBuffer → Option Screen
with_pixels this (some framebuffer) = some (record this { framebuffer = framebuffer })
with_pixels this none = none

abbrev pub synced : Screen → Option Screen
synced this = with_pixels this (sync_pixels this.framebuffer)

-- the font
module _ (raster_width raster_height : ℕ) (get_raster : ℕ → Option Raster) where
  abbrev pub get_x : Screen → Option ℕ
  get_x this = checked (this.cursor_x * raster_width)

  abbrev pub get_y : Screen → Option ℕ
  get_y this = checked (this.cursor_y * raster_height)

  -- The raster of the question mark is taken first, whether it is needed or not.
  unfoldable pub raster : ℕ → Option Raster
  raster c = elim (get_raster b'?') [
    | none ↦ none
    | some question ↦ elim (get_raster c) [ some found ↦ some found | none ↦ some question ]
  ]

  unfoldable pub scroll_down : Screen → Option Screen
  scroll_down this =
      let amount = this.framebuffer.stride * raster_height in
      with_pixels this (shift_buffer this.framebuffer amount)

  pub scroll_up : Screen → Option Screen
  scroll_up this =
      let amount = this.framebuffer.stride * raster_height in
      with_pixels this (shift_buffer this.framebuffer (negated amount))

  -- the line behind, when the raster does not fit in this one
  unfoldable pub wrapped : Screen → ℕ → ℕ → Option Screen
  wrapped this width x = if ltb this.framebuffer.stride (x + width) then newline this else some this

  -- scrolled by a line, when the raster does not fit in the window; `cursor` and `height` are of
  -- the window before
  unfoldable pub scrolled : Screen → ℕ → ℕ → Option Screen
  scrolled this height y =
      let framebuffer = this.framebuffer in
      let lines = get_cursor framebuffer / framebuffer.stride + Pixels.height framebuffer in
      if leb lines (y + height) then scroll_down this else some this

  unfoldable pub draw_at : Screen → Raster → Rgb → Rgb → ℕ → ℕ → Option Screen
  draw_at this raster fg bg x y =
      draw_rows this.framebuffer fg bg x y raster.raster >>= λ framebuffer.
      checked (this.cursor_x + 1) >>= λ cursor_x.
      some (record this { framebuffer = framebuffer; cursor_x = cursor_x })

  unfoldable pub draw_raster : Screen → Raster → Rgb → Rgb → Option Screen
  draw_raster this raster fg bg = (do
    x ← get_x this
    _ ← checked (x + raster.width)
    on_line ← wrapped this raster.width x
    y ← get_y on_line
    _ ← checked (y + raster.height)
    in_window ← scrolled on_line raster.height y
    x' ← get_x in_window
    y' ← get_y in_window
    draw_at in_window raster fg bg x' y')

  -- the place before the cursor, around the start of a line
  abbrev before_cursor : Screen → Option Screen
  before_cursor this =
      let on_line : Option Screen =
        checked_sub (Pixels.width this.framebuffer / raster_width) 1 >>= λ last.
        some (record this { cursor_x = last; cursor_y = this.cursor_y - 1 }) in
      if this.cursor_x == 0 && ltb 0 this.cursor_y
      then on_line
      else if ltb 0 this.cursor_x
      then some (record this { cursor_x = this.cursor_x - 1 })
      else some this

  unfoldable pub remove_char : Screen → Option Screen
  remove_char this = (do
    back ← before_cursor this
    x ← get_x back
    y ← get_y back
    with_pixels back (blank_rows back.framebuffer x y raster_width raster_height))

  unfoldable pub backspace : Screen → Option Screen
  backspace this = remove_char this >>= synced

  unfoldable pub putc_unsynced : ℕ → Screen → Option Screen
  putc_unsynced c this = raster c >>= λ found.
      if c == 10
      then newline this
      else if c == 13
      then some (record this { cursor_x = 0 })
      else draw_raster this found this.fg_color this.bg_color

  pub clear : Screen → Option Screen
  clear this =
      let stride = this.framebuffer.stride in
      let cleared = Pixels.clear this.framebuffer in
      let diff = get_cursor cleared / stride / raster_height in
      checked_sub this.cursor_y diff >>= λ y.
      synced (record this { framebuffer = set_cursor cleared 0; cursor_y = y })
