-- ===== src/Terminal/Screen/Characters.antt =====
-- A character on the screen: where it is drawn, and when it panics.
use safa_os.Prelude.{
  ℕ, ◌+◌, ◌*◌, ◌/◌, ◌^◌, ◌≤◌, ◌<◌, ◌≡◌, refl, ap, ◌∙◌, Option, none, some, min, ◌⊎◌, length, Bool,
  true, ltb, leb, if◌then◌else◌, Bool-cases, inl, inr, arith,
}
use safa_os.Prelude.Options.{checked}
use safa_os.Terminal.Rgb.{Rgb}
use safa_os.Terminal.Pixels.{FrameBuffer, get_cursor}
use safa_os.Terminal.Pixels
use safa_os.Terminal.Pixels.Window.{
  IsInside, clamped, last_index, MovedTo-IsInside, shift_buffer-Moves, shift_buffer-onwards,
}
use safa_os.Terminal.Screen.{Raster, Screen, newline, draw_rows}
use safa_os.Terminal.Screen.Rasters.{
  scroll_down, wrapped, scrolled, draw_at, draw_raster, with_pixels,
}
use safa_os.Terminal.Screen.Draws.{byte_at, Drawn}
use safa_os.Terminal.Screen.Lines.{RowsFit, RowsFit-same, HasLines, draw_rows-Drawn}

pub checked_lt : (n : ℕ) → n < 2 ^ 64 → checked n ≡ some n
checked_lt n h = let word : ltb n (2 ^ 64) ≡ true = ground arith in rw word refl

-- the place of the cursor for a raster: the start of the next line, when it does not fit in this
-- one
abbrev pub wraps : Screen → ℕ → ℕ → Bool
wraps this raster_width width = ltb this.framebuffer.stride (this.cursor_x * raster_width + width)

abbrev pub place_x : Screen → ℕ → ℕ → ℕ
place_x this raster_width width = if wraps this raster_width width then 0 else this.cursor_x

abbrev pub place_y : Screen → ℕ → ℕ → ℕ
place_y this raster_width width =
    if wraps this raster_width width then this.cursor_y + 1 else this.cursor_y

-- the screen with its pixels and its place given
abbrev pub with_place : Screen → FrameBuffer → ℕ → ℕ → Screen
with_place this framebuffer x y = record this {
  framebuffer = framebuffer;
  cursor_x = x;
  cursor_y = y;
}

-- whether a raster at the line of pixels `y` passes the last line of the window, which then moves
-- on
abbrev pub scrolls_at : FrameBuffer → ℕ → ℕ → Bool
scrolls_at framebuffer height y =
    leb (get_cursor framebuffer / framebuffer.stride + Pixels.height framebuffer) (y + height)

-- where the window is behind it: on by a line of characters, at most to the end of the buffer
abbrev pub window_at : ℕ → FrameBuffer → ℕ → ℕ → ℕ
window_at raster_height framebuffer height y =
    if scrolls_at framebuffer height y
    then min
        (framebuffer.buffer_display_index
          + framebuffer.stride * raster_height * framebuffer.bytes_per_pixel)
        (last_index framebuffer)
    else framebuffer.buffer_display_index

-- the scroll by a line of characters has numbers that fit in their words
abbrev pub ScrollFits : ℕ → FrameBuffer → Type 0
ScrollFits raster_height framebuffer =
    framebuffer.stride * raster_height * framebuffer.bytes_per_pixel
      + framebuffer.buffer_display_index
    < 2 ^ 64

module _ (raster_width raster_height : ℕ) (get_raster : ℕ → Option Raster) where
  -- A scroll keeps all but the window, which stays inside of the buffer.
  pub scrolled-IsInside :
      (this : Screen) (height y : ℕ)
      → IsInside this.framebuffer
      → this.framebuffer.stride * raster_height < 2 ^ 63
      → ScrollFits raster_height this.framebuffer
      → (moved : FrameBuffer) × (scrolled raster_width raster_height get_raster this height y
          ≡ some (record this { framebuffer = moved }))
        × (moved.buffer ≡ this.framebuffer.buffer)
        × (moved.stride ≡ this.framebuffer.stride)
        × (moved.bytes_per_pixel ≡ this.framebuffer.bytes_per_pixel)
        × IsInside moved
        × (moved.buffer_display_index ≡ window_at raster_height this.framebuffer height y)
  unfolding scrolled scroll_down
  scrolled-IsInside this height y inside small fits =
      let framebuffer = this.framebuffer in
      let amount = framebuffer.stride * raster_height in
      elim (Bool-cases (scrolls_at framebuffer height y)) [
        | inl below ↦
            let forward : ltb amount (2 ^ 63) ≡ true = ground arith in
            let (moved, runs, moves) =
              shift_buffer-Moves framebuffer inside amount (rw forward fits) in
            let at_most : clamped framebuffer amount ≤ last_index framebuffer =
              rw forward (omega arith) in
            (
              moved,
              rw below (ap (with_pixels this) runs),
              moves.same_buffer,
              moves.same_stride,
              moves.same_bytes_per_pixel,
              MovedTo-IsInside framebuffer moved _ inside at_most moves,
              rw below (rw forward at moves.at),
            )
        | inr above ↦ (framebuffer, rw above refl, refl, refl, refl, inside, rw above refl)
      ]

  -- A scroll panics or keeps the buffer with its sizes.
  pub scrolled-outcome :
      (this : Screen) (height y : ℕ)
      → IsInside this.framebuffer
      → this.framebuffer.stride * raster_height < 2 ^ 63
      → (scrolled raster_width raster_height get_raster this height y ≡ none)
        ⊎ ((moved : FrameBuffer) × (scrolled raster_width raster_height get_raster this height y
              ≡ some (record this { framebuffer = moved }))
            × (moved.buffer ≡ this.framebuffer.buffer)
            × (moved.stride ≡ this.framebuffer.stride)
            × (moved.bytes_per_pixel ≡ this.framebuffer.bytes_per_pixel))
  unfolding scrolled scroll_down
  scrolled-outcome this height y inside small =
      let framebuffer = this.framebuffer in
      elim (Bool-cases (scrolls_at framebuffer height y)) [
        | inl below ↦
            elim (shift_buffer-onwards framebuffer inside (framebuffer.stride * raster_height)
              small) [
                | inl fails ↦ inl (rw below (ap (with_pixels this) fails))
                | inr (moved, runs, buffer, stride, bpp) ↦
                    inr (moved, rw below (ap (with_pixels this) runs), buffer, stride, bpp)
              ]
        | inr above ↦ inr (framebuffer, rw above refl, refl, refl, refl)
      ]

  wrapped-place :
      (this : Screen) (width : ℕ)
      → this.cursor_y + 1 < 2 ^ 64
      → wrapped raster_width raster_height get_raster this width (this.cursor_x * raster_width)
        ≡ some (
            with_place this this.framebuffer
              (place_x this raster_width width)
              (place_y this raster_width width))
  unfolding wrapped newline
  wrapped-place this width small = elim (Bool-cases (wraps this raster_width width)) [
    | inl next ↦ rw (next, checked_lt (this.cursor_y + 1) small) refl
    | inr same ↦ rw same refl
  ]

  -- what `draw_raster` needs: numbers in a word, rasters that fit in a line, and the lines of the
  -- raster in the buffer
  pub record HasRoom (this : Screen) (found : Raster) : Type 0 where
    pub inside : IsInside this.framebuffer
    pub three_bytes : 3 ≤ this.framebuffer.bytes_per_pixel
    pub x_small : this.cursor_x * raster_width + found.width < 2 ^ 64
    pub y_small : (this.cursor_y + 1) * raster_height + found.height < 2 ^ 64
    pub cursor_small : (this.cursor_x + 1 < 2 ^ 64) × (this.cursor_y + 1 < 2 ^ 64)
    pub line_small : this.framebuffer.stride * raster_height < 2 ^ 63
    pub scroll_fits : ScrollFits raster_height this.framebuffer
    pub rows :
        RowsFit this.framebuffer (place_x this raster_width found.width * raster_width) found.raster
    pub lines :
        HasLines this.framebuffer
          (place_y this raster_width found.width * raster_height + length found.raster)

  -- The steps of `draw_raster` put together.
  pub draws_through :
      (this on_line in_window : Screen) (after : Option Screen) (found : Raster) (fg bg : Rgb)
      (x y x' y' : ℕ)
      → checked (this.cursor_x * raster_width) ≡ some x
      → checked (x + found.width) ≡ some (x + found.width)
      → wrapped raster_width raster_height get_raster this found.width x ≡ some on_line
      → checked (on_line.cursor_y * raster_height) ≡ some y
      → checked (y + found.height) ≡ some (y + found.height)
      → scrolled raster_width raster_height get_raster on_line found.height y ≡ some in_window
      → checked (in_window.cursor_x * raster_width) ≡ some x'
      → checked (in_window.cursor_y * raster_height) ≡ some y'
      → draw_at raster_width raster_height get_raster in_window found fg bg x' y' ≡ after
      → draw_raster raster_width raster_height get_raster this found fg bg ≡ after
  unfolding draw_raster
  draws_through this on_line in_window after found fg bg x y x' y' e1 e2 e3 e4 e5 e6 e7 e8 e9 =
      rw (e1, e2, e3, e4, e5, e6, e7, e8) e9

  -- a scroll that panics
  pub draws_nothing :
      (this on_line : Screen) (found : Raster) (fg bg : Rgb) (x y : ℕ)
      → checked (this.cursor_x * raster_width) ≡ some x
      → checked (x + found.width) ≡ some (x + found.width)
      → wrapped raster_width raster_height get_raster this found.width x ≡ some on_line
      → checked (on_line.cursor_y * raster_height) ≡ some y
      → checked (y + found.height) ≡ some (y + found.height)
      → scrolled raster_width raster_height get_raster on_line found.height y ≡ none
      → draw_raster raster_width raster_height get_raster this found fg bg ≡ none
  unfolding draw_raster
  draws_nothing this on_line found fg bg x y e1 e2 e3 e4 e5 e6 = rw (e1, e2, e3, e4, e5, e6) refl

  draws_at :
      (this : Screen) (after : FrameBuffer) (found : Raster) (fg bg : Rgb) (x y : ℕ)
      → this.cursor_x + 1 < 2 ^ 64
      → draw_rows this.framebuffer fg bg x y found.raster ≡ some after
      → draw_at raster_width raster_height get_raster this found fg bg x y
        ≡ some (with_place this after (this.cursor_x + 1) this.cursor_y)
  unfolding draw_at
  draws_at this after found fg bg x y small draws =
      rw (draws, checked_lt (this.cursor_x + 1) small) refl

  place-small :
      (this : Screen) (found : Raster)
      → HasRoom this found
      → (place_x this raster_width found.width * raster_width < 2 ^ 64)
        × (place_x this raster_width found.width + 1 < 2 ^ 64)
        × (place_y this raster_width found.width * raster_height + found.height < 2 ^ 64)
  place-small this found room = elim (Bool-cases (wraps this raster_width found.width)) [
    | inl next ↦ let small = room.y_small in rw next (omega arith, omega arith, small)
    | inr same ↦
        let small_x = room.x_small in
        let small_y = room.y_small in
        let one_less : this.cursor_y * raster_height + found.height
            ≤ (this.cursor_y + 1) * raster_height + found.height =
          omega arith in
        rw same (omega arith, room.cursor_small.0, omega arith)
  ]

  -- With room for it, a raster is drawn without a panic: at the cursor, or at the start of the next
  -- line when it does not fit in this one. When it passes the last line of the window, the window
  -- moves on by a line of characters, at most to the end of the buffer, and else it stays; each
  -- pixel shows the byte that falls on it or what it showed, and the cursor ends one place behind.
  pub draw_raster-Drawn :
      (this : Screen) (found : Raster) (fg bg : Rgb)
      → HasRoom this found
      → (moved after : FrameBuffer) × (draw_raster raster_width raster_height get_raster this found
            fg bg
          ≡ some (
              with_place this after
                (place_x this raster_width found.width + 1)
                (place_y this raster_width found.width)))
        × (moved.buffer ≡ this.framebuffer.buffer)
        × IsInside after
        × (after.buffer_display_index
            ≡ window_at raster_height this.framebuffer found.height
                (place_y this raster_width found.width * raster_height))
        × Drawn moved fg bg
            (byte_at
              (place_x this raster_width found.width * raster_width)
              (place_y this raster_width found.width * raster_height)
              found.raster)
            after
  draw_raster-Drawn this found fg bg room =
      let x = place_x this raster_width found.width in
      let y = place_y this raster_width found.width in
      let on_line = with_place this this.framebuffer x y in
      let (x_word, next_word, y_word) = place-small this found room in
      let (moved, scrolls, buffer, stride, bpp, inside, place) =
        scrolled-IsInside on_line found.height (y * raster_height) room.inside room.line_small
          room.scroll_fits in
      let (after, draws, drawn) =
        draw_rows-Drawn fg bg moved (x * raster_width) (y * raster_height) found.raster
          (rw bpp room.three_bytes)
          (RowsFit-same this.framebuffer moved (x * raster_width) found.raster stride room.rows)
          (rw (stride, bpp, buffer) room.lines) in
      let (_, _, _, index, video, size) = drawn.same_shape in
      (
        moved,
        after,
        draws_through this on_line (record on_line { framebuffer = moved })
            (some (with_place this after (x + 1) y)) found fg bg (this.cursor_x * raster_width)
            (y * raster_height) (x * raster_width) (y * raster_height)
            (checked_lt _ (omega (arith, room.x_small))) (checked_lt _ room.x_small)
            (wrapped-place this found.width room.cursor_small.1) (checked_lt _ (omega arith))
            (checked_lt _ y_word) scrolls (checked_lt _ x_word) (checked_lt _ (omega arith))
            (draws_at (record on_line { framebuffer = moved }) after found fg bg (x * raster_width)
              (y * raster_height) next_word draws),
        buffer,
        rw (index, video, size) inside,
        index ∙ place,
        drawn,
      )
