-- ===== src/Terminal/Tests.antt =====
-- A screen of two lines of two pixels, and a terminal on it.
use safa_os.Prelude.{
  ℕ, ◌≡◌, ◌⊎◌, refl, true, false, Option, none, some, List, [], ◌∷◌, replicate, arith, ok, err,
}
use safa_os.Terminal.Rgb.{r, g, b, with_alpha, white, black, bytes}
use safa_os.Terminal.Rgb.Channels.{Between, with_alpha-Between}
use safa_os.Terminal.Pixels.{
  FrameBuffer, bgr, shift_buffer, shift_on, set_pixel, copy_to, sync_pixels,
}
use safa_os.Terminal.Pixels.Window.{IsInside, MovedTo, shift_buffer-Moves}
use safa_os.Terminal.Screen.{Screen, Raster, draw_cols, draw_rows, newline, blank_rows, blank_cols}
use safa_os.Terminal.Screen.Rasters.{
  draw_raster, draw_at, wrapped, scrolled, scroll_down, putc_unsynced, backspace, remove_char,
  raster,
}
use safa_os.Terminal.Screen.Texts.{write_char, frame_buffer_tty}
use safa_os.Terminal.Screen.Draws.{byte_at, Drawn}
use safa_os.Terminal.Screen.Characters.{HasRoom, with_place, draw_raster-Drawn}
use safa_os.Terminal.Screen.Behind.{draw_raster-none}
use safa_os.Terminal.Runs.{ran}
use safa_os.Terminal.Text.{pop, push_char, ends_with}
use safa_os.Terminal.Text.Chars.{pop-push_char}
use safa_os.Terminal.Tty.{TtyInterface, Tty, read}
use safa_os.Terminal.Tty.Reads.{ReadFrom, CallReturns, read-ReadFrom}
use safa_os.Keyboard.Keys.{Key, key_w, same_code}
use safa_os.Keyboard.Keymap.{map_key}
use safa_os.Vfs.Types.{resource_busy}

with_alpha-Between_example :
    Between (r white) (r black) (r (with_alpha white 100 black))
    × Between (g white) (g black) (g (with_alpha white 100 black))
    × Between (b white) (b black) (b (with_alpha white 100 black))
with_alpha-Between_example = with_alpha-Between white black 100 (omega arith)

-- four lines of two pixels, of which two are shown
abbrev frames : FrameBuffer
frames = record {
  stride = 2;
  bytes_per_pixel = 4;
  pixel_format = bgr;
  buffer_display_index = 0;
  buffer = replicate 32 0;
  video_buffer = replicate 16 0;
}

abbrev one_down : FrameBuffer
one_down = record frames { buffer_display_index = 8 }

shift_buffer-Moves_example :
    (after : FrameBuffer) × (shift_buffer frames 2 ≡ some after) × MovedTo frames 8 after
shift_buffer-Moves_example = shift_buffer-Moves frames (omega arith) 2 (omega arith)

abbrev dot : Raster
dot = record { width = 1; height = 1; raster = (255 ∷ []) ∷ [] }

abbrev no_font : ℕ → Option Raster
no_font c = none

abbrev screen_at : ℕ → Screen
screen_at y = record {
  framebuffer = frames;
  cursor_x = 1;
  cursor_y = y;
  fg_color = white;
  bg_color = black;
}

has_room : HasRoom 1 1 no_font (screen_at 2) dot
has_room = record {
  inside = omega arith;
  three_bytes = omega arith;
  x_small = omega arith;
  y_small = omega arith;
  cursor_small = (omega arith, omega arith);
  line_small = omega arith;
  scroll_fits = omega arith;
  rows = (omega arith, tt);
  lines = omega arith;
}

draw_raster-Drawn_example :
    (moved after : FrameBuffer) × (draw_raster 1 1 no_font (screen_at 2) dot white black
      ≡ some (with_place (screen_at 2) after 2 2))
    × (moved.buffer ≡ frames.buffer)
    × IsInside after
    × (after.buffer_display_index ≡ 8)
    × Drawn moved white black (byte_at 1 2 ((255 ∷ []) ∷ [])) after
draw_raster-Drawn_example = draw_raster-Drawn 1 1 no_font (screen_at 2) dot white black has_room

draw_raster-none_example : draw_raster 1 1 no_font (screen_at 4) dot white black ≡ none
draw_raster-none_example =
    draw_raster-none 1 1 no_font (screen_at 4) 1 1 255 [] [] white black (omega arith) (omega arith)
      (omega arith) (omega arith) (omega arith) (omega arith)

pop-push_char_example : pop (push_char (b'a' ∷ []) 0x20AC) ≡ some (0x20AC, b'a' ∷ [])
pop-push_char_example = pop-push_char (b'a' ∷ []) 0x20AC (omega arith)

-- a font with one raster for all characters, and the screen behind a terminal
abbrev dots : ℕ → Option Raster
dots c = some dot

abbrev real : TtyInterface
real = frame_buffer_tty 1 1 dots

-- the screen behind a call that returns
abbrev screen_or : Screen → Option Screen → Screen
screen_or this none = this
screen_or this (some after) = after

abbrev erased : Screen → Screen
erased this = screen_or this (backspace 1 1 dots this)

abbrev drawn : ℕ → Screen → Screen
drawn c this = screen_or this (write_char 1 1 dots c this)

abbrev w_key : Key
w_key = record { code = key_w; flags = 0 }

abbrev first : Screen
first = screen_at 0

abbrev typed_w : Screen
typed_w = drawn b'_' (drawn (map_key w_key) (erased first))

abbrev erased_w : Screen
erased_w = drawn b'_' (erased (erased typed_w))

hides : real.backspace (first) ≡ ran (erased first)
unfolding backspace write_char remove_char raster blank_rows blank_cols draw_raster draw_at
    draw_rows draw_cols set_pixel copy_to sync_pixels scrolled wrapped newline putc_unsynced map_key
    same_code scroll_down shift_buffer shift_on bytes
hides = refl

abbrev tty : Tty real
tty = record {
  stdout_buffer = [];
  stdin_buffer = b'a' ∷ 10 ∷ [];
  recive_input = true;
  draw_graphics = true;
  interface = first;
}

tty_returns : CallReturns real tty
tty_returns = record {
  erases = λ _ _. (erased first, hides);
  draws = λ incomplete off _. (first, cc);
}

read-ReadFrom_example :
    ((bytes : List ℕ) × (after : Tty real) × (ends_with (b'a' ∷ 10 ∷ []) 10 ≡ true)
      × (read real 1 tty ≡ ran (ok bytes, after))
      × ReadFrom 1 (b'a' ∷ 10 ∷ []) bytes after.stdin_buffer
      × (after.recive_input ≡ false))
    ⊎ ((after : Tty real) × (ends_with (b'a' ∷ 10 ∷ []) 10 ≡ false)
        × (read real 1 tty ≡ ran (err resource_busy, after))
        × (after.stdin_buffer ≡ b'a' ∷ 10 ∷ [])
        × (after.recive_input ≡ true))
read-ReadFrom_example = read-ReadFrom real 1 tty tty_returns
