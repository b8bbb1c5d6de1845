-- ===== src/Terminal/Screen/Texts.antt =====
-- Texts with escape sequences on the screen of kernel/src/terminal/framebuffer.rs.
use safa_os.Prelude.{ℕ, zero, suc, Option, some, List, [], ◌∷◌, length}
use safa_os.Prelude.Options.{◌>>=◌}
use safa_os.Terminal.Runs.{Run, ran, panicked, endless, and_then, of_option}
use safa_os.Utils.Ansi.{
  AnsiSequence, cursor_pos, cursor_up, cursor_down, cursor_forward, cursor_backward, erase_display,
  set_graphics_mode, Item, escape, plain, Next, finished, crashed, item,
}
use safa_os.Utils.Ansi
use safa_os.Terminal.Screen.{Raster, Screen, move_cursor, offset_cursor, negated}
use safa_os.Terminal.Screen.Graphics.{handle_set_graphics_mode}
use safa_os.Terminal.Screen.Rasters.{
  clear, putc_unsynced, synced, backspace, scroll_down, scroll_up,
}
use safa_os.Terminal.Tty.{TtyInterface}

-- the font
module _ (raster_width raster_height : ℕ) (get_raster : ℕ → Option Raster) where
  unfoldable pub handle_escape_sequence : AnsiSequence → Screen → Option Screen
  handle_escape_sequence (set_graphics_mode params) this =
      some (handle_set_graphics_mode params this)
  handle_escape_sequence (cursor_up count) this = offset_cursor this 0 (negated count)
  handle_escape_sequence (cursor_down count) this = offset_cursor this 0 count
  handle_escape_sequence (cursor_forward count) this = offset_cursor this count 0
  handle_escape_sequence (cursor_backward count) this = offset_cursor this (negated count) 0
  handle_escape_sequence (cursor_pos x y) this = some (move_cursor this x y)
  handle_escape_sequence erase_display this = clear raster_width raster_height get_raster this

  unfoldable pub put_chars : List ℕ → Screen → Option Screen
  put_chars [] this = some this
  put_chars (c ∷ chars) this =
      putc_unsynced raster_width raster_height get_raster c this >>= put_chars chars

  abbrev pub handle_item : Item → Screen → Option Screen
  handle_item (escape ansi) this = handle_escape_sequence ansi this
  handle_item (plain text) this = put_chars text this

  -- the items of a text, one for each step; `endless` when the steps are used up
  unfoldable pub write_items : ℕ → List ℕ → Screen → Run Screen
  write_items zero text this = endless
  write_items (suc steps) text this = elim (Ansi.next text) [
    | finished ↦ ran this
    | crashed ↦ panicked
    | item found rest ↦ and_then (of_option (handle_item found this)) (write_items steps rest)
  ]

  -- `write_str_unsynced`, with a step for each character and two more
  abbrev pub write_str_unsynced : List ℕ → Screen → Run Screen
  write_str_unsynced text this = write_items (suc (suc (length text))) text this

  pub write_str : List ℕ → Screen → Run Screen
  write_str text this = and_then (write_str_unsynced text this) (λ this'. of_option (synced this'))

  unfoldable pub write_char : ℕ → Screen → Option Screen
  write_char c this = putc_unsynced raster_width raster_height get_raster c this >>= synced

  -- the screen as what a terminal uses
  abbrev pub frame_buffer_tty : TtyInterface
  frame_buffer_tty = record {
    State = Screen;
    write_str = write_str;
    write_char = λ c this. of_option (write_char c this);
    backspace = λ this. of_option (backspace raster_width raster_height get_raster this);
    set_cursor = λ x y this. ran (move_cursor this x y);
    scroll_down = λ this. of_option (scroll_down raster_width raster_height get_raster this);
    scroll_up = λ this. of_option (scroll_up raster_width raster_height get_raster this);
    clear = λ this. of_option (clear raster_width raster_height get_raster this);
  }
