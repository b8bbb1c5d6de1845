-- ===== src/Terminal/Tty.antt =====
-- `TTY` of kernel/src/terminal/mod.rs over the interface `TTYInterface`, and its character device
-- of kernel/src/devices/tty.rs. A text is the list of its characters as code points.
use safa_os.Prelude.{
  ℕ, ◌==◌, ◌+◌, leb, Bool, true, false, not, ◌&&◌, if◌then◌else◌, Option, none, some, List, [], ◌∷◌,
  ◌++◌, length, take, drop, bit_and, Result, ok, err,
}
use safa_os.Terminal.Runs.{Run, ran, panicked, ◌>>=◌, ◌>>◌, of_option}
use safa_os.Terminal.Text.{
  PageString, encode_utf8, push_str, push_char, is_empty, without_last, ends_with,
}
use safa_os.Terminal.Text
use safa_os.Keyboard.Keys.{
  Key, KeyCode, same_code, key_c, page_down, page_up, backspace, ctrl_flag, shift_flag,
}
use safa_os.Keyboard.Keymap.{map_key}
use safa_os.Vfs.Types.{FsError, resource_busy}
use safa_os.Vfs.Types
pub mod Typing
pub mod Reads

-- what a terminal uses of the screen behind it
pub record TtyInterface : Type 1 where
  pub State : Type 0
  pub write_str : List ℕ → State → Run State
  pub write_char : ℕ → State → Run State
  pub backspace : State → Run State
  pub set_cursor : ℕ → ℕ → State → Run State
  pub scroll_down : State → Run State
  pub scroll_up : State → Run State
  pub clear : State → Run State

-- the bytes of a text
unfoldable pub as_bytes : List ℕ → List ℕ
as_bytes [] = []
as_bytes (c ∷ chars) = encode_utf8 c ++ as_bytes chars

-- `recive_input` and `draw_graphics` are the bits of `TTYSettings`.
pub record Tty (screen : TtyInterface) : Type 0 where
  pub stdout_buffer : PageString
  pub stdin_buffer : PageString
  pub recive_input : Bool
  pub draw_graphics : Bool
  pub interface : screen.State

module _ (screen : TtyInterface) where
  abbrev with_interface : Tty screen → screen.State → Tty screen
  with_interface this interface = record this { interface = interface }

  pub new : screen.State → Tty screen
  new interface = record {
    stdout_buffer = Text.new;
    stdin_buffer = Text.new;
    recive_input = false;
    draw_graphics = true;
    interface = interface;
  }

  unfoldable pub write_str : List ℕ → Tty screen → Run (Tty screen)
  write_str s this =
      let drawn = screen.write_str s this.interface >>= λ interface. ran (record this {
        interface = interface;
        stdout_buffer = push_str this.stdout_buffer (as_bytes s);
      }) in
      if this.draw_graphics then drawn else ran this

  unfoldable pub write_char : ℕ → Tty screen → Run (Tty screen)
  write_char c this =
      let drawn = screen.write_char c this.interface >>= λ interface.
      ran (record this { interface = interface; stdout_buffer = push_char this.stdout_buffer c }) in
      if this.draw_graphics then drawn else ran this

  pub clear : Tty screen → Run (Tty screen)
  clear this = (do
    cleared ← screen.clear this.interface
    home ← screen.set_cursor 0 0 cleared
    ran (record this { interface = home; stdout_buffer = [] }))

  abbrev pub erase : Tty screen → Run (Tty screen)
  erase this = screen.backspace this.interface >>= λ interface. ran (with_interface this interface)

  unfoldable pub enable_input : Tty screen → Run (Tty screen)
  enable_input this =
      let enabled = write_char b'_' (record this { recive_input = true }) in
      if not this.recive_input then enabled else ran this

  unfoldable pub disable_input : Tty screen → Run (Tty screen)
  disable_input this =
      let disabled = erase (record this { recive_input = false }) in
      if this.recive_input then disabled else ran this

  -- the cursor is removed from the screen
  abbrev pub hide_cursor : Tty screen → Run (Tty screen)
  hide_cursor this = if this.recive_input then erase this else ran this

  -- and put back
  abbrev pub show_cursor : Tty screen → Run (Tty screen)
  show_cursor this = if this.recive_input then write_char b'_' this else ran this

  abbrev pub popped : Tty screen → Tty screen
  popped this = record this {
    stdin_buffer = without_last this.stdin_buffer;
    stdout_buffer = without_last this.stdout_buffer;
  }

  unfoldable pub peform_backspace : Tty screen → Run (Tty screen)
  peform_backspace this =
      let erased = hide_cursor this >>= λ cursor_gone.
      erase cursor_gone >>= λ char_gone. show_cursor (popped char_gone) in
      if is_empty this.stdin_buffer then ran this else erased

  -- the branch of a key that has no other meaning
  unfoldable pub typed : Key → Tty screen → Run (Tty screen)
  typed key this =
      let char = map_key key in
      let entered = λ (at : Tty screen). write_char char at >>= λ written.
      ran (record written { stdin_buffer = push_char written.stdin_buffer char }) in
      let input = erase this >>= λ cursor_gone.
      (if char == 0 then ran cursor_gone else entered cursor_gone) >>= λ after.
      write_char b'_' after in
      if this.recive_input then input else ran this

  -- `spawned` tells whether the shell starts, which is another component's; if not, `unwrap`
  -- panics.
  unfoldable pub handle_key : Bool → Key → Tty screen → Run (Tty screen)
  handle_key spawned key this =
      let down =
        screen.scroll_down this.interface >>= λ interface. ran (with_interface this interface) in
      let up =
        screen.scroll_up this.interface >>= λ interface. ran (with_interface this interface) in
      let shell = clear this >>= λ cleared. if spawned then ran cleared else panicked in
      if same_code key.code page_down
      then down
      else if same_code key.code page_up
      then up
      else if same_code key.code key_c
          && bit_and key.flags (ctrl_flag + shift_flag) == ctrl_flag + shift_flag
      then shell
      else if same_code key.code backspace && this.recive_input
      then peform_backspace this
      else typed key this

  -- the bytes of a line, at most `room`; before its end, the terminal starts to receive input
  unfoldable pub read : ℕ → Tty screen → Run (Result {0, 0} (List ℕ) FsError × Tty screen)
  read room this =
      let waits = enable_input this >>= λ enabled. ran (err resource_busy, enabled) in
      let line = disable_input this >>= λ disabled.
      let count =
        if leb (length disabled.stdin_buffer) room then length disabled.stdin_buffer else room in
      ran (
        ok (take count disabled.stdin_buffer),
        record disabled { stdin_buffer = drop count disabled.stdin_buffer },
      ) in
      if ends_with this.stdin_buffer 10 then line else waits

  -- `lossy` is `String::from_utf8_lossy`
  pub write : (List ℕ → List ℕ) → List ℕ → Tty screen → Run (ℕ × Tty screen)
  write lossy buffer this =
      write_str (lossy buffer) this >>= λ written. ran (length buffer, written)
