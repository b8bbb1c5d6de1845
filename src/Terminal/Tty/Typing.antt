-- ===== src/Terminal/Tty/Typing.antt =====
-- Keys typed at a terminal.
use safa_os.Prelude.{◌<◌, ◌≡◌, ◌≢◌, true, false}
use safa_os.Terminal.Text.{PageString, without_last}
use safa_os.Keyboard.Keys.{Key, same_code, key_c, page_down, page_up, backspace}
use safa_os.Keyboard.Keymap.{map_key}
use safa_os.Terminal.Tty.{TtyInterface, Tty, without_last}

-- A key that has no meaning but its character.
pub record IsCharKey (key : Key) : Type 0 where
  pub not_page_down : same_code key.code page_down ≡ false
  pub not_page_up : same_code key.code page_up ≡ false
  pub not_key_c : same_code key.code key_c ≡ false
  pub not_backspace : same_code key.code backspace ≡ false
  pub has_char : (map_key key ≢ 0) × (map_key key < 0x110000)

abbrev pub backspace_key : Key
backspace_key = record { code = backspace; flags = 0 }

module _ (screen : TtyInterface) where
  -- a terminal that receives input and draws, with its two buffers
  abbrev pub at : PageString → PageString → screen.State → Tty screen
  at stdin stdout interface = record {
    stdout_buffer = stdout;
    stdin_buffer = stdin;
    recive_input = true;
    draw_graphics = true;
    interface = interface;
  }
