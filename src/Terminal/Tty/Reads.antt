-- ===== src/Terminal/Tty/Reads.antt =====
-- Lines read from a terminal.
use safa_os.Prelude.{
  ℕ, zero, suc, ◌≡◌, refl, ◌⊎◌, true, false, leb, if◌then◌else◌, Bool-cases, inl, inr, [], ◌∷◌,
  ◌++◌, length, take, drop, min, take-append-drop, length-take, ok, err, arith,
}
use safa_os.Terminal.Runs.{ran}
use safa_os.Terminal.Text.{PageString, ends_with, push_char}
use safa_os.Vfs.Types.{resource_busy}
use safa_os.Terminal.Tty.{TtyInterface, Tty, write_char, enable_input, disable_input, read}

-- What is left of a line still ends in its last byte.
ends_with-drop :
    (n : ℕ) (line : PageString) (c : ℕ)
    → ends_with line c ≡ true
    → (drop n line ≡ []) ⊎ (ends_with (drop n line) c ≡ true)
unfolding ends_with
ends_with-drop zero line c h = inr h
ends_with-drop (suc n) [] c h = inl refl
ends_with-drop (suc zero) (byte ∷ []) c h = inl refl
ends_with-drop (suc (suc n)) (byte ∷ []) c h = inl refl
ends_with-drop (suc n) (byte ∷ next ∷ rest) c h = ends_with-drop n (next ∷ rest) c h

-- the part of the line that a read gives, and what a later read finds
pub record ReadFrom (room : ℕ) (line bytes left : PageString) : Type 0 where
  pub whole : bytes ++ left ≡ line
  pub size : length bytes ≡ min (length line) room
  pub goes_on : (left ≡ []) ⊎ (ends_with left 10 ≡ true)

-- The call of the screen that a read makes in a state returns: the cursor is taken off behind a
-- complete line, and drawn before, where the terminal does not receive input yet.
pub record CallReturns (screen : TtyInterface) (this : Tty screen) : Type 0 where
  pub erases :
      ends_with this.stdin_buffer 10 ≡ true
      → this.recive_input ≡ true
      → (s : screen.State) × (screen.backspace this.interface ≡ ran s)
  pub draws :
      ends_with this.stdin_buffer 10 ≡ false
      → this.recive_input ≡ false
      → this.draw_graphics ≡ true
      → (s : screen.State) × (screen.write_char b'_' this.interface ≡ ran s)

module _ (screen : TtyInterface) where
  disable_input-ran :
      (this : Tty screen)
      → (this.recive_input ≡ true → (s : screen.State) × (screen.backspace this.interface ≡ ran s))
      → (after : Tty screen) × (disable_input screen this ≡ ran after)
        × (after.stdin_buffer ≡ this.stdin_buffer)
        × (after.recive_input ≡ false)
  unfolding disable_input
  disable_input-ran this erases = elim (Bool-cases this.recive_input) [
    | inl on ↦
        let (s, e) = erases on in
        (record this { recive_input = false; interface = s }, rw (on, e) refl, refl, refl)
    | inr off ↦ (this, rw off refl, refl, off)
  ]

  write_char-ran :
      (c : ℕ) (this : Tty screen)
      → (this.draw_graphics ≡ true
          → (s : screen.State) × (screen.write_char c this.interface ≡ ran s))
      → (after : Tty screen) × (write_char screen c this ≡ ran after)
        × (after.stdin_buffer ≡ this.stdin_buffer)
        × (after.recive_input ≡ this.recive_input)
  unfolding write_char
  write_char-ran c this returns = elim (Bool-cases this.draw_graphics) [
    | inl draws ↦
        let (s, e) = returns draws in
        (
          record this { interface = s; stdout_buffer = push_char this.stdout_buffer c },
          rw (draws, e) refl,
          refl,
          refl,
        )
    | inr silent ↦ (this, rw silent refl, refl, refl)
  ]

  enable_input-ran :
      (this : Tty screen)
      → (this.recive_input ≡ false
          → this.draw_graphics ≡ true
          → (s : screen.State) × (screen.write_char b'_' this.interface ≡ ran s))
      → (after : Tty screen) × (enable_input screen this ≡ ran after)
        × (after.stdin_buffer ≡ this.stdin_buffer)
        × (after.recive_input ≡ true)
  unfolding enable_input
  enable_input-ran this draws = elim (Bool-cases this.recive_input) [
    | inl on ↦ (this, rw on refl, refl, on)
    | inr off ↦
        let (after, runs, stdin, input) =
          write_char-ran b'_' (record this { recive_input = true }) (draws off) in
        (after, rw off runs, stdin, input)
  ]

  abbrev count : ℕ → PageString → ℕ
  count room line = if leb (length line) room then length line else room

  count-ReadFrom :
      (room : ℕ) (line : PageString)
      → ends_with line 10 ≡ true
      → ReadFrom room line (take (count room line) line) (drop (count room line) line)
  count-ReadFrom room line ends = record {
    whole = take-append-drop (count room line) line;
    size =
        let least : count room line ≡ min (length line) room = ground arith in
        rw (length-take, least) (omega arith);
    goes_on = ends_with-drop (count room line) line 10 ends;
  }

  -- When the call of the screen that it makes returns, a read of a line that is complete gives its
  -- first bytes, as many as there is room for, and keeps the others for the next read, and the
  -- terminal does not receive input any more; before the line is complete it gives nothing, keeps
  -- the text, and starts to receive input.
  pub read-ReadFrom :
      (room : ℕ) (this : Tty screen)
      → CallReturns screen this
      → ((bytes : PageString) × (after : Tty screen) × (ends_with this.stdin_buffer 10 ≡ true)
          × (read screen room this ≡ ran (ok bytes, after))
          × ReadFrom room this.stdin_buffer bytes after.stdin_buffer
          × (after.recive_input ≡ false))
        ⊎ ((after : Tty screen) × (ends_with this.stdin_buffer 10 ≡ false)
            × (read screen room this ≡ ran (err resource_busy, after))
            × (after.stdin_buffer ≡ this.stdin_buffer)
            × (after.recive_input ≡ true))
  unfolding read
  read-ReadFrom room this returns = elim (Bool-cases (ends_with this.stdin_buffer 10)) [
    | inl complete ↦
        let (disabled, runs, stdin, input) = disable_input-ran this (returns.erases complete) in
        inl (
          take (count room disabled.stdin_buffer) disabled.stdin_buffer,
          record disabled {
            stdin_buffer = drop (count room disabled.stdin_buffer) disabled.stdin_buffer;
          },
          complete,
          rw (complete, runs) refl,
          rw stdin (count-ReadFrom room this.stdin_buffer complete),
          input,
        )
    | inr incomplete ↦
        let (enabled, runs, stdin, input) = enable_input-ran this (returns.draws incomplete) in
        inr (enabled, incomplete, rw (incomplete, runs) refl, stdin, input)
  ]
