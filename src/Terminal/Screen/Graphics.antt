-- ===== src/Terminal/Screen/Graphics.antt =====
-- The colours of the terminal: `handle_set_graphics_mode` of kernel/src/terminal/framebuffer.rs.
use safa_os.Prelude.{
  ℕ, zero, suc, ◌==◌, Bool, true, false, if◌then◌else◌, none, some, List, [], ◌∷◌, get_elem?,
}
use safa_os.Terminal.Rgb.{Rgb, with_alpha}
use safa_os.Terminal.Rgb
use safa_os.Terminal.Screen.{Screen, default_fg_color, default_bg_color}

-- the colours that a parameter of its own sets
pub set_color : ℕ → Screen → Screen
set_color param this =
    let fg = λ (color : Rgb). record this { fg_color = color } in
    let bg = λ (color : Rgb). record this { bg_color = color } in
    if param == 0
    then record this { fg_color = default_fg_color; bg_color = default_bg_color }
    else if param == 30
    then fg Rgb.black
    else if param == 31
    then fg Rgb.red
    else if param == 32
    then fg Rgb.green
    else if param == 33
    then fg Rgb.yellow
    else if param == 34
    then fg Rgb.blue
    else if param == 35
    then fg Rgb.magenta
    else if param == 36
    then fg Rgb.cyan
    else if param == 37
    then fg Rgb.white
    else if param == 90
    then fg Rgb.bright_black
    else if param == 91
    then fg Rgb.bright_red
    else if param == 92
    then fg Rgb.bright_green
    else if param == 93
    then fg Rgb.bright_yellow
    else if param == 94
    then fg Rgb.bright_blue
    else if param == 95
    then fg Rgb.bright_magenta
    else if param == 96
    then fg Rgb.bright_cyan
    else if param == 97
    then fg Rgb.bright_white
    else if param == 40
    then bg Rgb.black
    else if param == 41
    then bg Rgb.red
    else if param == 42
    then bg Rgb.green
    else if param == 43
    then bg Rgb.yellow
    else if param == 44
    then bg Rgb.blue
    else if param == 45
    then bg Rgb.magenta
    else if param == 46
    then bg Rgb.cyan
    else if param == 47
    then bg Rgb.white
    else if param == 100
    then bg Rgb.bright_black
    else if param == 101
    then bg Rgb.bright_red
    else if param == 102
    then bg Rgb.bright_green
    else if param == 103
    then bg Rgb.bright_yellow
    else if param == 104
    then bg Rgb.bright_blue
    else if param == 105
    then bg Rgb.bright_magenta
    else if param == 106
    then bg Rgb.bright_cyan
    else if param == 107
    then bg Rgb.bright_white
    else this

-- `params.next().unwrap_or_default()`
abbrev param_or_zero : List ℕ → ℕ → ℕ
param_or_zero params i = elim (get_elem? params i) [ some n ↦ n | none ↦ 0 ]

abbrev color_of : List ℕ → Rgb
color_of params = Rgb.new (param_or_zero params 1) (param_or_zero params 2) (param_or_zero params 3)

abbrev is_two : List ℕ → Bool
is_two [] = false
is_two (param ∷ params) = param == 2

-- The loop over the parameters, of which the first `taken` were taken by an earlier one: 38 and 48
-- take the next one, and three more when it is 2.
unfoldable pub set_colors : ℕ → List ℕ → Screen → Screen
set_colors taken [] this = this
set_colors (suc taken) (param ∷ params) this = set_colors taken params this
set_colors zero (param ∷ params) this = elim (param == 38) [
  | true ↦ elim (is_two params) [
    | true ↦ set_colors 4 params (record this { fg_color = color_of params })
    | false ↦ set_colors 1 params this
  ]
  | false ↦ elim (param == 48) [
    | true ↦ elim (is_two params) [
      | true ↦ set_colors 4 params (record this { bg_color = color_of params })
      | false ↦ set_colors 1 params this
    ]
    | false ↦ set_colors 0 params (set_color param this)
  ]
]

unfoldable pub handle_set_graphics_mode : List ℕ → Screen → Screen
handle_set_graphics_mode [] this = record this {
  fg_color = default_fg_color;
  bg_color = default_bg_color;
}
handle_set_graphics_mode (param ∷ params) this = set_colors 0 (param ∷ params) this
