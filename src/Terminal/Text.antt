-- ===== src/Terminal/Text.antt =====
-- `PageVec` of bytes and `PageString` of kernel/src/utils/alloc.rs: a text as its bytes in UTF-8.
-- The capacity of the vector is left out. A character is its code point, below 0x110000.
use safa_os.Prelude.{
  ℕ, ◌+◌, ◌-◌, ◌*◌, ◌/◌, ◌%◌, ◌==◌, ltb, leb, Bool, true, false, ◌&&◌, if◌then◌else◌, Option, none,
  some, List, [], ◌∷◌, ◌++◌, length, take, drop, reverse,
}
use safa_os.Utils.Ansi.{len_utf8}
pub mod Chars

abbrev pub PageString : Type 0
PageString = List ℕ

-- `char::encode_utf8`
unfoldable pub encode_utf8 : ℕ → List ℕ
encode_utf8 c =
    if ltb c 0x80
    then c ∷ []
    else if ltb c 0x800
    then (0xC0 + c / 64) ∷ (0x80 + c % 64) ∷ []
    else if ltb c 0x10000
    then (0xE0 + c / 4096) ∷ (0x80 + c / 64 % 64) ∷ (0x80 + c % 64) ∷ []
    else (0xF0 + c / 262144) ∷ (0x80 + c / 4096 % 64) ∷ (0x80 + c / 64 % 64) ∷ (0x80 + c % 64) ∷ []

abbrev pub is_cont_byte : ℕ → Bool
is_cont_byte byte = leb 0x80 byte && ltb byte 0xC0

-- one more byte of a character
abbrev pub acc_cont_byte : Option ℕ → ℕ → Option ℕ
acc_cont_byte none byte = none
acc_cont_byte (some ch) byte = some (ch * 64 + byte % 64)

-- the bits of the fourth last byte, of the third last and of the second last, with those before
abbrev pub from_fourth : List ℕ → Option ℕ
from_fourth [] = none
from_fourth (x ∷ _) = some (x % 8)

abbrev pub from_third : List ℕ → Option ℕ
from_third [] = none
from_third (y ∷ rest) = if is_cont_byte y then acc_cont_byte (from_fourth rest) y else some (y % 16)

abbrev pub from_second : List ℕ → Option ℕ
from_second [] = none
from_second (z ∷ rest) = if is_cont_byte z then acc_cont_byte (from_third rest) z else some (z % 32)

-- the last character of a text whose bytes stand in reverse
unfoldable pub next_back : List ℕ → Option ℕ
next_back [] = none
next_back (w ∷ rest) = if ltb w 0x80 then some w else acc_cont_byte (from_second rest) w

abbrev pub new : PageString
new = []

abbrev pub push_str : PageString → List ℕ → PageString
push_str this s = this ++ s

abbrev pub push_char : PageString → ℕ → PageString
push_char this c = push_str this (encode_utf8 c)

abbrev pub popped : PageString → Option ℕ → Option (ℕ × PageString)
popped this none = none
popped this (some c) = some (c, take (length this - len_utf8 c) this)

-- the last character and the text before it
unfoldable pub pop : PageString → Option (ℕ × PageString)
pop this = popped this (next_back (reverse this))

abbrev pub rest_or : PageString → Option (ℕ × PageString) → PageString
rest_or this none = this
rest_or this (some (_, rest)) = rest

-- `pop` without its result
abbrev pub without_last : PageString → PageString
without_last this = rest_or this (pop this)

abbrev pub is_empty : PageString → Bool
is_empty [] = true
is_empty (_ ∷ _) = false

-- `ends_with` of a character of one byte
unfoldable pub ends_with : PageString → ℕ → Bool
ends_with [] c = false
ends_with (byte ∷ []) c = byte == c
ends_with (byte ∷ next ∷ rest) c = ends_with (next ∷ rest) c
