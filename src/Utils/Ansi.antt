-- ===== src/Utils/Ansi.antt =====
-- The parser of escape sequences in kernel/src/utils/ansi.rs. A text is the list of its characters
-- as code points; slices of it are taken at byte offsets, and a slice inside of a character panics,
-- as does an overflow of a `u8`.
use safa_os.Prelude.{
  ℕ, zero, suc, ◌+◌, ◌-◌, ◌*◌, ◌==◌, ltb, leb, Bool, true, false, ◌&&◌, if◌then◌else◌, Option, none,
  some, List, [], ◌∷◌, ◌++◌,
}
pub mod Sequences
pub mod Progress

pub data AnsiSequence : Type 0 where
  cursor_pos : ℕ → ℕ → AnsiSequence
  cursor_up cursor_down cursor_forward cursor_backward : ℕ → AnsiSequence
  erase_display : AnsiSequence
  set_graphics_mode : List ℕ → AnsiSequence

-- `Option<Either<PreAnsiSequence, AnsiSequence>>`, or a panic
pub data Parsed : Type 0 where
  rejected overflow : Parsed
  pending : List ℕ → Parsed
  complete : AnsiSequence → Parsed

-- the last number, or 1
abbrev pub last_or_one : List ℕ → ℕ
last_or_one [] = 1
last_or_one (n ∷ []) = n
last_or_one (_ ∷ n ∷ ns) = last_or_one (n ∷ ns)

abbrev pub cursor_to : List ℕ → Parsed
cursor_to [] = complete (cursor_pos 1 1)
cursor_to (y ∷ []) = complete (cursor_pos 1 y)
cursor_to (y ∷ x ∷ []) = complete (cursor_pos x y)
cursor_to _ = rejected

-- the last number with one more digit; `none` is an overflow
abbrev pub push_digit : List ℕ → ℕ → Option (List ℕ)
push_digit [] digit = some (digit ∷ [])
push_digit (n ∷ []) digit = if ltb (n * 10 + digit) 256 then some ((n * 10 + digit) ∷ []) else none
push_digit (m ∷ n ∷ ns) digit = elim (push_digit (n ∷ ns) digit) [
  | some later ↦ some (m ∷ later)
  | none ↦ none
]

abbrev pub pending_of : Option (List ℕ) → Parsed
pending_of none = overflow
pending_of (some numbers) = pending numbers

abbrev pub is_digit : ℕ → Bool
is_digit c = leb b'0' c && leb c b'9'

unfoldable pub add_char : List ℕ → ℕ → Parsed
add_char numbers c =
    if c == b'H'
    then cursor_to numbers
    else if c == b'A'
    then complete (cursor_up (last_or_one numbers))
    else if c == b'B'
    then complete (cursor_down (last_or_one numbers))
    else if c == b'C'
    then complete (cursor_forward (last_or_one numbers))
    else if c == b'D'
    then complete (cursor_backward (last_or_one numbers))
    else if c == b'J'
    then complete erase_display
    else if c == b'm'
    then complete (set_graphics_mode numbers)
    else if c == b';'
    then pending (numbers ++ 0 ∷ [])
    else if is_digit c
    then pending_of (push_digit numbers (c - b'0'))
    else rejected

-- what `parse_seq` finds: nothing, a panic, or a sequence and the index of its last character
pub data Sequence : Type 0 where
  no_sequence panics : Sequence
  sequence : ℕ → AnsiSequence → Sequence

unfoldable pub parse_from : List ℕ → ℕ → List ℕ → Sequence
parse_from [] i numbers = no_sequence
parse_from (c ∷ chars) i numbers = elim (add_char numbers c) [
  | rejected ↦ no_sequence
  | overflow ↦ panics
  | complete ansi ↦ sequence i ansi
  | pending numbers' ↦ parse_from chars (i + 1) numbers'
]

abbrev pub parse_seq : List ℕ → Sequence
parse_seq chars = parse_from chars 0 []

-- the bytes of a character in UTF-8
abbrev pub len_utf8 : ℕ → ℕ
len_utf8 c = if ltb c 0x80 then 1 else if ltb c 0x800 then 2 else if ltb c 0x10000 then 3 else 4

-- the text before and from a byte offset; `none` inside of a character or behind the end
unfoldable pub split_at : List ℕ → ℕ → Option (List ℕ × List ℕ)
split_at [] offset = if offset == 0 then some ([], []) else none
split_at (c ∷ cs) offset =
    let later = split_at cs (offset - len_utf8 c) in
    if offset == 0
    then some ([], c ∷ cs)
    else if ltb offset (len_utf8 c)
    then none
    else elim later [ some (before, from) ↦ some (c ∷ before, from) | none ↦ none ]

pub data Item : Type 0 where
  escape : AnsiSequence → Item
  plain : List ℕ → Item

-- `next`: the end of the text, a panic, or an item and the text that is left
pub data Next : Type 0 where
  finished crashed : Next
  item : Item → List ℕ → Next

abbrev pub esc : ℕ
esc = 0x1B

-- the loop: the number of characters up to the next escape character or the end; `none` at the end
-- of the text when that number is 0
unfoldable pub scan : List ℕ → ℕ → Option ℕ
scan [] zero = none
scan [] (suc n) = some (suc n)
scan (c ∷ chars) end = let later = scan chars (end + 1) in if c == esc then some end else later

abbrev pub sliced : Option (List ℕ × List ℕ) → Next
sliced none = crashed
sliced (some (before, from)) = item (plain before) from

unfoldable pub next_plain : List ℕ → List ℕ → Next
next_plain text chars = elim (scan chars 0) [
  | none ↦ finished
  | some end ↦ sliced (split_at text end)
]

abbrev pub escaped : AnsiSequence → Option (List ℕ × List ℕ) → Next
escaped ansi none = crashed
escaped ansi (some (_, from)) = item (escape ansi) from

abbrev pub sequence_or : List ℕ → Sequence → Next → Next
sequence_or text (sequence i ansi) otherwise = escaped ansi (split_at text (i + 3))
sequence_or text panics otherwise = crashed
sequence_or text no_sequence otherwise = otherwise

-- behind an escape character
abbrev pub next_escape : List ℕ → List ℕ → Next → Next
next_escape text [] otherwise = otherwise
next_escape text (d ∷ rest) otherwise =
    if d == b'[' then sequence_or text (parse_seq rest) otherwise else otherwise

unfoldable pub next : List ℕ → Next
next [] = next_plain [] []
next (c ∷ chars) =
    if c == esc
    then next_escape (c ∷ chars) chars (next_plain (c ∷ chars) chars)
    else next_plain (c ∷ chars) (c ∷ chars)
