-- ===== src/Utils/Tests.antt =====
-- Escape sequences run through the parser.
use safa_os.Vfs.Types.{same_bytes}
use safa_os.Utils.Elf.{
  Elf, read, stray, new, header_of, verify, supported, section_at, program_at, size_of_section,
  size_of_header, size_of_program, entries, section_header_table, program_headers_table,
}
use safa_os.Utils.Elf.Checks.{IsTable, new-IsTable}
use safa_os.Prelude.{ℕ, ◌≤◌, ◌<◌, ◌≡◌, ◌≢◌, refl, ◌⊎◌, List, [], ◌∷◌, ◌++◌, replicate, length}
use safa_os.Utils.Ansi.{
  split_at, scan, next_plain, escape, set_graphics_mode, parse_seq, parse_from, add_char, sequence,
  cursor_pos, next, item, plain, esc,
}
use safa_os.Utils.Ansi.Progress.{first_items, next-advances}

home : parse_seq (b'3' ∷ b';' ∷ b'7' ∷ b'H' ∷ []) ≡ sequence 3 (cursor_pos 7 3)
unfolding parse_from add_char
home = refl

-- two escape characters in a row
abbrev two_escapes : List ℕ
two_escapes = esc ∷ esc ∷ b'a' ∷ []

stays : next two_escapes ≡ item (plain []) two_escapes
unfolding next next_plain scan split_at
stays = refl

next-advances_example :
    (length two_escapes < length two_escapes)
    ⊎ ((rest : List ℕ) × (two_escapes ≡ esc ∷ esc ∷ rest)
        × ((n : ℕ) → first_items n two_escapes ≡ (replicate n (plain []), two_escapes)))
next-advances_example = next-advances two_escapes two_escapes (plain []) stays

-- a text that is left shorter by a sequence
leaves : next (esc ∷ b'[' ∷ b'm' ∷ b'a' ∷ []) ≡ item (escape (set_graphics_mode [])) (b'a' ∷ [])
unfolding next split_at parse_from add_char
leaves = refl

-- an executable with nothing to load and two sections, the second behind the end of the file
abbrev small_file : List ℕ
small_file =
    (127 ∷ 69 ∷ 76 ∷ 70 ∷ 2 ∷ 1 ∷ 1 ∷ 0 ∷ 0 ∷ 0 ∷ 0 ∷ 0 ∷ 0 ∷ 0 ∷ 0 ∷ 0 ∷ 2 ∷ 0 ∷ 62 ∷ 0 ∷ 1 ∷ 0 ∷ 0
      ∷ 0 ∷ 0 ∷ 0 ∷ 0 ∷ 0 ∷ 0 ∷ 0 ∷ 0 ∷ 0 ∷ 0 ∷ 0 ∷ 0 ∷ 0 ∷ 0 ∷ 0 ∷ 0 ∷ 0 ∷ 64 ∷ 0 ∷ 0 ∷ 0 ∷ 0 ∷ 0
      ∷ 0 ∷ 0 ∷ 0 ∷ 0 ∷ 0 ∷ 0 ∷ 64 ∷ 0 ∷ 56 ∷ 0 ∷ 0 ∷ 0 ∷ 64 ∷ 0 ∷ 2 ∷ 0 ∷ 0 ∷ 0 ∷ [])
    ++ replicate 64 0

abbrev small_elf : Elf
small_elf = record {
  bytes = small_file;
  header = header_of small_file;
  sections = read (section_at small_file 64) ∷ stray ∷ [];
  program_headers = [];
}

accepted : new 4096 small_file ≡ read small_elf
unfolding new verify supported section_header_table program_headers_table entries header_of
    same_bytes
accepted = refl

new-IsTable_example :
    (64 ≤ length small_file)
    × ((header_of small_file).magic ≡ 0x7F ∷ 69 ∷ 76 ∷ 70 ∷ [])
    × ((header_of small_file).size ≡ size_of_header)
    × ((header_of small_file).class ≡ 2)
    × ((header_of small_file).endianness ≡ 1)
    × (((header_of small_file).kind ≡ 2) ⊎ ((header_of small_file).kind ≡ 1))
    × ((header_of small_file).insturction_set ≡ 0x3E)
    × (small_elf.header ≡ header_of small_file)
    × IsTable section_at size_of_section small_file
        (header_of small_file).section_header_table_offset
        (header_of small_file).section_table_entries
        small_elf.sections
    × ((header_of small_file).program_headers_table_offset ≢ 0
        → IsTable program_at size_of_program small_file
            (header_of small_file).program_headers_table_offset
            (header_of small_file).program_headers_table_entries_number
            small_elf.program_headers)
new-IsTable_example = new-IsTable 4096 small_file small_elf accepted
