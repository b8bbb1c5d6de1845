-- ===== src/Utils/Elf/Symbols.antt =====
-- Names and symbols of kernel/src/utils/elf.rs. `is_utf8` is the test of `CStr::to_str`.
use safa_os.Prelude.{
  ℕ, ◌+◌, ◌/◌, Bool, ◌&&◌, ◌==◌, leb, if◌then◌else◌, Option, none, some, List, [], ◌∷◌, get_elem?,
  drop,
}
use safa_os.Prelude.Words.{add_usize}
use safa_os.Vfs.Types.{Bytes, same_bytes}
use safa_os.Utils.Elf.{
  Reading, read, panic, stray, ◌>>=◌, ◌>>◌, assert, field, Elf, SectionHeader, entries,
}

pub record Sym : Type 0 where
  pub name_index : ℕ
  pub value : ℕ
  pub size : ℕ
  pub info : ℕ
  pub other : ℕ
  pub section_index : ℕ

abbrev pub size_of_sym : ℕ
size_of_sym = 24

-- the layout of the `repr(C)` struct, with `value` at a multiple of 8
abbrev pub sym_at : Bytes → ℕ → Sym
sym_at bytes at = record {
  name_index = field bytes at 4;
  value = field bytes (at + 8) 8;
  size = field bytes (at + 16) 4;
  info = field bytes (at + 20) 1;
  other = field bytes (at + 21) 1;
  section_index = field bytes (at + 22) 2;
}

-- `CStr::from_ptr`: the bytes before the first 0
abbrev pub c_string : Bytes → Reading Bytes
c_string [] = stray
c_string (b ∷ bytes) =
    let rest = c_string bytes in if b == 0 then read [] else (rest >>= λ others. read (b ∷ others))

module _ (is_utf8 : Bytes → Bool) (this : Elf) where
  abbrev pub section_names_table : Reading SectionHeader
  section_names_table = elim (get_elem? this.sections this.header.sections_names_section_offset) [
    | some section ↦ section
    | none ↦ panic
  ]

  -- `to_str().unwrap()` of the string at an offset
  abbrev string_at : ℕ → Reading Bytes
  string_at at = c_string (drop at this.bytes) >>= λ name. assert (is_utf8 name) >> read name

  unfoldable pub section_names_table_index : ℕ → Reading Bytes
  section_names_table_index name_index =
      if name_index == 0
      then read []
      else (section_names_table >>= λ table. string_at (table.offset + name_index))

  -- the section among some of them whose name is ".strtab"
  unfoldable pub find_strtab : List (Reading SectionHeader) → Reading (Option SectionHeader)
  find_strtab [] = read none
  find_strtab (section ∷ sections) =
      let rest = find_strtab sections in
      section >>= λ visited. section_names_table_index visited.name_index >>= λ name.
      if same_bytes name (46 ∷ 115 ∷ 116 ∷ 114 ∷ 116 ∷ 97 ∷ 98 ∷ [])
      then read (some visited)
      else rest

  abbrev pub string_table : Reading (Option SectionHeader)
  string_table = find_strtab this.sections

  unfoldable pub string_table_index : ℕ → Reading Bytes
  string_table_index name_index =
      if name_index == 0
      then read []
      else (string_table >>= λ found. elim found [
        | some table ↦ string_at (table.offset + name_index)
        | none ↦ panic
      ])

-- the symbols of a section; a division by zero panics
abbrev pub symbols_of : Bytes → SectionHeader → Reading (List (Reading Sym))
symbols_of bytes section =
    if section.entry_size == 0
    then panic
    else read (entries sym_at size_of_sym bytes section.offset (section.size / section.entry_size))

unfoldable pub find_symtable :
    Bytes → List (Reading SectionHeader) → Reading (Option (List (Reading Sym)))
find_symtable bytes [] = read none
find_symtable bytes (section ∷ sections) =
    let rest = find_symtable bytes sections in
    section >>= λ visited.
    if visited.section_type == 2
    then (symbols_of bytes visited >>= λ table. read (some table))
    else rest

abbrev pub symtable : Elf → Reading (Option (List (Reading Sym)))
symtable this = find_symtable this.bytes this.sections

abbrev pub covers : Sym → ℕ → Bool
covers sym value = leb sym.value value && leb value (add_usize sym.value sym.size)

unfoldable pub find_sym : ℕ → List (Reading Sym) → Reading (Option Sym)
find_sym value [] = read none
find_sym value (sym ∷ table) =
    let rest = find_sym value table in
    sym >>= λ visited. if covers visited value then read (some visited) else rest

unfoldable pub sym_from_value_range : Elf → ℕ → Reading (Option Sym)
unfolding find_sym
sym_from_value_range this value =
    symtable this >>= λ found. elim found [ some table ↦ find_sym value table | none ↦ read none ]
