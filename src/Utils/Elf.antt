-- ===== src/Utils/Elf.antt =====
-- kernel/src/utils/elf.rs: reading an ELF file. The file is the list of its bytes and the address
-- of the first one. A table is a slice over the file that the code makes without a look at the
-- file's end: an entry that lies in part behind the last byte is `stray` when it is visited.

pub mod Symbols
pub mod Checks
pub mod Load
use safa_os.Prelude.{
  ℕ, zero, suc, ◌+◌, ◌*◌, ◌%◌, Bool, true, false, not, ◌&&◌, ◌||◌, ◌==◌, ltb, leb, if◌then◌else◌,
  List, [], ◌∷◌, length, take, drop,
}
use safa_os.Vfs.Types.{Bytes, same_bytes}
use safa_os.Utils.Errors.{
  ElfError, unsupported_class, unsupported_endianness, unsupported_kind,
  unsupported_insturction_set, not_an_elf, supported_elf_corrupted,
}

-- the outcome of reading: `stray` is a read outside of the bytes
pub data Reading {ℓ} (A : Type ℓ) : Type ℓ where
  read : A → Reading A
  err : ElfError → Reading A
  panic : Reading A
  stray : Reading A

infixl 5 ◌>>=◌
infixr 4 ◌>>◌
abbrev pub ◌>>=◌ {ℓ κ} : {A : Type ℓ} {B : Type κ} → Reading A → (A → Reading B) → Reading B
read a >>= f = f a
err e >>= f = err e
panic >>= f = panic
stray >>= f = stray

abbrev pub ◌>>◌ {ℓ} : {B : Type ℓ} → Reading (Unit {0}) → Reading B → Reading B
m >> k = m >>= λ _. k

abbrev pub assert : Bool → Reading (Unit {0})
assert true = read tt
assert false = panic

abbrev pub require : Bool → ElfError → Reading (Unit {0})
require true e = read tt
require false e = err e

-- the `width` bytes at `offset`, the lowest one first
abbrev little_endian : Bytes → ℕ
little_endian [] = 0
little_endian (b ∷ bytes) = b + 256 * little_endian bytes

abbrev pub field : Bytes → ℕ → ℕ → ℕ
field bytes offset width = little_endian (take width (drop offset bytes))

pub record ElfHeader : Type 0 where
  pub magic : Bytes
  pub class : ℕ
  pub endianness : ℕ
  pub version : ℕ
  pub osabi : ℕ
  pub abiver : ℕ
  pub kind : ℕ
  pub insturction_set : ℕ
  pub version_2 : ℕ
  pub entry_point : ℕ
  pub program_headers_table_offset : ℕ
  pub section_header_table_offset : ℕ
  pub flags : ℕ
  pub size : ℕ
  pub program_headers_table_entry_size : ℕ
  pub program_headers_table_entries_number : ℕ
  pub section_table_entry_size : ℕ
  pub section_table_entries : ℕ
  pub sections_names_section_offset : ℕ

abbrev pub size_of_header : ℕ
size_of_header = 64

-- the layout of the `repr(C)` struct
unfoldable pub header_of : Bytes → ElfHeader
header_of bytes = record {
  magic = take 4 bytes;
  class = field bytes 4 1;
  endianness = field bytes 5 1;
  version = field bytes 6 1;
  osabi = field bytes 7 1;
  abiver = field bytes 8 1;
  kind = field bytes 16 2;
  insturction_set = field bytes 18 2;
  version_2 = field bytes 20 4;
  entry_point = field bytes 24 8;
  program_headers_table_offset = field bytes 32 8;
  section_header_table_offset = field bytes 40 8;
  flags = field bytes 48 4;
  size = field bytes 52 2;
  program_headers_table_entry_size = field bytes 54 2;
  program_headers_table_entries_number = field bytes 56 2;
  section_table_entry_size = field bytes 58 2;
  section_table_entries = field bytes 60 2;
  sections_names_section_offset = field bytes 62 2;
}

unfoldable pub verify : ElfHeader → Bool
verify this = same_bytes this.magic (0x7F ∷ 69 ∷ 76 ∷ 70 ∷ []) && (this.size == size_of_header)

unfoldable pub supported : ElfHeader → Reading (Unit {0})
supported this =
    require (this.class == 2) unsupported_class
    >> require (this.endianness == 1) unsupported_endianness
    >> require ((this.kind == 2) || (this.kind == 1)) unsupported_kind
    >> require (this.insturction_set == 0x3E) unsupported_insturction_set

pub record SectionHeader : Type 0 where
  pub name_index : ℕ
  pub section_type : ℕ
  pub flags : ℕ
  pub addr : ℕ
  pub offset : ℕ
  pub size : ℕ
  pub link : ℕ
  pub info : ℕ
  pub alignment : ℕ
  pub entry_size : ℕ

abbrev pub size_of_section : ℕ
size_of_section = 64

abbrev pub section_at : Bytes → ℕ → SectionHeader
section_at bytes at = record {
  name_index = field bytes at 4;
  section_type = field bytes (at + 4) 4;
  flags = field bytes (at + 8) 8;
  addr = field bytes (at + 16) 8;
  offset = field bytes (at + 24) 8;
  size = field bytes (at + 32) 8;
  link = field bytes (at + 40) 4;
  info = field bytes (at + 44) 4;
  alignment = field bytes (at + 48) 8;
  entry_size = field bytes (at + 56) 8;
}

pub record ProgramHeader : Type 0 where
  pub ptype : ℕ
  pub flags : ℕ
  pub offset : ℕ
  pub vaddr : ℕ
  pub paddr : ℕ
  pub filez : ℕ
  pub memz : ℕ
  pub align : ℕ

abbrev pub size_of_program : ℕ
size_of_program = 56

abbrev pub program_at : Bytes → ℕ → ProgramHeader
program_at bytes at = record {
  ptype = field bytes at 4;
  flags = field bytes (at + 4) 4;
  offset = field bytes (at + 8) 8;
  vaddr = field bytes (at + 16) 8;
  paddr = field bytes (at + 24) 8;
  filez = field bytes (at + 32) 8;
  memz = field bytes (at + 40) 8;
  align = field bytes (at + 48) 8;
}

pub record Elf : Type 0 where
  pub bytes : Bytes
  pub header : ElfHeader
  pub sections : List (Reading SectionHeader)
  pub program_headers : List (Reading ProgramHeader)

-- what a visit of the entry at an offset finds
abbrev pub visit {ℓ} : {A : Type ℓ} → (Bytes → ℕ → A) → ℕ → Bytes → ℕ → Reading A
visit entry_at width bytes at =
    if leb (at + width) (length bytes) then read (entry_at bytes at) else stray

-- `slice::from_raw_parts`: the entries, none of them visited
unfoldable pub entries {ℓ} : {A : Type ℓ} → (Bytes → ℕ → A) → ℕ → Bytes → ℕ → ℕ → List (Reading A)
entries entry_at width bytes at zero = []
entries entry_at width bytes at (suc count) =
    visit entry_at width bytes at ∷ entries entry_at width bytes (at + width) count

-- `base` is the address of the first byte
unfoldable pub program_headers_table :
    ℕ → Bytes → ElfHeader → Reading (List (Reading ProgramHeader))
unfolding entries
program_headers_table base bytes header =
    let offset = header.program_headers_table_offset in
    if offset == 0
    then read []
    else (assert ((base + offset) % 8 == 0)
        >> read (
            entries program_at size_of_program bytes offset
              header.program_headers_table_entries_number))

unfoldable pub section_header_table : ℕ → Bytes → ElfHeader → Reading (List (Reading SectionHeader))
unfolding entries
section_header_table base bytes header =
    let offset = header.section_header_table_offset in
    assert ((base + offset) % 8 == 0)
    >> read (entries section_at size_of_section bytes offset header.section_table_entries)

abbrev pub offsets_fit : Bytes → ElfHeader → Bool
offsets_fit bytes header = not (
    ltb (length bytes) header.section_header_table_offset
    || ltb (length bytes) header.program_headers_table_offset)

unfoldable pub new : ℕ → Bytes → Reading Elf
new base bytes =
    let header = header_of bytes in
    require (leb size_of_header (length bytes)) not_an_elf
    >> require (verify header) not_an_elf
    >> supported header
    >> assert (header.section_table_entry_size == size_of_section)
    >> assert (header.program_headers_table_entry_size == size_of_program)
    >> require (offsets_fit bytes header) supported_elf_corrupted
    >> (section_header_table base bytes header >>= λ sections.
        program_headers_table base bytes header >>= λ program_headers. read (record {
          bytes = bytes;
          header = header;
          sections = sections;
          program_headers = program_headers;
        }))
