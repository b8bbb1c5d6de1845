-- ===== src/Utils/Elf/Checks.antt =====
-- `Elf::new` of kernel/src/utils/elf.rs: what a file that it accepts is like.
use safa_os.Prelude.{
  ℕ, zero, suc, ◌+◌, ◌*◌, ◌≤◌, ◌<◌, ◌≡◌, refl, ap, ◌∙◌, Bool, true, false, ◌||◌, ◌⊎◌, ◌==◌, leb,
  leb→le, ◌≢◌, if◌then◌else◌, some, List, [], ◌∷◌, length, get_elem?, arith, Bool-cases, inl, inr,
}
use safa_os.Vfs.Types.{Bytes, same_bytes_iff}
use safa_os.Utils.Errors.{
  ElfError, unsupported_class, unsupported_endianness, unsupported_kind,
  unsupported_insturction_set, not_an_elf, supported_elf_corrupted,
}
use safa_os.Utils.Elf.{
  Reading, read, err, panic, stray, ◌>>=◌, ◌>>◌, assert, require, entries, visit, header_of,
  offsets_fit, verify, supported, section_at, program_at, SectionHeader, ProgramHeader,
  size_of_section, size_of_program, section_header_table, program_headers_table, Elf, ElfHeader,
  size_of_header, new,
}

read-injective : {A : Type 0} (a b : A) → ◌≡◌ {A = Reading A} (read a) (read b) → a ≡ b
read-injective a b e = cc

module _ {ℓ κ} {A : Type ℓ} {B : Type κ} where
  -- Inversion of a bind that ends in `read`.
  >>=-eq-read :
      (first : Reading A) (then_do : A → Reading B) {result : B}
      → (first >>= then_do) ≡ read result
      → (a : A) × (first ≡ read a) × (then_do a ≡ read result)
  >>=-eq-read (read a) then_do h = (a, refl, h)
  >>=-eq-read (err e) then_do h = cc
  >>=-eq-read panic then_do h = cc
  >>=-eq-read stray then_do h = cc

module _ {ℓ} {B : Type ℓ} {result : B} where
  require-eq-read :
      (b : Bool) (e : ElfError) (rest : Reading B)
      → (require b e >> rest) ≡ read result
      → (b ≡ true) × (rest ≡ read result)
  require-eq-read true e rest h = (refl, h)
  require-eq-read false e rest h = cc

  assert-eq-read :
      (b : Bool) (rest : Reading B)
      → (assert b >> rest) ≡ read result
      → (b ≡ true) × (rest ≡ read result)
  assert-eq-read true rest h = (refl, h)
  assert-eq-read false rest h = cc

-- A table entry by entry: one that lies in the bytes is what the file has there, and one that does
-- not is stray.
pub record IsTable {A : Type 0} (entry_at : Bytes → ℕ → A) (width : ℕ) (bytes : Bytes)
    (at count : ℕ) (table : List (Reading A)) : Type 0 where
  pub size : length table ≡ count
  pub within :
      (k : ℕ)
      → k < count
      → at + k * width + width ≤ length bytes
      → get_elem? table k ≡ some (read (entry_at bytes (at + k * width)))
  pub behind :
      (k : ℕ) → k < count → length bytes < at + k * width + width → get_elem? table k ≡ some stray

module _ {A : Type 0} (entry_at : Bytes → ℕ → A) (width : ℕ) (bytes : Bytes) where
  visit-read :
      (at : ℕ)
      → at + width ≤ length bytes
      → visit entry_at width bytes at ≡ read (entry_at bytes at)
  visit-read at fits =
      let inside : leb (at + width) (length bytes) ≡ true = ground arith in rw inside refl

  visit-stray : (at : ℕ) → length bytes < at + width → visit entry_at width bytes at ≡ stray
  visit-stray at past =
      let far : leb (at + width) (length bytes) ≡ false = ground arith in rw far refl

  length-entries : (at count : ℕ) → length (entries entry_at width bytes at count) ≡ count
  unfolding entries
  length-entries at zero = refl
  length-entries at (suc count) = ap suc (length-entries (at + width) count)

  get_elem?-entries :
      (at count k : ℕ)
      → k < count
      → get_elem? (entries entry_at width bytes at count) k
        ≡ some (visit entry_at width bytes (at + k * width))
  unfolding entries
  get_elem?-entries at zero k lt = absurd (omega (arith, lt))
  get_elem?-entries at (suc count) zero lt =
      let first : at + 0 * width ≡ at = omega arith in rw first refl
  get_elem?-entries at (suc count) (suc k) lt =
      let later : at + suc k * width ≡ at + width + k * width = grind arith in
      rw later (get_elem?-entries (at + width) count k (omega (arith, lt)))

  entries-IsTable :
      (at count : ℕ) (table : List (Reading A))
      → ◌≡◌ {A = Reading (List (Reading A))}
          (read (entries entry_at width bytes at count))
          (read table)
      → IsTable entry_at width bytes at count table
  entries-IsTable at count table e =
      rw (← read-injective (entries entry_at width bytes at count) table e) (record {
        size = length-entries at count;
        within = λ k lt fits.
            get_elem?-entries at count k lt ∙ ap some (visit-read (at + k * width) fits);
        behind = λ k lt past.
            get_elem?-entries at count k lt ∙ ap some (visit-stray (at + k * width) past);
      })

section_header_table-IsTable :
    (base : ℕ) (bytes : Bytes) (sections : List (Reading SectionHeader))
    → section_header_table base bytes (header_of bytes) ≡ read sections
    → IsTable section_at size_of_section bytes
        (header_of bytes).section_header_table_offset
        (header_of bytes).section_table_entries
        sections
unfolding section_header_table
section_header_table-IsTable base bytes sections h =
    entries-IsTable section_at size_of_section bytes _ _ sections (assert-eq-read _ _ h).1

program_headers_table-IsTable :
    (base : ℕ) (bytes : Bytes) (programs : List (Reading ProgramHeader))
    → program_headers_table base bytes (header_of bytes) ≡ read programs
    → ((header_of bytes).program_headers_table_offset ≢ 0)
    → IsTable program_at size_of_program bytes
        (header_of bytes).program_headers_table_offset
        (header_of bytes).program_headers_table_entries_number
        programs
unfolding program_headers_table
program_headers_table-IsTable base bytes programs h far =
    elim (Bool-cases ((header_of bytes).program_headers_table_offset == 0)) [
      | inl at_zero ↦ absurd (far (ground (arith, at_zero)))
      | inr off ↦
          entries-IsTable program_at size_of_program bytes _ _ programs
            (assert-eq-read _ _ (else-eq _ _ off h)).1
    ]
  where
    else-eq :
        (b : Bool) (one : Reading (List (Reading ProgramHeader)))
        {other : Reading (List (Reading ProgramHeader))}
        → b ≡ false
        → (if b then one else other) ≡ read programs
        → other ≡ read programs
    else-eq true one e r = cc
    else-eq false one e r = r

abbrev made : Bytes → List (Reading SectionHeader) → List (Reading ProgramHeader) → Elf
made bytes sections programs = record {
  bytes = bytes;
  header = header_of bytes;
  sections = sections;
  program_headers = programs;
}

abbrev with_sections : ℕ → Bytes → List (Reading SectionHeader) → Reading Elf
with_sections base bytes sections =
    program_headers_table base bytes (header_of bytes) >>= λ l. read (made bytes sections l)

-- The magic and the size that a header which verifies has.
verify-magic :
    (this : ElfHeader)
    → verify this ≡ true
    → (this.magic ≡ 0x7F ∷ 69 ∷ 76 ∷ 70 ∷ []) × (this.size ≡ size_of_header)
unfolding verify
verify-magic this h =
    (ground (arith, (same_bytes_iff this.magic (0x7F ∷ 69 ∷ 76 ∷ 70 ∷ [])).0), ground arith)

require-eq-tt : (b : Bool) (e : ElfError) → require b e ≡ read tt → b ≡ true
require-eq-tt true e h = refl
require-eq-tt false e h = cc

supported-class :
    (this : ElfHeader)
    → supported this ≡ read tt
    → (this.class ≡ 2)
      × (this.endianness ≡ 1)
      × ((this.kind ≡ 2) ⊎ (this.kind ≡ 1))
      × (this.insturction_set ≡ 0x3E)
unfolding supported
supported-class this h =
    let (class, h1) = require-eq-read (this.class == 2) unsupported_class _ h in
    let (endianness, h2) = require-eq-read (this.endianness == 1) unsupported_endianness _ h1 in
    let (kind, h3) = require-eq-read (this.kind == 2 || this.kind == 1) unsupported_kind _ h2 in
    let instructions =
      require-eq-tt (this.insturction_set == 0x3E) unsupported_insturction_set h3 in
    (ground arith, ground arith, ground arith, ground arith)

-- When `Elf::new` accepts the bytes of a file, they hold a whole header with the magic of ELF and
-- its own size, of 64 bits, little-endian, executable or relocatable, for x86_64; its sections are
-- as many entries as the header says from where it places the table, each read from the bytes where
-- it lies inside of them and stray where it does not, and so are its program headers where the
-- header places a table.
pub new-IsTable :
    (base : ℕ) (bytes : Bytes) (elf : Elf)
    → new base bytes ≡ read elf
    → (64 ≤ length bytes)
      × ((header_of bytes).magic ≡ 0x7F ∷ 69 ∷ 76 ∷ 70 ∷ [])
      × ((header_of bytes).size ≡ size_of_header)
      × ((header_of bytes).class ≡ 2)
      × ((header_of bytes).endianness ≡ 1)
      × (((header_of bytes).kind ≡ 2) ⊎ ((header_of bytes).kind ≡ 1))
      × ((header_of bytes).insturction_set ≡ 0x3E)
      × (elf.header ≡ header_of bytes)
      × IsTable section_at size_of_section bytes
          (header_of bytes).section_header_table_offset
          (header_of bytes).section_table_entries
          elf.sections
      × ((header_of bytes).program_headers_table_offset ≢ 0
          → IsTable program_at size_of_program bytes
              (header_of bytes).program_headers_table_offset
              (header_of bytes).program_headers_table_entries_number
              elf.program_headers)
unfolding new
new-IsTable base bytes elf h =
    let (long, h1) = require-eq-read _ not_an_elf _ h in
    let (verified, h2) = require-eq-read _ not_an_elf _ h1 in
    let (checked, known, h3) = >>=-eq-read (supported (header_of bytes)) _ h2 in
    let (_, h4) =
      assert-eq-read ((header_of bytes).section_table_entry_size == size_of_section) _ h3 in
    let (_, h5) =
      assert-eq-read ((header_of bytes).program_headers_table_entry_size == size_of_program) _ h4 in
    let (_, h6) =
      require-eq-read (offsets_fit bytes (header_of bytes)) supported_elf_corrupted _ h5 in
    let (sections, in_sections, h7) =
      >>=-eq-read (section_header_table base bytes (header_of bytes)) (with_sections base bytes)
        h6 in
    let (programs, in_programs, h8) =
      >>=-eq-read (program_headers_table base bytes (header_of bytes))
        (λ (l : List (Reading ProgramHeader)). read (made bytes sections l)) h7 in
    let (magic, size) = verify-magic (header_of bytes) verified in
    let (class, endianness, kind, instructions) = supported-class (header_of bytes) known in
    let same : made bytes sections programs ≡ elf = read-injective _ _ h8 in
    rw (← same) (
      leb→le _ _ long,
      magic,
      size,
      class,
      endianness,
      kind,
      instructions,
      refl,
      section_header_table-IsTable base bytes sections in_sections,
      program_headers_table-IsTable base bytes programs in_programs,
    )
