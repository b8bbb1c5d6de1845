-- ===== src/Utils/Elf/Load.antt =====
-- `load_exec` of kernel/src/utils/elf.rs: the segments of an executable in the pages of a process.
use safa_os.Prelude.{
  ℕ, zero, suc, ◌+◌, ◌-◌, ◌*◌, ◌≤◌, ◌<◌, ◌==◌, Bool, not, if◌then◌else◌, Option, some, none, Result,
  List, [], ◌∷◌, length, take, drop, leb, bit_or,
}
use safa_os.Prelude
use safa_os.Prelude.Words.{add_usize}
use safa_os.Vfs.Types.{Bytes}
use safa_os.Memory.Align.{page_size}
use safa_os.Memory.Paging.{
  Page, IterPage, Memory, contains, present, writable, user_accessible, page_containing, zeroize,
}
use safa_os.Memory.Paging.Pages.{collect, each_page, map_fresh}
use safa_os.Memory.Userspace.{copy_to_userspace}
use safa_os.Utils.Errors.{ElfError, not_an_executable, map_to_error}
use safa_os.Utils.Elf.{Reading, read, err, panic, stray, ProgramHeader, Elf}

-- the flags of the pages of a segment
abbrev pub entry_flags : ℕ → ℕ
entry_flags flags =
    let base = present + user_accessible in
    let written = if contains flags 2 then bit_or base writable else base in
    if contains flags 1 then bit_or written writable else written

abbrev pub segment_pages : ProgramHeader → IterPage
segment_pages header = record {
  start = page_containing header.vaddr;
  end = page_containing (add_usize (add_usize header.vaddr header.memz) page_size);
}

-- one page of a segment, filled with zeros
unfoldable pub load_page : ℕ → ℕ → Memory → Page → Memory × Result {0, 0} Unit ElfError
unfolding map_fresh
load_page root flags m page =
    let (m', found) = map_fresh m root page flags in
    elim found [
      | Prelude.ok frame ↦ (zeroize m' frame.start_address, Prelude.ok tt)
      | Prelude.err e ↦ (m', Prelude.err map_to_error)
    ]

-- the `filez` bytes of a segment in the file
abbrev pub file_of : Bytes → ProgramHeader → Reading Bytes
file_of bytes header =
    if leb (header.offset + header.filez) (length bytes)
    then read (take header.filez (drop header.offset bytes))
    else stray

unfoldable pub load_segment : Bytes → ℕ → Memory → ProgramHeader → Memory × Reading (Unit {0})
unfolding each_page load_page
load_segment bytes root m header =
    let (m', done) =
      each_page (load_page root (entry_flags header.flags)) m (collect (segment_pages header)) in
    elim done [
      | Prelude.err e ↦ (m', err e)
      | Prelude.ok _ ↦ elim (file_of bytes header) [
        | read file ↦ elim (copy_to_userspace m' root header.vaddr file) [
          | some m'' ↦ (m'', read tt)
          | none ↦ (m', panic)
        ]
        | err e ↦ (m', err e)
        | panic ↦ (m', panic)
        | stray ↦ (m', stray)
      ]
    ]

-- the program headers in order, with the break so far
unfoldable pub load_segments :
    Bytes → ℕ → Memory → List (Reading ProgramHeader) → ℕ → Memory × Reading ℕ
unfolding load_segment
load_segments bytes root m [] program_break = (m, read program_break)
load_segments bytes root m (err e ∷ headers) program_break = (m, err e)
load_segments bytes root m (panic ∷ headers) program_break = (m, panic)
load_segments bytes root m (stray ∷ headers) program_break = (m, stray)
load_segments bytes root m (read header ∷ headers) program_break =
    let skipped = load_segments bytes root m headers program_break in
    let (m', done) = load_segment bytes root m header in
    let behind = add_usize header.vaddr header.memz in
    let loaded : Memory × Reading ℕ = elim done [
      | read _ ↦ load_segments bytes root m' headers behind
      | err e ↦ (m', err e)
      | panic ↦ (m', panic)
      | stray ↦ (m', stray)
    ] in
    if header.ptype == 1 then loaded else skipped

unfoldable pub load_exec : Elf → Memory → ℕ → Memory × Reading ℕ
unfolding load_segments
load_exec this m root =
    if this.header.kind == 2
    then load_segments this.bytes root m this.program_headers 0
    else (m, err not_an_executable)
