-- ===== src/Memory/Paging.antt =====
-- kernel/src/memory/paging.rs: pages, entries, and the four levels of page tables. A table is named
-- by its physical address, as in the direct map of all memory; `cells` holds the 512 words of each.
-- `none` is a panic.
pub mod Entries
pub mod Graph
pub mod Fresh
pub mod Step
pub mod Hang
pub mod Levels
pub mod Walk
pub mod Mapping
pub mod Spaces
pub mod Pages
pub mod Fill
pub mod Blank
use safa_os.Prelude.{
  ℕ, zero, suc, ◌+◌, ◌&&◌, bit_and, bit_or, Bool, ◌==◌, ltb, leb, if◌then◌else◌, Option, none, some,
  Result, ok, err, List, [], ◌∷◌,
}
use safa_os.Prelude.Words.{add_usize}
use safa_os.Memory.Align.{page_size, align_down, Indices, translate}
use safa_os.Memory.FrameAllocator.{
  Frame, RegionAllocator, containing_address, allocate_frame, deallocate_frame,
}

abbrev pub entry_count : ℕ
entry_count = 512

abbrev pub higher_half_entry : ℕ
higher_half_entry = 256

pub record Page : Type 0 where
  pub start_address : ℕ

pub record IterPage : Type 0 where
  pub start : Page
  pub end : Page

unfoldable pub page_containing : ℕ → Page
page_containing address = record { start_address = align_down address page_size }

-- panics where the start is not below the end
unfoldable pub iter_pages : Page → Page → Option IterPage
iter_pages start end =
    if ltb start.start_address end.start_address
    then some (record { start = start; end = end })
    else none

unfoldable pub next : IterPage → IterPage × Option Page
next this =
    if ltb this.start.start_address this.end.start_address
    then (
      record this {
        start = record { start_address = add_usize this.start.start_address page_size };
      },
      some this.start,
    )
    else (this, none)

-- the bits of `EntryFlags`
abbrev pub present : ℕ
present = 1

abbrev pub writable : ℕ
writable = 2

abbrev pub user_accessible : ℕ
user_accessible = 4

-- all the bits that `EntryFlags` names: 0 to 8, and 63
abbrev pub all_flags : ℕ
all_flags = 0x80000000000001FF

abbrev pub contains : ℕ → ℕ → Bool
contains flags other = bit_and flags other == other

abbrev pub flags_of : ℕ → ℕ
flags_of entry = bit_and entry all_flags

unfoldable pub is_mapped : ℕ → Bool
is_mapped entry = contains (flags_of entry) present

unfoldable pub frame_of : ℕ → Option Frame
frame_of entry =
    if is_mapped entry then some (containing_address (bit_and entry 0x000FFFFFFFFFF000)) else none

unfoldable pub new_entry : ℕ → ℕ → ℕ
new_entry flags addr = bit_or addr flags

-- the table that an entry leads to
unfoldable pub mapped_to : ℕ → Option ℕ
mapped_to entry = elim (frame_of entry) [ some frame ↦ some frame.start_address | none ↦ none ]

pub record Memory : Type 0 where
  pub cells : ℕ → ℕ → ℕ
  pub frames : RegionAllocator

-- `table[index] = entry`
unfoldable pub write : Memory → ℕ → ℕ → ℕ → Memory
write m table index entry = record m {
  cells = λ t i. if (t == table) && (i == index) then entry else m.cells t i;
}

unfoldable pub zeroize : Memory → ℕ → Memory
zeroize m table = record m { cells = λ t i. if t == table then 0 else m.cells t i }

pub data MapToError : Type 0 where
  frame_allocation_failed : MapToError

-- the entry `index` of `table`, with its frame or a new one; returns the table below
unfoldable pub map_entry : Memory → ℕ → ℕ → ℕ → Memory × Result ℕ MapToError
unfolding mapped_to
map_entry m table index flags = elim (mapped_to (m.cells table index)) [
  | some addr ↦ (write m table index (new_entry flags addr), ok addr)
  | none ↦
      let (frames, found) = allocate_frame m.frames in
      let taken = record m { frames = frames } in
      elim found [
        | none ↦ (taken, err frame_allocation_failed)
        | some frame ↦
            let addr = frame.start_address in
            (zeroize (write taken table index (new_entry flags addr)) addr, ok addr)
      ]
]

-- `map` on the entries of a list of indices, from the highest level down
unfoldable pub map_through : Memory → ℕ → List ℕ → ℕ → Memory × Result ℕ MapToError
unfolding map_entry
map_through m table [] flags = (m, ok table)
map_through m table (index ∷ indices) flags =
    let (m', below) = map_entry m table index flags in
    elim below [ ok table' ↦ map_through m' table' indices flags | err e ↦ (m', err e) ]

abbrev pub upper_indices : Indices → List ℕ
upper_indices t = t.p4 ∷ t.p3 ∷ t.p2 ∷ []

unfoldable pub map_to : Memory → ℕ → Page → Frame → ℕ → Memory × Result {0, 0} Unit MapToError
unfolding map_through
map_to m this page frame flags =
    let t = translate page.start_address in
    let (m', level_1_table) = map_through m this (upper_indices t) flags in
    elim level_1_table [
      | ok table ↦ (write m' table t.p1 (new_entry flags frame.start_address), ok tt)
      | err e ↦ (m', err e)
    ]

-- `mapped_to` along a list of indices
unfoldable pub mapped_through : Memory → ℕ → List ℕ → Option ℕ
mapped_through m table [] = some table
mapped_through m table (index ∷ indices) = elim (mapped_to (m.cells table index)) [
  | some table' ↦ mapped_through m table' indices
  | none ↦ none
]

unfoldable pub get_frame : Memory → ℕ → Page → Option Frame
unfolding mapped_through
get_frame m this page =
    let t = translate page.start_address in
    elim (mapped_through m this (upper_indices t)) [
      | some table ↦ frame_of (m.cells table t.p1)
      | none ↦ none
    ]

unfoldable pub unmap : Memory → ℕ → Page → Option Memory
unmap m this page = elim (get_frame m this page) [
  | some frame ↦ elim (deallocate_frame m.frames frame) [
    | some frames ↦ some (record m { frames = frames })
    | none ↦ none
  ]
  | none ↦ some m
]

-- entries `HIGHER_HALF_ENTRY..` of the current table
unfoldable pub copy_higher_half : Memory → ℕ → ℕ → Memory
copy_higher_half m this current = record m {
  cells = λ t i.
      if (t == this) && leb higher_half_entry i && ltb i entry_count
      then m.cells current i
      else m.cells t i;
}

unfoldable pub allocate_pml4 : Memory → ℕ → Memory × Result ℕ MapToError
unfolding copy_higher_half zeroize
allocate_pml4 m current =
    let (frames, found) = allocate_frame m.frames in
    let taken = record m { frames = frames } in
    elim found [
      | none ↦ (taken, err frame_allocation_failed)
      | some frame ↦
          let this = frame.start_address in
          (copy_higher_half (zeroize taken this) this current, ok this)
    ]

-- frees what an entry leads to: a frame at level 0, else a table of that level
unfoldable pub free_entries :
    (ℕ → RegionAllocator → Option RegionAllocator)
    → Memory
    → ℕ
    → ℕ
    → ℕ
    → RegionAllocator
    → Option RegionAllocator
free_entries free_entry m table zero index frames = some frames
free_entries free_entry m table (suc left) index frames =
    let entry = m.cells table index in
    let freed = if entry == 0 then some frames else free_entry entry frames in
    elim freed [
      | some frames' ↦ free_entries free_entry m table left (index + 1) frames'
      | none ↦ none
    ]

-- a table with what its lower entries lead to
unfoldable pub free_with :
    (ℕ → RegionAllocator → Option RegionAllocator)
    → Memory
    → ℕ
    → RegionAllocator
    → Option RegionAllocator
unfolding free_entries
free_with free_entry m table frames =
    elim (free_entries free_entry m table higher_half_entry 0 frames) [
      | some frames' ↦ deallocate_frame frames' (containing_address table)
      | none ↦ none
    ]

-- `Entry::free`
unfoldable pub free_entry : Memory → ℕ → ℕ → RegionAllocator → Option RegionAllocator
unfolding free_with
free_entry m zero entry frames = elim (frame_of entry) [
  | some frame ↦ deallocate_frame frames frame
  | none ↦ none
]
free_entry m (suc level) entry frames = elim (frame_of entry) [
  | some frame ↦ free_with (free_entry m level) m frame.start_address frames
  | none ↦ none
]

-- `PageTable::free`, where `level - 1` panics at level 0
unfoldable pub free_table : Memory → ℕ → ℕ → RegionAllocator → Option RegionAllocator
unfolding free_entry
free_table m zero table frames = free_with (λ _ _. none) m table frames
free_table m (suc level) table frames = free_with (free_entry m level) m table frames
