-- ===== src/Memory/Tests.antt =====
-- Two rows of frames, of which frame 11 is the first free one, addresses, and page tables.
use safa_os.Prelude.{
  ℕ, ◌+◌, ◌*◌, ◌%◌, ◌^◌, ◌≤◌, ◌<◌, ◌≡◌, ◌≢◌, refl, arith, some, none, List, [], ◌∷◌, length, true,
  false, if◌then◌else◌, ◌==◌, ◌⊎◌, ok, err,
}
use safa_os.Memory.Align.{align_up, align_up-ceil, translate}
use safa_os.Memory.FrameAllocator.{
  Frame, RegionAllocator, allocate_frame, allocate_rows, find_col, deallocate_frame, state_of,
}
use safa_os.Memory.FrameAllocator.Alloc.{allocate_frame-some, allocate_frame-none}
use safa_os.Memory.FrameAllocator.Free.{frame_at, deallocate_frame-allocate_frame}
use safa_os.Memory.Buddy.{
  Block, BuddyAllocator, data_of, deallocmut, find_free_block, find_best, better, next,
  spilt_to_fit, spilt_block, divide,
}
use safa_os.Memory.Buddy.Split.{AllPowers}
use safa_os.Memory.Buddy.Find.{NoneFits}
use safa_os.Memory.Buddy.Alloc.{Taken, find_free_block-takes}
use safa_os.Memory.Buddy.Chain.{HasNoPairs, allocated}
use safa_os.Memory.Buddy.Full.{IsHeap}
use safa_os.Memory.Buddy.Dealloc.{deallocmut-frees}
use safa_os.Memory.Paging.{
  Page, Memory, frame_allocation_failed, map_to, map_through, map_entry, mapped_to, get_frame,
  unmap, allocate_pml4, frame_of, is_mapped, write, zeroize,
}
use safa_os.Memory.Paging.Entries.{IsPresent}
use safa_os.Memory.Paging.Step.{IsValid, IsData, IsUntouched}
use safa_os.Memory.Paging.Levels.{IsExhausted}
use safa_os.Memory.Paging.Blank.{blank, blank-IsValid}
use safa_os.Memory.Paging.Mapping.{map_to-get_frame, map_to-full, unmap-stale}
use safa_os.Memory.Paging.Spaces.{allocate_pml4-shares}

abbrev two_rows : RegionAllocator
two_rows = record { bitmap = 255 ∷ 7 ∷ []; usable_frames = 16; unusable_frames = 0 }

abbrev full_row : RegionAllocator
full_row = record { bitmap = 255 ∷ []; usable_frames = 8; unusable_frames = 0 }

abbrev eleventh : Frame
eleventh = record { start_address = 45056 }

two_rows-fit : length two_rows.bitmap * 8 * 4096 ≤ 2 ^ 64
two_rows-fit = omega arith

allocates_eleventh : (allocate_frame two_rows).1 ≡ some eleventh
unfolding allocate_frame allocate_rows find_col
allocates_eleventh = refl

full_row_allocates : (allocate_frame full_row).1 ≡ none
unfolding allocate_frame allocate_rows find_col
full_row_allocates = refl

eleventh_free : state_of two_rows 11 ≡ some 0
eleventh_free = refl

third_used : state_of two_rows 3 ≡ some 1
third_used = refl

allocate_frame-some_example :
    (n : ℕ) × (eleventh.start_address ≡ n * 4096)
    × (state_of two_rows n ≡ some 0)
    × (state_of (allocate_frame two_rows).0 n ≡ some 1)
    × ((m : ℕ) → m ≢ n → state_of (allocate_frame two_rows).0 m ≡ state_of two_rows m)
    × ((m : ℕ) → m < n → state_of two_rows m ≡ some 1)
allocate_frame-some_example = allocate_frame-some two_rows eleventh two_rows-fit allocates_eleventh

allocate_frame-none_example :
    ((allocate_frame full_row).0 ≡ full_row)
    × ((n : ℕ) → n < length full_row.bitmap * 8 → state_of full_row n ≡ some 1)
allocate_frame-none_example = allocate_frame-none full_row full_row_allocates

deallocate_frame-allocate_frame_example :
    deallocate_frame (allocate_frame two_rows).0 eleventh ≡ some two_rows
deallocate_frame-allocate_frame_example =
    deallocate_frame-allocate_frame two_rows eleventh two_rows-fit allocates_eleventh

align_up-ceil_example :
    (5000 ≤ align_up 5000 (2 ^ 12))
    × (align_up 5000 (2 ^ 12) < 5000 + 2 ^ 12)
    × (align_up 5000 (2 ^ 12) % 2 ^ 12 ≡ 0)
align_up-ceil_example = align_up-ceil 12 5000 (omega arith) (omega arith)

abbrev some_page : Page
some_page = record { start_address = 0x40201000 }

read_write : IsPresent 3
read_write = record { present_bit = omega arith; address_clear = omega arith }

abbrev with_page : Memory
with_page = (map_to (blank 3) 4096 some_page (frame_at 1) 3).0

maps_page : map_to (blank 3) 4096 some_page (frame_at 1) 3 ≡ (with_page, ok tt)
unfolding map_to map_through map_entry mapped_to frame_of is_mapped allocate_frame allocate_rows
    find_col zeroize write
maps_page = refl

map_to-get_frame_example :
    IsValid with_page 4096
    × (get_frame with_page 4096 some_page ≡ some (frame_at 1))
    × ((other : Page)
        → translate other.start_address ≢ translate some_page.start_address
        → get_frame with_page 4096 other ≡ get_frame (blank 3) 4096 other)
    × ((x : ℕ) → IsData (blank 3) 4096 x → IsUntouched (blank 3) with_page 4096 x)
map_to-get_frame_example =
    map_to-get_frame (blank 3) with_page 4096 1 3 some_page (blank-IsValid 3 refl) read_write
      (omega arith) maps_page

no_frame_left :
    map_to (blank 255) 4096 some_page (frame_at 1) 3 ≡ (blank 255, err frame_allocation_failed)
unfolding map_to map_through map_entry mapped_to frame_of is_mapped allocate_frame allocate_rows
    find_col zeroize write
no_frame_left = refl

map_to-full_example :
    IsValid (blank 255) 4096
    × IsExhausted (blank 255).frames
    × ((other : Page) → get_frame (blank 255) 4096 other ≡ get_frame (blank 255) 4096 other)
map_to-full_example =
    map_to-full (blank 255) (blank 255) 4096 1 3 some_page (blank-IsValid 255 refl) read_write
      frame_allocation_failed no_frame_left

still_used : state_of with_page.frames 1 ≡ some 1
unfolding map_to map_through map_entry mapped_to frame_of is_mapped allocate_frame allocate_rows
    find_col zeroize write
still_used = refl

unmap-stale_example :
    (m' : Memory) × (unmap with_page 4096 some_page ≡ some m')
    × (state_of m'.frames 1 ≡ some 0)
    × (get_frame m' 4096 some_page ≡ some (frame_at 1))
unmap-stale_example =
    unmap-stale with_page 4096 1 some_page (omega arith) map_to-get_frame_example.1 still_used

abbrev with_space : Memory
with_space = (allocate_pml4 (blank 3) 4096).0

makes_space : allocate_pml4 (blank 3) 4096 ≡ (with_space, ok 8192)
unfolding allocate_pml4 allocate_frame allocate_rows find_col
makes_space = refl

allocate_pml4-shares_example :
    IsValid with_space 4096
    × IsValid with_space 8192
    × ((page : Page) → get_frame with_space 4096 page ≡ get_frame (blank 3) 4096 page)
    × ((page : Page)
        → (translate page.start_address).p4 < 256
        → get_frame with_space 8192 page ≡ none)
    × ((page : Page)
        → 256 ≤ (translate page.start_address).p4
        → get_frame with_space 8192 page ≡ get_frame (blank 3) 4096 page)
allocate_pml4-shares_example =
    allocate_pml4-shares (blank 3) with_space 4096 8192 (blank-IsValid 3 refl) makes_space

-- a heap of two blocks, the first one in use
abbrev two_blocks : BuddyAllocator
two_blocks = record {
  headers = λ a.
      if a == 4096 then record { free = false; size = 64 } else record { free = true; size = 64 };
  head = 4096;
  tail = 4160;
  heap_end = 4224;
}

abbrev used_block : Block
used_block = record { free = false; size = 64 }

abbrev free_block : Block
free_block = record { free = true; size = 64 }

two_blocks-IsHeap : IsHeap two_blocks (used_block ∷ free_block ∷ [])
two_blocks-IsHeap = record {
  small = omega arith;
  some_block = omega arith;
  chain = (refl, omega arith, (refl, omega arith, refl));
}

deallocmut-frees_example :
    (this' : BuddyAllocator) × (left : List Block) × (deallocmut two_blocks (data_of 4096)
      ≡ some this')
    × IsHeap this' left
    × HasNoPairs left
    × (allocated 4096 (used_block ∷ free_block ∷ []) ≡ (4096, 64) ∷ [])
    × (allocated this'.head left ≡ [])
deallocmut-frees_example =
    deallocmut-frees two_blocks [] (free_block ∷ []) used_block two_blocks-IsHeap refl

two_blocks-AllPowers : AllPowers (used_block ∷ free_block ∷ [])
two_blocks-AllPowers = ((6, refl), ((6, refl), tt))

find_free_block-takes_example :
    ((find_free_block two_blocks 20 ≡ (two_blocks, none))
      × NoneFits 20 (used_block ∷ free_block ∷ []))
    ⊎ ((x : ℕ) × (this' : BuddyAllocator) × (find_free_block two_blocks 20 ≡ (this', some x))
        × Taken two_blocks (used_block ∷ free_block ∷ []) 20 x this')
find_free_block-takes_example =
    find_free_block-takes two_blocks used_block free_block [] 20 two_blocks-IsHeap
      two_blocks-AllPowers

takes_second : (find_free_block two_blocks 20).1 ≡ some 4160
unfolding find_free_block find_best better next spilt_to_fit spilt_block divide
takes_second = refl

-- a heap of one block in use, which is given out again
abbrev one_block : BuddyAllocator
one_block = record { headers = λ a. used_block; head = 4096; tail = 4096; heap_end = 4160 }

takes_used : (find_free_block one_block 20).1 ≡ some 4128
unfolding find_free_block next spilt_to_fit spilt_block divide
takes_used = refl
