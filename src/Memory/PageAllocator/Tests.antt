-- ===== src/Memory/PageAllocator/Tests.antt =====
-- A run of two pages in a heap above the middle of the address space.
use safa_os.Prelude.{ℕ, ◌+◌, ◌*◌, ◌≤◌, ◌≡◌, refl, arith, ok, []}
use safa_os.Prelude.Words.{add_usize}
use safa_os.Memory.Align.{align_down, translate}
use safa_os.Memory.FrameAllocator.{allocate_frame, allocate_rows, find_col, containing_address}
use safa_os.Memory.Paging.{
  Memory, map_to, map_through, map_entry, mapped_to, frame_of, is_mapped, write, zeroize,
  page_containing, next, new_entry,
}
use safa_os.Memory.Paging.Blank.{blank, blank-IsValid}
use safa_os.Memory.Paging.Pages.{each_page, map_page, map_fresh, yields}
use safa_os.Memory.PageAllocator.{PageAllocator, pages_of, allocmut, allocated}
use safa_os.Memory.PageAllocator.Runs.{Run, allocmut-Run}

abbrev large_heap : ℕ
large_heap = 0xFFFF900000000000

abbrev empty : PageAllocator
empty = record {
  heap_start = large_heap;
  heap_end = 0xFFFFFFFF80000000;
  last_allocation = (large_heap, large_heap);
  allocations = 0;
}

abbrev with_run : Memory
with_run = (allocmut (blank 3) 4096 empty 2).0

allocates :
    allocmut (blank 3) 4096 empty 2
    ≡ (with_run, allocated empty large_heap (large_heap + 8192), ok large_heap)
unfolding allocmut align_down translate new_entry containing_address each_page map_page map_fresh
    yields page_containing next map_to map_through map_entry mapped_to frame_of is_mapped
    allocate_frame allocate_rows find_col zeroize write
allocates = refl

allocmut-Run_example :
    (large_heap ≡ large_heap)
    × (large_heap + 2 * 4096 ≤ 0xFFFFFFFF80000000)
    × Run (blank 3) with_run 4096 large_heap 2
    × (allocated empty large_heap (large_heap + 8192)
        ≡ allocated empty large_heap (large_heap + 2 * 4096))
allocmut-Run_example =
    allocmut-Run (blank 3) with_run 4096 empty (allocated empty large_heap (large_heap + 8192)) 2
      large_heap (blank-IsValid 3 refl) (omega arith) (omega arith) (omega arith) allocates

-- the pages that are released for a size below that of a page
keeps_last : pages_of large_heap (add_usize large_heap 100) ≡ []
unfolding yields align_down page_containing next
keeps_last = refl
