-- ===== src/Memory/PageAllocator.antt =====
-- kernel/src/memory/page_allocator.rs: an allocator of runs of pages that moves on through its heap
-- and starts again when nothing is allocated. The root of the current space is an argument.
use safa_os.Prelude.{
  ℕ, ◌+◌, ◌*◌, ◌/◌, ◌==◌, ltb, if◌then◌else◌, Option, none, some, Result, ok, err, List, [], ◌∷◌,
}
use safa_os.Prelude.Words.{add_usize, sub_usize, mul_usize}
use safa_os.Memory.Align.{page_size, align_up}
use safa_os.Memory.Paging.{
  Page, IterPage, Memory, MapToError, frame_allocation_failed, page_containing, unmap, present,
  writable,
}
use safa_os.Memory.Paging.Pages.{collect, each_page, map_page}
pub mod Runs
mod Tests

pub record PageAllocator : Type 0 where
  pub heap_start : ℕ
  pub heap_end : ℕ
  pub last_allocation : ℕ × ℕ
  pub allocations : ℕ

-- over the binding of the large heap, with its start and its size
abbrev pub new : Option (ℕ × ℕ) → Option PageAllocator
new none = none
new (some (start, size)) = some (record {
  heap_start = start;
  heap_end = add_usize start size;
  last_allocation = (start, start);
  allocations = 0;
})

abbrev pub pages_of : ℕ → ℕ → List Page
pages_of start end = collect (record { start = page_containing start; end = page_containing end })

abbrev pub allocated : PageAllocator → ℕ → ℕ → PageAllocator
allocated this start end = record this {
  last_allocation = (start, end);
  allocations = this.allocations + 1;
}

abbrev pub Allocated : Type 0
Allocated = Memory × PageAllocator × Result ℕ MapToError

-- what the loop over the pages from `start` to `end` comes to
abbrev pub after_loop : PageAllocator → ℕ → ℕ → Memory × Result {0, 0} Unit MapToError → Allocated
after_loop this start end (m', ok _) =
    (m', allocated this start end, ok (page_containing start).start_address)
after_loop this start end (m', err e) = (m', this, err e)

-- `allocmut` between the two addresses
abbrev pub allocate_run : Memory → ℕ → PageAllocator → ℕ → ℕ → Allocated
allocate_run m root this start end =
    if ltb this.heap_end end
    then (m, this, err frame_allocation_failed)
    else after_loop this start end
        (each_page (map_page root (present + writable)) m (pages_of start end))

unfoldable pub allocmut : Memory → ℕ → PageAllocator → ℕ → Allocated
allocmut m root this page_count =
    let start = this.last_allocation.1 in
    allocate_run m root this start (add_usize start (mul_usize page_count page_size))

-- `none` is a panic of a frame that the allocator does not know
unfoldable pub unmap_pages : Memory → ℕ → List Page → Option Memory
unmap_pages m root [] = some m
unmap_pages m root (page ∷ pages) = elim (unmap m root page) [
  | some m' ↦ unmap_pages m' root pages
  | none ↦ none
]

abbrev pub released : PageAllocator → PageAllocator
released this =
    let allocations = sub_usize this.allocations 1 in
    let last =
      if allocations == 0 then (this.heap_start, this.heap_start) else this.last_allocation in
    record this { allocations = allocations; last_allocation = last }

unfoldable pub deallocmut : Memory → ℕ → PageAllocator → ℕ → ℕ → Option (Memory × PageAllocator)
deallocmut m root this ptr size = elim (unmap_pages m root (pages_of ptr (add_usize ptr size))) [
  | some m' ↦ some (m', released this)
  | none ↦ none
]

-- `alloc` of a layout by its size, with the null pointer for an error
unfoldable pub alloc : Memory → ℕ → PageAllocator → ℕ → Memory × PageAllocator × ℕ
alloc m root this size =
    let (m', this', done) = allocmut m root this ((size + 4095) / page_size) in
    elim done [ ok ptr ↦ (m', this', ptr) | err _ ↦ (m', this', 0) ]

-- the pointer and the length of the slice, or none for an error
unfoldable pub allocate : Memory → ℕ → PageAllocator → ℕ → Memory × PageAllocator × Option (ℕ × ℕ)
allocate m root this size =
    let (m', this', ptr) = alloc m root this size in
    (m', this', if ptr == 0 then none else some (ptr, align_up size page_size))
