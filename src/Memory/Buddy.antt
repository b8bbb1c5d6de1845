-- ===== src/Memory/Buddy.antt =====
-- The heap of the kernel, kernel/src/memory/buddy_allocator.rs: blocks one behind the other, each
-- with a header at its address. `headers` is the memory of the headers, a block is its address.

pub mod Chain
pub mod Coalesce
pub mod Full
pub mod Dealloc
pub mod Split
pub mod Find
pub mod Alloc
use safa_os.Prelude.{
  ℕ, zero, suc, ◌+◌, ◌-◌, ◌*◌, ◌/◌, Bool, true, false, ◌&&◌, ◌||◌, not, ◌==◌, ltb, leb,
  if◌then◌else◌, Option, none, some, Result, ok, err, is_some, List, [], ◌∷◌,
}
use safa_os.Prelude.Words.{add_usize, sub_usize, mul_usize}
use safa_os.Memory.Align.{align_up}
use safa_os.Memory.FrameAllocator.{Frame, allocate_frame}
use safa_os.Memory.Paging.{
  Page, IterPage, Memory, MapToError, page_containing, get_frame, present, writable,
}
use safa_os.Memory.Paging.Pages.{collect, each_page, map_page}

pub record Block : Type 0 where
  pub free : Bool
  pub size : ℕ

abbrev pub size_of_block : ℕ
size_of_block = 16

pub record BuddyAllocator : Type 0 where
  pub headers : ℕ → Block
  pub head : ℕ
  pub tail : ℕ
  pub heap_end : ℕ

abbrev pub set_header : (ℕ → Block) → ℕ → Block → ℕ → Block
set_header headers at block a = if a == at then block else headers a

abbrev pub data_of : ℕ → ℕ
data_of block = add_usize block size_of_block

-- the two halves of a block; returns the right one
unfoldable pub divide : (ℕ → Block) → ℕ → (ℕ → Block) × ℕ
divide headers block =
    let size = (headers block).size / 2 in
    let left = set_header headers block (record { free = true; size = size }) in
    let buddy = add_usize block size in
    (set_header left buddy (record { free = true; size = size }), buddy)

-- `Block::spilt_to_fit`: the loop, with the buddy so far; each turn halves the size
unfoldable pub spilt_block : ℕ → (ℕ → Block) → ℕ → ℕ → Option ℕ → (ℕ → Block) × Option ℕ
spilt_block zero headers block size buddy = (headers, buddy)
spilt_block (suc fuel) headers block size buddy =
    let half = (headers block).size / 2 in
    let (headers', buddy') = divide headers block in
    let rest = spilt_block fuel headers' block size (some buddy') in
    if leb size half && ltb size_of_block half then rest else (headers, buddy)

-- `results <<= 1` until it is not below `size`; 64 turns pass every word
unfoldable pub double_up_to : ℕ → ℕ → ℕ → ℕ
double_up_to zero size results = results
double_up_to (suc fuel) size results =
    let rest = double_up_to fuel size (mul_usize results 2) in
    if ltb results size then rest else results

unfoldable pub align_to_power_of_2 : ℕ → ℕ
unfolding double_up_to
align_to_power_of_2 size = double_up_to 64 size 1

unfoldable pub align_down_to_power_of_2 : ℕ → ℕ
unfolding double_up_to
align_down_to_power_of_2 size =
    let results = double_up_to 64 size 1 in if results == size then results else results / 2

unfoldable pub actual_size : ℕ → ℕ
unfolding align_to_power_of_2
actual_size size = align_to_power_of_2 (add_usize size size_of_block)

unfoldable pub add_free : BuddyAllocator → ℕ → BuddyAllocator × ℕ
add_free this size =
    let new_block = this.heap_end in
    (
      record this {
        headers = set_header this.headers new_block (record { free = true; size = size });
        tail = new_block;
        heap_end = add_usize this.heap_end size;
      },
      new_block,
    )

-- a page of the new part of the heap, where it is not mapped yet
unfoldable pub expand_page : ℕ → Memory → Page → Memory × Result {0, 0} Unit MapToError
unfolding get_frame map_page
expand_page root m page =
    if is_some (get_frame m root page)
    then (m, ok tt)
    else map_page root (present + writable) m page

unfoldable pub init : (ℕ → Block) → ℕ → ℕ → BuddyAllocator
unfolding align_down_to_power_of_2
init headers possible_start size =
    let start = align_up (align_up possible_start size_of_block) 2 in
    let diff = sub_usize start possible_start in
    let size' = align_down_to_power_of_2 (sub_usize size diff) in
    record {
      headers = set_header headers start (record { free = true; size = size' });
      head = start;
      tail = start;
      heap_end = add_usize start size';
    }

-- the block behind a block
unfoldable pub next : ℕ → (ℕ → Block) → ℕ → Option ℕ
next heap_end headers block =
    let behind = add_usize block (headers block).size in
    if leb heap_end behind then none else some behind

-- `BuddyAllocator::spilt_to_fit`, which moves the tail to the last right half
unfoldable pub spilt_to_fit : BuddyAllocator → ℕ → ℕ → BuddyAllocator × ℕ
unfolding spilt_block
spilt_to_fit this block size =
    let (headers, found) = spilt_block 64 this.headers block size none in
    elim found [
      | some used ↦ (
        record this { headers = headers; tail = if block == this.tail then used else this.tail },
        used,
      )
      | none ↦ (record this { headers = headers }, block)
    ]

-- a candidate takes the place of the best one unless that one is smaller
unfoldable pub better : (ℕ → Block) → ℕ → Option ℕ → ℕ → Option ℕ
better headers size best block =
    let b = headers block in
    let improves = elim best as (λ _. Bool) [
      | some x ↦ leb b.size (headers x).size
      | none ↦ true
    ] in
    if b.free && leb size b.size && improves then some block else best

-- the loop over the pairs of blocks
unfoldable pub find_best : ℕ → ℕ → (ℕ → Block) → ℕ → ℕ → ℕ → Option ℕ → Option ℕ
find_best zero heap_end headers size block buddy best = best
find_best (suc fuel) heap_end headers size block buddy best =
    let best' = better headers size (better headers size best block) buddy in
    elim (next heap_end headers buddy) [
      | some next_buddy ↦ find_best fuel heap_end headers size buddy next_buddy best'
      | none ↦ best'
    ]

unfoldable pub find_free_block : BuddyAllocator → ℕ → BuddyAllocator × Option ℕ
find_free_block this size = elim (next this.heap_end this.headers this.head) [
  | none ↦ let (this', used) = spilt_to_fit this this.head size in (this', some used)
  | some buddy ↦
      elim (find_best (this.heap_end - this.head) this.heap_end this.headers size this.head buddy
        none) [
          | none ↦ (this, none)
          | some results ↦ ((spilt_to_fit this results size).0, some results)
        ]
]

abbrev pub mergeable : Block → Block → Bool
mergeable block buddy = block.free && buddy.free && (block.size == buddy.size)

-- One pass; a turn merges a pair or goes on to the next block.
unfoldable pub coalesce : ℕ → ℕ → (ℕ → Block) → ℕ → Bool → (ℕ → Block) × Bool
unfolding next
coalesce zero heap_end headers block results = (headers, results)
coalesce (suc fuel) heap_end headers block results = elim (next heap_end headers block) [
  | none ↦ (headers, results)
  | some buddy ↦
      let b = headers block in
      let c = headers buddy in
      let merged = set_header headers block (record b { size = mul_usize b.size 2 }) in
      let (headers', block', results') =
        if mergeable b c then (merged, block, true) else (headers, buddy, results) in
      coalesce fuel heap_end headers' block' results'
]

unfoldable pub coalescence_buddies : BuddyAllocator → BuddyAllocator × Bool
unfolding coalesce
coalescence_buddies this =
    let (headers, results) =
      coalesce (this.heap_end - this.head) this.heap_end this.headers this.head false in
    (record this { headers = headers }, results)

-- `while self.coalescence_buddies() {}`
unfoldable pub coalesce_while : ℕ → BuddyAllocator → Option BuddyAllocator
unfolding coalescence_buddies
coalesce_while zero this = none
coalesce_while (suc fuel) this =
    let (this', again) = coalescence_buddies this in
    let rest = coalesce_while fuel this' in if again then rest else some this'

unfoldable pub coalescence_buddies_full : BuddyAllocator → Option BuddyAllocator
unfolding coalesce_while
coalescence_buddies_full this = coalesce_while (this.heap_end - this.head + 1) this

abbrev pub set_free : BuddyAllocator → ℕ → Bool → BuddyAllocator
set_free this block free = record this {
  headers = set_header this.headers block (record (this.headers block) { free = free });
}

unfoldable pub deallocmut : BuddyAllocator → ℕ → Option BuddyAllocator
unfolding coalescence_buddies_full
deallocmut this ptr = coalescence_buddies_full (set_free this (sub_usize ptr size_of_block) true)

unfoldable pub expand_heap_by : Memory → ℕ → BuddyAllocator → ℕ → Memory × BuddyAllocator × Option ℕ
unfolding each_page expand_page add_free
expand_heap_by m root this size =
    let iter : IterPage = record {
      start = page_containing this.heap_end;
      end = page_containing (add_usize this.heap_end size);
    } in
    let (m', done) = each_page (expand_page root) m (collect iter) in
    elim done [
      | ok _ ↦ let (this', block) = add_free this size in (m', this', some block)
      | err e ↦ (m', this, none)
    ]

-- the block that is found, at first or behind a full pass
unfoldable pub find_or_coalesce : BuddyAllocator → ℕ → Option (BuddyAllocator × Option ℕ)
unfolding find_free_block coalescence_buddies_full
find_or_coalesce this size =
    let (this', found) = find_free_block this size in
    elim found [
      | some block ↦ some (this', some block)
      | none ↦ elim (coalescence_buddies_full this') [
        | some this'' ↦ some (find_free_block this'' size)
        | none ↦ none
      ]
    ]

-- the address of the data, or the null pointer; `none` is the end of the fuel
unfoldable pub allocmut : Memory → ℕ → BuddyAllocator → ℕ → Option (Memory × BuddyAllocator × ℕ)
unfolding find_or_coalesce expand_heap_by actual_size
allocmut m root this layout_size =
    let size = actual_size layout_size in
    elim (find_or_coalesce this size) [
      | none ↦ none
      | some (this', found) ↦ elim found [
        | some block ↦ some (m, set_free this' block false, data_of block)
        | none ↦
            let (m', this'', expanded) = expand_heap_by m root this' size in
            elim expanded [
              | some block ↦ some (m', set_free this'' block false, data_of block)
              | none ↦ some (m', this'', 0)
            ]
      ]
    ]
