-- ===== src/Memory/FrameAllocator/Regions.antt =====
-- `RegionAllocator::new` of kernel/src/memory/frame_allocator.rs over the memory map of the boot
-- loader, which is an argument, and the count of mapped frames. `none` is a panic.
use safa_os.Prelude.{
  ℕ, zero, suc, ◌+◌, ◌/◌, ◌%◌, Bool, true, ◌&&◌, ◌==◌, ltb, leb, if◌then◌else◌, Option, none, some,
  List, [], ◌∷◌, replicate,
}
use safa_os.Prelude.Words.{add_usize, sub_usize, mul_usize}
use safa_os.Memory.Align.{page_size, align_up, align_down}
use safa_os.Memory.FrameAllocator.{RegionAllocator, set_used, set_unused}

-- an entry of the memory map of limine
pub record Entry : Type 0 where
  pub base : ℕ
  pub length : ℕ
  pub usable : Bool

-- `for frame in 0..n { f(from + frame * PAGE_SIZE) }`
unfoldable pub each_frame :
    (RegionAllocator → ℕ → Option RegionAllocator)
    → ℕ
    → ℕ
    → ℕ
    → RegionAllocator
    → Option RegionAllocator
each_frame f zero frame from this = some this
each_frame f (suc n) frame from this = elim (f this (add_usize from (mul_usize frame page_size))) [
  | some this' ↦ each_frame f n (frame + 1) from this'
  | none ↦ none
]

unfoldable pub set_used_from : RegionAllocator → ℕ → ℕ → Option RegionAllocator
unfolding each_frame set_used
set_used_from this from size = each_frame set_used (align_up size page_size / page_size) 0 from this

unfoldable pub set_unused_from : RegionAllocator → ℕ → ℕ → Option RegionAllocator
unfolding each_frame set_unused
set_unused_from this from size =
    each_frame set_unused (align_down size page_size / page_size) 0 from this

-- the usable frames, the other ones, and the last usable entry
abbrev pub count_frames : List Entry → ℕ × ℕ × Option Entry → ℕ × ℕ × Option Entry
count_frames [] counts = counts
count_frames (entry ∷ entries) (usable, unusable, last) = count_frames entries (
    if entry.usable
    then (add_usize usable (entry.length / page_size), unusable, some entry)
    else (usable, add_usize unusable (entry.length / page_size), last))

-- the smallest usable region with room for the bitmap, the first of them
abbrev pub find_region : ℕ → List Entry → Option Entry → Option Entry
find_region bytes [] best = best
find_region bytes (entry ∷ entries) best =
    let smaller = elim best as (λ _. Bool) [ some x ↦ ltb entry.length x.length | none ↦ true ] in
    find_region bytes entries
      (if entry.usable && leb bytes entry.length && smaller then some entry else best)

-- the usable entries, up to the last one
unfoldable pub free_usable : List Entry → ℕ → RegionAllocator → Option RegionAllocator
unfolding set_unused_from
free_usable [] last_base this = some this
free_usable (entry ∷ entries) last_base this =
    let freed = if entry.usable then set_unused_from this entry.base entry.length else some this in
    elim freed [
      | some this' ↦
          if entry.base == last_base then some this' else free_usable entries last_base this'
      | none ↦ none
    ]

unfoldable pub new : List Entry → Option RegionAllocator
unfolding free_usable set_used_from
new entries =
    let (usable_frames, unusable_frames, last_usable) = count_frames entries (0, 0, none) in
    let bytes = align_up (add_usize usable_frames unusable_frames) 8 / 8 in
    elim (find_region bytes entries none) [
      | none ↦ none
      | some region ↦ elim last_usable [
        | none ↦ none
        | some last ↦
            let this : RegionAllocator = record {
              bitmap = replicate bytes 0xFF;
              usable_frames = usable_frames;
              unusable_frames = unusable_frames;
            } in
            elim (free_usable entries last.base this) [
              | some this' ↦ set_used_from this' region.base region.length
              | none ↦ none
            ]
      ]
    ]

abbrev pub count_ones : ℕ → ℕ → ℕ
count_ones zero byte = 0
count_ones (suc n) byte = byte % 2 + count_ones n (byte / 2)

abbrev pub ones_of : List ℕ → ℕ
ones_of [] = 0
ones_of (byte ∷ rows) = count_ones 8 byte + ones_of rows

unfoldable pub mapped_frames : RegionAllocator → ℕ
mapped_frames this = sub_usize (ones_of this.bitmap) this.unusable_frames
