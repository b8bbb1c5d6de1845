-- ===== src/Memory/FrameAllocator/Free.antt =====
-- `deallocate_frame` of kernel/src/memory/frame_allocator.rs: the bits before and after.

use native.Mathlib.Decide.{ℕ_discrete}
use safa_os.Prelude.{
  ℕ, ◌-◌, ◌*◌, ◌/◌, ◌%◌, ◌^◌, ◌≤◌, ◌<◌, ◌≡◌, ◌≢◌, sym, ap, ◌∙◌, bit_xor, bit_or, some, List,
  get_elem?, set, length, arith, Option-cases, inl, inr, get_elem?-set_self, set-set, set_same,
  get_elem?-lt,
}
use safa_os.Prelude.Bits.{bit, bit-bit_xor_self, bit-bit_xor_ne, bit_xor-bit_or_undo}
use safa_os.Memory.Align.{page_size, align_down, align_down_page}
use safa_os.Memory.FrameAllocator.{
  Frame, RegionAllocator, allocate_frame, deallocate_frame, update_row, state_in, state_of,
  state_in_row, state_in-set_self, state_in-set_ne,
}
use safa_os.Memory.FrameAllocator.Alloc.{allocate_frame-row}

abbrev pub frame_at : ℕ → Frame
frame_at n = record { start_address = n * 4096 }

frame_index : (n : ℕ) → n * 4096 < 2 ^ 64 → align_down (n * 4096) page_size / page_size ≡ n
frame_index n h = rw (align_down_page (n * 4096) h) (omega arith)

pub byte_of_state :
    (rows : List ℕ) (n b : ℕ)
    → state_in rows n ≡ some b
    → (byte : ℕ) × (get_elem? rows (n / 8) ≡ some byte) × (bit (n % 8) byte ≡ b)
byte_of_state rows n b h = elim (Option-cases (get_elem? rows (n / 8))) [
  | inl out ↦ ground (arith, out, h)
  | inr (byte, at) ↦ (byte, at, ground (arith, at, h))
]

module _ (this : RegionAllocator) (n byte : ℕ) (fits : n * 4096 < 2 ^ 64)
    (at : get_elem? this.bitmap (n / 8) ≡ some byte) where
  deallocate_frame_value :
      deallocate_frame this (frame_at n)
      ≡ some (record this { bitmap = set this.bitmap (n / 8) (bit_xor byte (2 ^ (n % 8))) })
  unfolding deallocate_frame
  deallocate_frame_value =
      ap (λ k. update_row this (k / 8) (λ b. bit_xor b (2 ^ (k % 8)))) (frame_index n fits)
      ∙ rw (at, update_row)

  flipped_self :
      state_in (set this.bitmap (n / 8) (bit_xor byte (2 ^ (n % 8)))) n
      ≡ some (1 - bit (n % 8) byte)
  flipped_self =
      state_in-set_self this.bitmap n _ (get_elem?-lt this.bitmap (n / 8) byte at)
      ∙ ap some (bit-bit_xor_self (n % 8) byte)

  flipped_ne :
      (m : ℕ)
      → m ≢ n
      → state_in (set this.bitmap (n / 8) (bit_xor byte (2 ^ (n % 8)))) m ≡ state_in this.bitmap m
  flipped_ne m ne = elim (ℕ_discrete (n / 8) (m / 8)) [
    | no far ↦ state_in-set_ne this.bitmap (n / 8) m _ far
    | yes near ↦
        let at' : get_elem? this.bitmap (m / 8) ≡ some byte = rw (← near) at in
        rw near (state_in-set_self this.bitmap m _ (get_elem?-lt this.bitmap (m / 8) byte at'))
        ∙ ap some (bit-bit_xor_ne (m % 8) (n % 8) byte (λ e. ne (omega arith)))
        ∙ sym (state_in_row this.bitmap m byte at')
  ]

-- Freeing frame `n` of the bitmap succeeds, turns its state `b` into `1 - b` and leaves every other
-- frame as it was: a used frame becomes free.
pub deallocate_frame-toggle :
    (this : RegionAllocator) (n b : ℕ)
    → n * 4096 < 2 ^ 64
    → state_of this n ≡ some b
    → (this' : RegionAllocator) × (deallocate_frame this (frame_at n) ≡ some this')
      × (state_of this' n ≡ some (1 - b))
      × ((m : ℕ) → m ≢ n → state_of this' m ≡ state_of this m)
deallocate_frame-toggle this n b fits h =
    let (byte, at, is) = byte_of_state this.bitmap n b h in
    (
      record this { bitmap = set this.bitmap (n / 8) (bit_xor byte (2 ^ (n % 8))) },
      deallocate_frame_value this n byte fits at,
      flipped_self this n byte fits at ∙ ap (λ k. some (1 - k)) is,
      flipped_ne this n byte fits at,
    )

-- Freeing a free frame of the bitmap succeeds, and marks the frame as used.
pub deallocate_frame_twice :
    (this : RegionAllocator) (n : ℕ)
    → n * 4096 < 2 ^ 64
    → state_of this n ≡ some 0
    → (this' : RegionAllocator) × (deallocate_frame this (frame_at n) ≡ some this')
      × (state_of this' n ≡ some 1)
deallocate_frame_twice this n fits h =
    let (this', e, s, _) = deallocate_frame-toggle this n 0 fits h in (this', e, s)

-- Freeing the frame that `allocate_frame` just returned gives back the allocator of before.
pub deallocate_frame-allocate_frame :
    (this : RegionAllocator) (f : Frame)
    → length this.bitmap * 8 * 4096 ≤ 2 ^ 64
    → (allocate_frame this).1 ≡ some f
    → deallocate_frame (allocate_frame this).0 f ≡ some this
deallocate_frame-allocate_frame this f fits h =
    let (n, byte, is, at, free, small, after) = allocate_frame-row this f fits h in
    let set_bit = set this.bitmap (n / 8) (bit_or byte (2 ^ (n % 8))) in
    let lt = get_elem?-lt this.bitmap (n / 8) byte at in
    rw (is, after)
      (deallocate_frame_value (record this { bitmap = set_bit }) n (bit_or byte (2 ^ (n % 8))) small
          (get_elem?-set_self this.bitmap (n / 8) _ lt)
        ∙ ap (λ (rows : List ℕ). some (record this { bitmap = rows }))
            (rw (bit_xor-bit_or_undo (n % 8) byte free)
              (set-set this.bitmap (n / 8) _ byte ∙ set_same this.bitmap (n / 8) byte at)))
