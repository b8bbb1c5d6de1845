-- ===== src/Memory/FrameAllocator.antt =====
-- `RegionAllocator` of kernel/src/memory/frame_allocator.rs: physical frames of 4096 bytes, one bit
-- each in a bitmap of bytes. `none` is a panic: an index out of the bitmap, or `unwrap` of `None`.
mod Columns
mod Rows
pub mod Alloc
pub mod Free
pub mod Regions
use safa_os.Prelude.{
  ℕ, zero, suc, ◌+◌, ◌-◌, ◌*◌, ◌/◌, ◌%◌, ◌^◌, bit_and, bit_or, bit_xor, Option, none, some, List,
  [], ◌∷◌, Bool, ◌==◌, ltb, leb, if◌then◌else◌, get_elem?, set, length, get_elem?-set_self,
  get_elem?-set_ne, ◌<◌, ◌≡◌, ◌≢◌, arith,
}
use safa_os.Prelude.Bits.{bit}
use safa_os.Prelude.Words.{add_usize, mul_usize}
use safa_os.Memory.Align.{page_size, align_up, align_down}

pub record Frame : Type 0 where
  pub start_address : ℕ

unfoldable pub containing_address : ℕ → Frame
containing_address address = record { start_address = align_down address page_size }

pub record RegionAllocator : Type 0 where
  pub bitmap : List ℕ
  pub usable_frames : ℕ
  pub unusable_frames : ℕ

-- the inner loop over the columns that are left of one byte
unfoldable pub find_col : ℕ → ℕ → ℕ → Option ℕ
find_col zero col byte = none
find_col (suc n) col byte =
    let rest = find_col n (col + 1) byte in
    if bit_and (byte / 2 ^ col) 1 == 0 then some col else rest

-- the outer loop: the rows from `row` on, with the bitmap that it leaves
unfoldable pub allocate_rows : List ℕ → ℕ → List ℕ × Option Frame
allocate_rows [] row = ([], none)
allocate_rows (byte ∷ rows) row = elim (find_col 8 0 byte) [
  | some col ↦ (
    bit_or byte (2 ^ col) ∷ rows,
    some (record { start_address = mul_usize (row * 8 + col) page_size }),
  )
  | none ↦ let (rows', found) = allocate_rows rows (row + 1) in (byte ∷ rows', found)
]

unfoldable pub allocate_frame : RegionAllocator → RegionAllocator × Option Frame
unfolding allocate_rows find_col
allocate_frame this =
    let (rows, found) = allocate_rows this.bitmap 0 in (record this { bitmap = rows }, found)

abbrev pub bitmap_loc_from_index : ℕ → ℕ × ℕ
bitmap_loc_from_index index = (index / 8, index % 8)

abbrev pub bitmap_loc_from_addr : ℕ → ℕ × ℕ
bitmap_loc_from_addr addr = bitmap_loc_from_index (align_down addr page_size / page_size)

-- `self.bitmap[row] = f(self.bitmap[row])`, which panics where the row is out of range
pub update_row : RegionAllocator → ℕ → (ℕ → ℕ) → Option RegionAllocator
update_row this row f = elim (get_elem? this.bitmap row) [
  | some byte ↦ some (record this { bitmap = set this.bitmap row (f byte) })
  | none ↦ none
]

unfoldable pub set_unused : RegionAllocator → ℕ → Option RegionAllocator
unfolding update_row
set_unused this addr =
    let (row, col) = bitmap_loc_from_addr addr in
    update_row this row (λ byte. bit_xor byte (2 ^ col))

unfoldable pub set_used : RegionAllocator → ℕ → Option RegionAllocator
unfolding update_row
set_used this addr =
    let (row, col) = bitmap_loc_from_addr addr in
    update_row this row (λ byte. bit_or byte (2 ^ col))

pub deallocate_frame : RegionAllocator → Frame → Option RegionAllocator
unfolding set_unused
deallocate_frame this frame = set_unused this frame.start_address

-- What the bitmap says of frame `n`: 1 for used, 0 for free; `none` outside the bitmap.
abbrev pub state_in : List ℕ → ℕ → Option ℕ
state_in rows n = elim (get_elem? rows (n / 8)) [
  | some byte ↦ some (bit (n % 8) byte)
  | none ↦ none
]

abbrev pub state_of : RegionAllocator → ℕ → Option ℕ
state_of this n = state_in this.bitmap n

-- The state of a frame in terms of its row.
pub state_in_row :
    (rows : List ℕ) (n byte : ℕ)
    → get_elem? rows (n / 8) ≡ some byte
    → state_in rows n ≡ some (bit (n % 8) byte)
state_in_row rows n byte e = ground (arith, e)

pub state_in-set_self :
    (rows : List ℕ) (n v : ℕ)
    → n / 8 < length rows
    → state_in (set rows (n / 8) v) n ≡ some (bit (n % 8) v)
state_in-set_self rows n v h = ground (arith, get_elem?-set_self rows (n / 8) v h)

pub state_in-set_ne :
    (rows : List ℕ) (r m v : ℕ) → r ≢ m / 8 → state_in (set rows r v) m ≡ state_in rows m
state_in-set_ne rows r m v h = ground (arith, get_elem?-set_ne rows r (m / 8) v h)
