-- ===== src/Memory/FrameAllocator/Alloc.antt =====
-- `allocate_frame` of kernel/src/memory/frame_allocator.rs: the frame it returns, and the bitmap
-- before and after.
use safa_os.Prelude.{
  ℕ, ◌+◌, ◌*◌, ◌/◌, ◌%◌, ◌^◌, ◌≤◌, ◌<◌, ◌≡◌, ◌≢◌, sym, ap, ◌∙◌, bit_or, none, some, List, get_elem?,
  set, length, get_elem?-some_of_lt, get_elem?-lt, arith,
}
use safa_os.Prelude.Bits.{bit, bit-bit_or_self, bit-bit_or_ne}
use native.Mathlib.Decide.{ℕ_discrete}
use safa_os.Memory.FrameAllocator.{
  Frame, RegionAllocator, allocate_rows, allocate_frame, state_in, state_of, state_in_row,
  state_in-set_self, state_in-set_ne,
}
use safa_os.Memory.FrameAllocator.Rows.{IsFull, allocate_rows-some, allocate_rows-none}

fits_bitmap : (l r c : ℕ) → r < l → c < 8 → l * 8 * 4096 ≤ 2 ^ 64 → (r * 8 + c) * 4096 < 2 ^ 64
fits_bitmap l r c hr hc h = omega arith

-- setting one bit of one row, seen from the frames
module _ (rows : List ℕ) (n byte : ℕ) (at : get_elem? rows (n / 8) ≡ some byte) where
  state_after_self : state_in (set rows (n / 8) (bit_or byte (2 ^ (n % 8)))) n ≡ some 1
  state_after_self =
      state_in-set_self rows n (bit_or byte (2 ^ (n % 8))) (get_elem?-lt rows (n / 8) byte at)
      ∙ ap some (bit-bit_or_self (n % 8) byte)

  state_after_ne :
      (m : ℕ) → m ≢ n → state_in (set rows (n / 8) (bit_or byte (2 ^ (n % 8)))) m ≡ state_in rows m
  state_after_ne m ne = elim (ℕ_discrete (n / 8) (m / 8)) [
    | no far ↦ state_in-set_ne rows (n / 8) m _ far
    | yes near ↦
        let at' : get_elem? rows (m / 8) ≡ some byte = rw (← near) at in
        rw near (state_in-set_self rows m _ (get_elem?-lt rows (m / 8) byte at'))
        ∙ ap some (bit-bit_or_ne (m % 8) (n % 8) byte (λ e. ne (omega arith)))
        ∙ sym (state_in_row rows m byte at')
  ]

full_state :
    (rows : List ℕ) (m b : ℕ)
    → get_elem? rows (m / 8) ≡ some b
    → IsFull b
    → state_in rows m ≡ some 1
full_state rows m b e full = state_in_row rows m b e ∙ ap some (full (m % 8) (omega arith))

-- the frame and the row that an allocation touched
pub allocate_frame-row :
    (this : RegionAllocator) (f : Frame)
    → length this.bitmap * 8 * 4096 ≤ 2 ^ 64
    → (allocate_frame this).1 ≡ some f
    → (n : ℕ) × (byte : ℕ) × (f ≡ record { start_address = n * 4096 })
      × (get_elem? this.bitmap (n / 8) ≡ some byte)
      × (bit (n % 8) byte ≡ 0)
      × (n * 4096 < 2 ^ 64)
      × ((allocate_frame this).0
          ≡ record this { bitmap = set this.bitmap (n / 8) (bit_or byte (2 ^ (n % 8))) })
unfolding allocate_frame
allocate_frame-row this f fits h =
    let t = allocate_rows-some this.bitmap 0 f h in
    let n = t.r * 8 + t.c in
    let row : n / 8 ≡ t.r = omega (arith, t.col) in
    let col : n % 8 ≡ t.c = omega (arith, t.col) in
    let small : n * 4096 < 2 ^ 64 =
      omega (arith, t.col, get_elem?-lt this.bitmap t.r t.byte t.at, fits) in
    let addr : f.start_address ≡ n * 4096 = t.address ∙ omega (arith, small) in
    (
      n,
      t.byte,
      ap (λ k. record { start_address = k }) addr,
      rw row t.at,
      rw col t.free,
      small,
      rw (row, col) (ap (λ rows. record this { bitmap = rows }) t.after),
    )

-- With a bitmap whose frames all have addresses of 64 bits, a frame that `allocate_frame` returns
-- is the lowest free one: its address is the page of a frame `n` whose bit was 0, every frame below
-- it was used, its bit is now 1, and the bit of every other frame is what it was.
pub allocate_frame-some :
    (this : RegionAllocator) (f : Frame)
    → length this.bitmap * 8 * 4096 ≤ 2 ^ 64
    → (allocate_frame this).1 ≡ some f
    → let this' = (allocate_frame this).0 in
      (n : ℕ) × (f.start_address ≡ n * 4096)
      × (state_of this n ≡ some 0)
      × (state_of this' n ≡ some 1)
      × ((m : ℕ) → m ≢ n → state_of this' m ≡ state_of this m)
      × ((m : ℕ) → m < n → state_of this m ≡ some 1)
unfolding allocate_frame
allocate_frame-some this f fits h =
    let t = allocate_rows-some this.bitmap 0 f h in
    let n = t.r * 8 + t.c in
    let row : n / 8 ≡ t.r = omega (arith, t.col) in
    let col : n % 8 ≡ t.c = omega (arith, t.col) in
    let at : get_elem? this.bitmap (n / 8) ≡ some t.byte = rw row t.at in
    let after : (allocate_rows this.bitmap 0).0
        ≡ set this.bitmap (n / 8) (bit_or t.byte (2 ^ (n % 8))) =
      rw (row, col) t.after in
    (
      n,
      t.address ∙ omega (arith, t.col, get_elem?-lt this.bitmap t.r t.byte t.at, fits),
      state_in_row this.bitmap n t.byte at ∙ ap some (rw col t.free),
      rw after (state_after_self this.bitmap n t.byte at),
      λ m ne. rw after (state_after_ne this.bitmap n t.byte at m ne),
      λ m lt. elim (ℕ_discrete (m / 8) t.r) [
        | yes e ↦
            let at' : get_elem? this.bitmap (m / 8) ≡ some t.byte = rw e t.at in
            state_in_row this.bitmap m t.byte at' ∙ ap some (t.cols_before (m % 8) (omega arith))
        | no far ↦
            let below : m / 8 < t.r = omega (arith, t.col) in
            let (b, e) =
              get_elem?-some_of_lt this.bitmap (m / 8)
                (omega (arith, get_elem?-lt this.bitmap t.r t.byte t.at)) in
            full_state this.bitmap m b e (t.rows_before (m / 8) b below e)
      ],
    )

-- When `allocate_frame` returns nothing, it changed nothing and every frame of the bitmap is used.
pub allocate_frame-none :
    (this : RegionAllocator)
    → (allocate_frame this).1 ≡ none
    → ((allocate_frame this).0 ≡ this)
      × ((n : ℕ) → n < length this.bitmap * 8 → state_of this n ≡ some 1)
unfolding allocate_frame
allocate_frame-none this h =
    let (same, full) = allocate_rows-none this.bitmap 0 h in
    (
      ap (λ rows. record this { bitmap = rows }) same,
      λ n lt.
          let (b, e) = get_elem?-some_of_lt this.bitmap (n / 8) (omega arith) in
          full_state this.bitmap n b e (full (n / 8) b e),
    )
