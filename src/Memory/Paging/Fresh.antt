-- ===== src/Memory/Paging/Fresh.antt =====
-- A frame that `allocate_frame` hands out for a page table: below 52 bits, and used by nothing.
use native.Mathlib.Decide.{ℕ_discrete}
use mathlib.Core.Option.{some-injective}
use safa_os.Prelude.{
  ℕ, ◌*◌, ◌/◌, ◌^◌, ◌≤◌, ◌<◌, ◌≡◌, ◌≢◌, sym, ap, ◌∙◌, some, length, length-set, get_elem?-lt, arith,
}
use safa_os.Memory.FrameAllocator.{Frame, RegionAllocator, allocate_frame, state_of}
use safa_os.Memory.FrameAllocator.Alloc.{allocate_frame-some, allocate_frame-row}
use safa_os.Memory.FrameAllocator.Free.{frame_at, byte_of_state}

abbrev pub IsUsed : RegionAllocator → ℕ → Type 0
IsUsed frames table = state_of frames (table / 4096) ≡ some 1

pub record Fresh (frames frames' : RegionAllocator) (f : Frame) : Type 0 where
  pub n : ℕ
  pub address : f ≡ frame_at n
  pub small : n < 2 ^ 40
  pub was_free : state_of frames n ≡ some 0
  pub now_used : state_of frames' n ≡ some 1
  pub kept : (m : ℕ) → m ≢ n → state_of frames' m ≡ state_of frames m
  pub size : length frames'.bitmap ≡ length frames.bitmap

pub allocate_frame-Fresh :
    (this : RegionAllocator) (f : Frame)
    → length this.bitmap * 8 * 4096 ≤ 2 ^ 52
    → (allocate_frame this).1 ≡ some f
    → Fresh this (allocate_frame this).0 f
allocate_frame-Fresh this f fits h =
    let (n, address, free, taken, kept, _) = allocate_frame-some this f (omega (arith, fits)) h in
    let (_, _, _, _, _, _, after) = allocate_frame-row this f (omega (arith, fits)) h in
    let (byte, at, _) = byte_of_state this.bitmap n 0 free in
    record {
      n = n;
      address = ap (λ k. record { start_address = k }) address;
      small = omega (arith, fits, get_elem?-lt this.bitmap (n / 8) byte at);
      was_free = free;
      now_used = taken;
      kept = kept;
      size = ap (λ (a : RegionAllocator). length a.bitmap) after ∙ length-set this.bitmap _ _;
    }

module _ {frames frames' : RegionAllocator} {f : Frame} (fresh : Fresh frames frames' f) where
  pub used_ne_fresh : (s : ℕ) → IsUsed frames s → s ≢ fresh.n * 4096
  used_ne_fresh s used same =
      let place : s / 4096 ≡ fresh.n = omega (arith, same) in
      let clash : 1 ≡ 0 =
        some-injective 1 0 (sym used ∙ ap (state_of frames) place ∙ fresh.was_free) in
      omega (arith, clash)

  pub used_grows : (s : ℕ) → IsUsed frames s → IsUsed frames' s
  used_grows s used = elim (ℕ_discrete (s / 4096) fresh.n) [
    | no other ↦ fresh.kept (s / 4096) other ∙ used
    | yes place ↦ ap (state_of frames') place ∙ fresh.now_used
  ]

  pub fresh_used : IsUsed frames' (fresh.n * 4096)
  fresh_used =
      let place : fresh.n * 4096 / 4096 ≡ fresh.n = omega arith in
      ap (state_of frames') place ∙ fresh.now_used
