-- ===== src/Memory/Paging/Entries.antt =====
-- The words of a page table of kernel/src/memory/paging.rs: an address of a page with flags.
use safa_os.Prelude.{
  ℕ, ◌+◌, ◌-◌, ◌*◌, ◌/◌, ◌%◌, ◌^◌, ◌<◌, ◌≡◌, ◌==◌, ap, ◌∙◌, bit_and, bit_or, some, none, arith, inl,
  inr, Bool-cases, Option-cases, if◌then◌else◌,
}
use safa_os.Prelude.Bits.{
  bit_or_comm, bit_or-shift, bit_or_fields, bit_or_step, bit_and_step, bit_and_shifted,
  bit_and_mask, bit_and-one,
}
use safa_os.Memory.Align.{align_down_page}
use safa_os.Memory.FrameAllocator.{Frame, containing_address}
use safa_os.Memory.FrameAllocator.Free.{frame_at}
use safa_os.Memory.Paging.{all_flags, is_mapped, frame_of, new_entry, mapped_to}

-- flags with the bit PRESENT, none of which lies where the address is
pub record IsPresent (flags : ℕ) : Type 0 where
  pub present_bit : flags % 2 ≡ 1
  pub address_clear : flags / 4096 % 2 ^ 40 ≡ 0

pub is_mapped_value : (entry : ℕ) → is_mapped entry ≡ (entry % 2 == 1)
unfolding is_mapped
is_mapped_value entry =
    rw bit_and-one (ap (λ (x : ℕ). x == 1) (omega (arith, bit_and_step entry all_flags)))

address_bits : (x : ℕ) → bit_and x 0x000FFFFFFFFFF000 ≡ x / 4096 % 2 ^ 40 * 4096
address_bits x = bit_and_shifted 12 x (2 ^ 40 - 1) ∙ ap (λ k. k * 4096) (bit_and_mask 40 (x / 4096))

pub containing_address-frame_at : (n : ℕ) → n < 2 ^ 40 → containing_address (n * 4096) ≡ frame_at n
unfolding containing_address
containing_address-frame_at n h =
    ap (λ k. record { start_address = k }) (align_down_page (n * 4096) (omega arith) ∙ omega arith)

frame_of_value :
    (entry : ℕ)
    → frame_of entry ≡ (if entry % 2 == 1 then some (frame_at (entry / 4096 % 2 ^ 40)) else none)
unfolding frame_of
frame_of_value entry = rw (
  is_mapped_value,
  address_bits,
  containing_address-frame_at (entry / 4096 % 2 ^ 40) (omega arith),
)

new_entry-odd : (flags addr : ℕ) → IsPresent flags → new_entry flags addr % 2 ≡ 1
unfolding new_entry
new_entry-odd flags addr h = omega (arith, bit_or_step addr flags, h.present_bit)

new_entry-address :
    (flags n : ℕ) → IsPresent flags → n < 2 ^ 40 → new_entry flags (n * 4096) / 4096 % 2 ^ 40 ≡ n
unfolding new_entry
new_entry-address flags n h small =
    let low : n * 4096 / 4096 ≡ n = omega arith in
    let high : flags / 4096 ≡ flags / 4096 / 2 ^ 40 * 2 ^ 40 = omega (arith, h.address_clear) in
    let field = bit_or_fields 40 (flags / 4096 / 2 ^ 40) n small in
    let joined : bit_or (n * 4096) flags / 4096 ≡ flags / 4096 / 2 ^ 40 * 2 ^ 40 + n =
      bit_or-shift 12 (n * 4096) flags
      ∙ ap (λ k. bit_or k (flags / 4096)) low
      ∙ bit_or_comm n (flags / 4096)
      ∙ ap (λ k. bit_or k n) high
      ∙ field in
    omega (arith, joined, small)

pub frame_of-new_entry :
    (flags n : ℕ)
    → IsPresent flags
    → n < 2 ^ 40
    → frame_of (new_entry flags (n * 4096)) ≡ some (frame_at n)
frame_of-new_entry flags n h small =
    frame_of_value (new_entry flags (n * 4096))
    ∙ rw (new_entry-odd flags (n * 4096) h, new_entry-address flags n h small)

-- a frame that an entry leads to
pub frame_of-shape :
    (entry : ℕ) (f : Frame) → frame_of entry ≡ some f → (n : ℕ) × (f ≡ frame_at n) × (n < 2 ^ 40)
frame_of-shape entry f h = elim (Bool-cases (entry % 2 == 1)) [
  | inl odd ↦ (entry / 4096 % 2 ^ 40, ground (arith, frame_of_value entry, odd, h), omega arith)
  | inr even ↦ ground (arith, frame_of_value entry, even, h)
]

pub frame_of-zero : frame_of 0 ≡ none
frame_of-zero = frame_of_value 0

pub mapped_to-new_entry :
    (flags n : ℕ)
    → IsPresent flags
    → n < 2 ^ 40
    → mapped_to (new_entry flags (n * 4096)) ≡ some (n * 4096)
unfolding mapped_to
mapped_to-new_entry flags n h small = rw (mapped_to, frame_of-new_entry flags n h small)

pub mapped_to-zero : mapped_to 0 ≡ none
unfolding mapped_to
mapped_to-zero = rw (mapped_to, frame_of-zero)

pub mapped_to-shape :
    (entry table : ℕ) → mapped_to entry ≡ some table → (n : ℕ) × (table ≡ n * 4096) × (n < 2 ^ 40)
unfolding mapped_to
mapped_to-shape entry table h = elim (Option-cases (frame_of entry)) [
  | inl e ↦ ground (arith, e, h)
  | inr (f, e) ↦
      let (n, is, small) = frame_of-shape entry f e in
      (n, ground (arith, e, h, ap (λ (x : Frame). x.start_address) is), small)
]
