-- ===== src/Threading/DataSegment/Segment.antt =====
-- The pages of the data segment of kernel/src/threading/processes.rs, and one more of them.
use safa_os.Prelude.{ℕ, suc, ◌+◌, ◌*◌, ◌%◌, ◌^◌, ◌≤◌, ◌<◌, ◌≡◌, ◌≢◌, ap, ◌∙◌, some, arith}
use native.Mathlib.Decide.{ℕ_discrete}
use safa_os.Memory.Align.{translate, translate-injective}
use safa_os.Memory.FrameAllocator.{Frame}
use safa_os.Memory.Paging.{Memory, page_containing, get_frame, zeroize}
use safa_os.Memory.Paging.Entries.{IsPresent}
use safa_os.Memory.Paging.Step.{IsValid}
use safa_os.Memory.Paging.Pages.{page_at, page_containing_aligned}
use safa_os.Memory.Paging.Fill.{Filled, IsValid-zeroed, get_frame-zeroed}
use safa_os.Threading.Processes.{AliveProcessState}
use safa_os.Threading.DataSegment.{data_break_actual, user_page}

-- The pages of the data segment are mapped, in valid page tables, below 2 ^ 47.
pub record IsSegment (m : Memory) (root : ℕ) (this : AliveProcessState) : Type 0 where
  pub valid : IsValid m root
  pub aligned : this.data_start % 4096 ≡ 0
  pub bound : this.data_start + this.data_pages * 4096 ≤ 2 ^ 47
  pub mapped :
      (k : ℕ)
      → k < this.data_pages
      → (f : Frame) × (get_frame m root (page_at (this.data_start + k * 4096)) ≡ some f)

pub user_page-IsPresent : IsPresent user_page
user_page-IsPresent = record { present_bit = omega arith; address_clear = omega arith }

module _ (m : Memory) (root : ℕ) (this : AliveProcessState) (segment : IsSegment m root this) where
  pub actual_value : data_break_actual this ≡ this.data_start + this.data_pages * 4096
  actual_value = omega (arith, segment.bound)

  pub actual_page :
      page_containing (data_break_actual this) ≡ page_at (this.data_start + this.data_pages * 4096)
  actual_page =
      ap page_containing actual_value
      ∙ page_containing_aligned _ (omega (arith, segment.bound)) (omega (arith, segment.aligned))

  -- one more page, filled with zeros
  pub extended :
      (m' : Memory) (f : Frame)
      → this.data_start + suc this.data_pages * 4096 ≤ 2 ^ 47
      → Filled m m' root (page_at (this.data_start + this.data_pages * 4096)) f
      → IsSegment
          (zeroize m' f.start_address)
          root
          (record this { data_pages = this.data_pages + 1 })
  extended m' f room filled = record {
    valid = IsValid-zeroed m' root _ filled.valid filled.new;
    aligned = segment.aligned;
    bound = omega (arith, room);
    mapped = λ k lt. elim (ℕ_discrete k this.data_pages) [
      | yes last ↦ (
        f,
        get_frame-zeroed m' root _ filled.valid filled.new _
            ∙ ap (λ x. get_frame m' root (page_at (this.data_start + x * 4096))) last
            ∙ filled.there,
      )
      | no other ↦
          let (g, e) = segment.mapped k (omega (arith, lt, other)) in
          (
            g,
            get_frame-zeroed m' root _ filled.valid filled.new _
                ∙ filled.others _ (apart k (omega (arith, lt, other)))
                ∙ e,
          )
    ];
  }
    where
      apart :
          (k : ℕ)
          → k < this.data_pages
          → translate (this.data_start + k * 4096)
            ≢ translate (this.data_start + this.data_pages * 4096)
      apart k lt e =
          omega
            (arith, lt, translate-injective _ _ (omega (arith, lt, room)) (omega (arith, room)) e)
