-- ===== src/Threading/DataSegment/Break.antt =====
-- `extend_data_by` of kernel/src/threading/processes.rs for an amount that is not negative.
use safa_os.Prelude.{
  ℕ, ◌+◌, ◌-◌, ◌*◌, ◌/◌, ◌^◌, ◌≤◌, ◌<◌, ◌≡◌, sym, ap, ◌∙◌, inl, inr, lt→ltb, some, Result, ok, err,
  arith,
}
use safa_os.Prelude.Words.{add_usize}
use safa_os.Memory.Align.{align_down_page}
use safa_os.Memory.FrameAllocator.{Frame}
use safa_os.Memory.Paging.{Memory, MapToError, page_containing, get_frame}
use safa_os.Memory.Paging.Levels.{ok-injective}
use safa_os.Memory.Paging.Walk.{Result-cases}
use safa_os.Memory.Paging.Pages.{page_at}
use safa_os.Threading.Processes.{AliveProcessState}
use safa_os.Threading.DataSegment.{extend_up_to, pages_missing, extend_data_by}
use safa_os.Threading.DataSegment.Segment.{IsSegment}
use safa_os.Threading.DataSegment.Growth.{extend_up_to-Looped}

page_containing_value : (x : ℕ) → x < 2 ^ 64 → page_containing x ≡ page_at (x / 4096 * 4096)
unfolding page_containing
page_containing_value x small = ap (λ (k : ℕ). page_at k) (align_down_page x small)

-- every address of the segment up to its mapped end is in a mapped page
address-mapped :
    (m : Memory) (root : ℕ) (this : AliveProcessState) (a : ℕ)
    → IsSegment m root this
    → this.data_start ≤ a
    → a < this.data_start + this.data_pages * 4096
    → (f : Frame) × (get_frame m root (page_containing a) ≡ some f)
address-mapped m root this a segment low high =
    let k = (a - this.data_start) / 4096 in
    let (f, e) = segment.mapped k (omega (arith, high)) in
    let same : a / 4096 * 4096 ≡ this.data_start + k * 4096 = omega (arith, segment.aligned, low) in
    (
      f,
      ap (get_frame m root) (
            page_containing_value a (omega (arith, high, segment.bound))
            ∙ ap (λ (x : ℕ). page_at x) same)
          ∙ e,
    )

module _ (m : Memory) (root : ℕ) (this : AliveProcessState) (amount : ℕ)
    (small : this.data_break + amount ≤ 2 ^ 46) where
  abbrev goal : ℕ
  goal = add_usize this.data_break amount

  grown_value :
      (m' : Memory) (this' : AliveProcessState)
      → extend_up_to (pages_missing this goal) m root this goal ≡ some (m', this', ok tt)
      → extend_data_by m root this amount ≡ some (m', record this' { data_break = goal }, ok goal)
  unfolding extend_data_by
  grown_value m' this' h = rw (lt→ltb amount (2 ^ 63) (omega (arith, small)), h, extend_data_by)

  failed_value :
      (m' : Memory) (this' : AliveProcessState) (e : MapToError)
      → extend_up_to (pages_missing this goal) m root this goal ≡ some (m', this', err e)
      → extend_data_by m root this amount ≡ some (m', this', err e)
  unfolding extend_data_by
  failed_value m' this' e h = rw (lt→ltb amount (2 ^ 63) (omega (arith, small)), h, extend_data_by)

-- Where the pages of the data segment are mapped, and the new break is at most 2 ^ 46, growing the
-- segment does not panic and its loop ends; when it does not report an error, it returns the old
-- break plus the amount, which is the new break, the pages of the segment are mapped again, and
-- every address from the start of the segment to the new break is in a mapped page.
pub extend_data_by-grows :
    (m : Memory) (root : ℕ) (this : AliveProcessState) (amount : ℕ)
    → IsSegment m root this
    → this.data_break + amount ≤ 2 ^ 46
    → (m' : Memory) × (this' : AliveProcessState) × (r : Result {0, 0} ℕ MapToError)
      × (extend_data_by m root this amount ≡ some (m', this', r))
      × ((b : ℕ)
          → r ≡ ok b
          → (b ≡ this.data_break + amount)
            × (this'.data_break ≡ b)
            × (this'.data_start ≡ this.data_start)
            × IsSegment m' root this'
            × ((a : ℕ)
                → this.data_start ≤ a
                → a < b
                → (f : Frame) × (get_frame m' root (page_containing a) ≡ some f)))
extend_data_by-grows m root this amount segment small =
    let up = goal m root this amount small in
    let sum : up ≡ this.data_break + amount = omega (arith, small) in
    let loop =
      extend_up_to-Looped (pages_missing this up) m root this up segment (omega (arith, small))
        (omega arith) in
    elim (Result-cases loop.done) [
      | inr (e, failed) ↦ (
        loop.after,
        loop.this',
        err e,
        failed_value m root this amount small loop.after loop.this' e
            (loop.value ∙ ap (λ d. some (loop.after, loop.this', d)) failed),
        λ b clash. cc,
      )
      | inl (_, worked) ↦
          let g = loop.grown worked in
          let start : loop.this'.data_start ≡ this.data_start =
            ap (λ (x : AliveProcessState). x.data_start) g.only_pages in
          (
            loop.after,
            record loop.this' { data_break = up },
            ok up,
            grown_value m root this amount small loop.after loop.this'
                (loop.value ∙ ap (λ d. some (loop.after, loop.this', d)) worked),
            λ b returned.
                let is : up ≡ b = ok-injective up b returned in
                (
                  sym is ∙ sum,
                  is,
                  start,
                  record {
                    valid = g.segment.valid;
                    aligned = g.segment.aligned;
                    bound = g.segment.bound;
                    mapped = g.segment.mapped;
                  },
                  λ a low high.
                      address-mapped loop.after root loop.this' a g.segment
                        (omega (arith, start, low)) (omega (arith, g.enough, is, high)),
                ),
          )
    ]
