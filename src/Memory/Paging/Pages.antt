-- ===== src/Memory/Paging/Pages.antt =====
-- Ranges of pages: the iteration of `IterPage` of kernel/src/memory/paging.rs, and the code that
-- maps new frames to every page of a range, in kernel/src/memory/mod.rs.
use safa_os.Prelude.{
  ℕ, zero, suc, ◌+◌, ◌-◌, ◌*◌, ◌/◌, ◌%◌, ◌^◌, ◌≤◌, ◌<◌, ◌≡◌, refl, Option, some, none, Result, ok,
  err, List, [], ◌∷◌, length, get_elem?, arith, lt→ltb, ap, ◌∙◌,
}
use safa_os.Prelude.Words.{add_usize}
use safa_os.Memory.Align.{align_down_page}
use safa_os.Memory.FrameAllocator.{Frame, allocate_frame}
use safa_os.Memory.Paging.{
  Page, IterPage, Memory, MapToError, frame_allocation_failed, page_containing, iter_pages, next,
  map_to, present, writable, user_accessible,
}

-- the pages that `next` yields, at most as many as the fuel
unfoldable pub yields : ℕ → IterPage → List Page
yields zero this = []
yields (suc fuel) this =
    let (this', found) = next this in
    let rest = yields fuel this' in elim found [ some page ↦ page ∷ rest | none ↦ [] ]

-- how many pages there are between the two ends
abbrev pub page_count : IterPage → ℕ
page_count this = (this.end.start_address - this.start.start_address + 4095) / 4096

abbrev pub collect : IterPage → List Page
collect this = yields (page_count this) this

-- `for page in pages { body?; }`
unfoldable pub each_page :
    {E : Type 0}
    → (Memory → Page → Memory × Result {0, 0} Unit E)
    → Memory
    → List Page
    → Memory × Result {0, 0} Unit E
each_page body m [] = (m, ok tt)
each_page body m (page ∷ pages) =
    let (m', done) = body m page in
    elim done [ ok _ ↦ each_page body m' pages | err e ↦ (m', err e) ]

-- a new frame for a page
unfoldable pub map_fresh : Memory → ℕ → Page → ℕ → Memory × Result {0, 0} Frame MapToError
unfolding map_to
map_fresh m root page flags =
    let (frames, found) = allocate_frame m.frames in
    let taken = record m { frames = frames } in
    elim found [
      | none ↦ (taken, err frame_allocation_failed)
      | some frame ↦
          let (m', done) = map_to taken root page frame flags in
          elim done [ ok _ ↦ (m', ok frame) | err e ↦ (m', err e) ]
    ]

-- a page of the kernel's heap
unfoldable pub map_page : ℕ → ℕ → Memory → Page → Memory × Result {0, 0} Unit MapToError
unfolding map_fresh
map_page root flags m page =
    let (m', done) = map_fresh m root page flags in
    elim done [ ok _ ↦ (m', ok tt) | err e ↦ (m', err e) ]

abbrev pub init_heap_size : ℕ
init_heap_size = 16 * (1024 * 1024)

-- `init_heap` up to the start of the allocator on it; `none` is a panic
unfoldable pub init_heap : Memory → ℕ → ℕ → Option (Memory × Result {0, 0} Unit MapToError)
unfolding each_page map_page yields
init_heap m root heap_start =
    let heap_end = add_usize heap_start init_heap_size in
    elim (iter_pages (page_containing heap_start) (page_containing heap_end)) [
      | some page_range ↦
          some (
            each_page (map_page root (present + writable + user_accessible)) m (collect page_range))
      | none ↦ none
    ]

abbrev pub range : ℕ → ℕ → IterPage
range start end = record {
  start = record { start_address = start };
  end = record { start_address = end };
}

next-more :
    (start end : ℕ)
    → start < end
    → end + 4096 < 2 ^ 64
    → next (range start end) ≡ (range (start + 4096) end, some (record { start_address = start }))
unfolding next
next-more start end h small =
    let bigger : add_usize start 4096 ≡ start + 4096 = omega arith in
    rw (lt→ltb start end h) (rw bigger)

next-done : (start end : ℕ) → end ≤ start → next (range start end) ≡ (range start end, none)
unfolding next
next-done start end h = ground (arith, h)

yields-more :
    (fuel start end : ℕ)
    → start < end
    → end + 4096 < 2 ^ 64
    → yields (suc fuel) (range start end)
      ≡ record { start_address = start } ∷ yields fuel (range (start + 4096) end)
unfolding yields
yields-more fuel start end h small =
    rw (yields, next-more start end h small, next-more start end h small)

yields-done : (fuel start end : ℕ) → end ≤ start → yields (suc fuel) (range start end) ≡ []
unfolding yields
yields-done fuel start end h = rw (yields, next-done start end h)

abbrev pub page_at : ℕ → Page
page_at address = record { start_address = address }

first_or_later :
    (pages : List Page) (start n : ℕ)
    → ((k : ℕ) → k < n → get_elem? pages k ≡ some (page_at (start + 4096 + k * 4096)))
    → (k : ℕ) → k < suc n
    → get_elem? (page_at start ∷ pages) k ≡ some (page_at (start + k * 4096))
first_or_later pages start n at zero lt = ap (λ x. some (page_at x)) (omega arith)
first_or_later pages start n at (suc k) lt =
    at k (omega arith) ∙ ap (λ x. some (page_at x)) (omega arith)

-- With `n` pages between its ends, below the end of the address space, and as much fuel, the
-- iteration yields the `n` pages in order, and no more.
pub yields-range :
    (n fuel start end : ℕ)
    → n ≤ fuel
    → start + n * 4096 ≡ end
    → end + 4096 < 2 ^ 64
    → (length (yields fuel (range start end)) ≡ n)
      × ((k : ℕ)
          → k < n
          → get_elem? (yields fuel (range start end)) k
            ≡ some (record { start_address = start + k * 4096 }))
unfolding yields
yields-range zero zero start end le e small = (refl, λ k lt. elim lt [ ])
yields-range zero (suc fuel) start end le e small =
    rw (yields-done fuel start end (omega arith)) (refl, λ k lt. elim lt [ ])
yields-range (suc n) zero start end le e small = absurd (omega arith)
yields-range (suc n) (suc fuel) start end le e small =
    let (size, at) = yields-range n fuel (start + 4096) end (omega arith) (omega arith) small in
    rw (yields-more fuel start end (omega arith) small) (ap suc size, first_or_later _ start n at)

-- the `n` pages from `start` on
abbrev pub ranged : ℕ → ℕ → List Page
ranged zero start = []
ranged (suc n) start = page_at start ∷ ranged n (start + 4096)

pub yields-ranged :
    (n fuel start end : ℕ)
    → n ≤ fuel
    → start + n * 4096 ≡ end
    → end + 4096 < 2 ^ 64
    → yields fuel (range start end) ≡ ranged n start
unfolding yields
yields-ranged zero zero start end le e small = refl
yields-ranged zero (suc fuel) start end le e small = yields-done fuel start end (omega arith)
yields-ranged (suc n) zero start end le e small = absurd (omega arith)
yields-ranged (suc n) (suc fuel) start end le e small =
    yields-more fuel start end (omega arith) small
    ∙ ap (λ pages. page_at start ∷ pages)
        (yields-ranged n fuel (start + 4096) end (omega arith) (omega arith) small)

pub page_containing_aligned : (x : ℕ) → x < 2 ^ 64 → x % 4096 ≡ 0 → page_containing x ≡ page_at x
unfolding page_containing
page_containing_aligned x small e =
    ap (λ (k : ℕ). page_at k) (align_down_page x small ∙ omega arith)
