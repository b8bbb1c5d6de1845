-- ===== src/Memory/PageAllocator/Runs.antt =====
-- A run of pages that the page allocator of kernel/src/memory/page_allocator.rs maps.
use mathlib.Core.Path.{subst}
use safa_os.Prelude.{
  ℕ, zero, suc, ◌+◌, ◌*◌, ◌/◌, ◌%◌, ◌^◌, ◌≤◌, ◌<◌, ◌≡◌, ◌≢◌, refl, sym, ap, ◌∙◌, true, false, ltb,
  Bool-cases, some, ◌∷◌, Result, ok, err, List, arith, inl, inr,
}
use safa_os.Prelude.Words.{add_usize, mul_usize}
use safa_os.Memory.Align.{Indices, page_size, translate, translate_value}
use safa_os.Memory.FrameAllocator.{Frame}
use safa_os.Memory.Paging.{
  frame_allocation_failed, Page, Memory, MapToError, get_frame, present, writable,
}
use safa_os.Memory.Paging.Entries.{IsPresent}
use safa_os.Memory.Paging.Step.{IsValid}
use safa_os.Memory.Paging.Levels.{ok-injective}
use safa_os.Memory.Paging.Walk.{Result-cases}
use safa_os.Memory.Paging.Pages.{
  each_page, map_page, map_fresh, page_at, ranged, yields-ranged, page_containing_aligned,
}
use safa_os.Memory.Paging.Fill.{Filled, pair_of, map_fresh-Filled}
use safa_os.Memory.PageAllocator.{
  PageAllocator, pages_of, allocmut, allocated, Allocated, after_loop, allocate_run,
}

translate-page : (a b : ℕ) → translate a ≡ translate b → a / 4096 % 2 ^ 36 ≡ b / 4096 % 2 ^ 36
translate-page a b e =
    let same = sym (translate_value a) ∙ e ∙ translate_value b in
    let e1 : a / 4096 % 512 ≡ b / 4096 % 512 = ap (λ (t : Indices). t.p1) same in
    let e2 : a / 2097152 % 512 ≡ b / 2097152 % 512 = ap (λ (t : Indices). t.p2) same in
    let e3 : a / 1073741824 % 512 ≡ b / 1073741824 % 512 = ap (λ (t : Indices). t.p3) same in
    let e4 : a / 549755813888 % 512 ≡ b / 549755813888 % 512 = ap (λ (t : Indices). t.p4) same in
    omega (arith, e1, e2, e3, e4)

-- pages less than 2 ^ 36 apart have other indices
translate-ne : (a k : ℕ) → 0 < k → k < 2 ^ 36 → translate a ≢ translate (a + k * 4096)
translate-ne a k lt small e =
    let same = translate-page a (a + k * 4096) e in omega (arith, same, lt, small)

-- what a run of `n` new pages from `start` on has changed
pub record Run (m m' : Memory) (root start n : ℕ) : Type 0 where
  pub valid : IsValid m' root
  pub mapped :
      (k : ℕ) → k < n → (f : Frame) × (get_frame m' root (page_at (start + k * 4096)) ≡ some f)
  pub others :
      (other : Page)
      → ((k : ℕ) → k < n → translate other.start_address ≢ translate (start + k * 4096))
      → get_frame m' root other ≡ get_frame m root other

Run-none : (m : Memory) (root start : ℕ) → IsValid m root → Run m m root start 0
Run-none m root start valid = record {
  valid = valid;
  mapped = λ k lt. elim lt [ ];
  others = λ other apart. refl;
}

-- a new page in front of a run
Run-more :
    (m m' after : Memory) (root start n : ℕ) (f : Frame)
    → n < 2 ^ 36
    → Filled m m' root (page_at start) f
    → Run m' after root (start + 4096) n
    → Run m after root start (suc n)
Run-more m m' after root start n f small filled run = record {
  valid = run.valid;
  mapped = at;
  others = λ other apart.
      run.others other (λ k lt e. apart (suc k) (omega (arith, lt)) (e ∙ ap translate (shifted k)))
      ∙ filled.others other (λ e. apart 0 (omega arith) (e ∙ ap translate first));
}
  where
    shifted : (k : ℕ) → start + 4096 + k * 4096 ≡ start + suc k * 4096
    shifted k = omega arith

    first : start ≡ start + 0 * 4096
    first = omega arith

    at :
        (k : ℕ)
        → k < suc n
        → (g : Frame) × (get_frame after root (page_at (start + k * 4096)) ≡ some g)
    at zero lt = (
      f,
      ap (λ x. get_frame after root (page_at x)) (sym first)
          ∙ run.others (page_at start) (λ k below e.
            translate-ne start (suc k) (omega arith) (omega (arith, below, small))
              (e ∙ ap translate (shifted k)))
          ∙ filled.there,
    )
    at (suc k) lt =
        let (g, e) = run.mapped k (omega (arith, lt)) in
        (g, ap (λ x. get_frame after root (page_at x)) (sym (shifted k)) ∙ e)

abbrev Mapped : Type 0
Mapped = Memory × Result {0, 0} Unit MapToError

-- the rest of a loop behind one page
abbrev proceed : (Memory → Page → Mapped) → List Page → Mapped → Mapped
proceed body pages (m, ok _) = each_page body m pages
proceed body pages (m, err e) = (m, err e)

each_page-more :
    (body : Memory → Page → Mapped) (m : Memory) (page : Page) (pages : List Page)
    → each_page body m (page ∷ pages) ≡ proceed body pages (body m page)
unfolding each_page
each_page-more body m page pages = elim (Result-cases (body m page).1) [
  | inl (_, e) ↦ rw (each_page, pair_of (body m page) refl e)
  | inr (_, e) ↦ rw (each_page, pair_of (body m page) refl e)
]

module _ (root flags : ℕ) (m : Memory) (page : Page) where
  map_page-ok :
      (f : Frame)
      → (map_fresh m root page flags).1 ≡ ok f
      → map_page root flags m page ≡ ((map_fresh m root page flags).0, ok tt)
  unfolding map_page
  map_page-ok f e = rw (map_page, e)

  map_page-err :
      (e : MapToError)
      → (map_fresh m root page flags).1 ≡ err e
      → map_page root flags m page ≡ ((map_fresh m root page flags).0, err e)
  unfolding map_page
  map_page-err e h = rw (map_page, h)

module _ (root flags : ℕ) (ready : IsPresent flags) where
  abbrev map_run : Memory → ℕ → ℕ → Mapped
  map_run m n start = each_page (map_page root flags) m (ranged n start)

  map_run-Run :
      (n start : ℕ) (m after : Memory)
      → n ≤ 2 ^ 36
      → IsValid m root
      → map_run m n start ≡ (after, ok tt)
      → Run m after root start n
  unfolding each_page
  map_run-Run zero start m after small valid h =
      subst (λ x. Run m x root start 0) (ap (λ (o : Mapped). o.0) h) (Run-none m root start valid)
  map_run-Run (suc n) start m after small valid h =
      let out = map_fresh m root (page_at start) flags in
      elim (Result-cases out.1) [
        | inl (f, found) ↦
            let pair = pair_of out refl found in
            let goes : map_run m (suc n) start ≡ map_run out.0 n (start + 4096) =
              each_page-more (map_page root flags) m (page_at start) _
              ∙ ap (proceed (map_page root flags) _)
                  (map_page-ok root flags m (page_at start) f found) in
            let filled = map_fresh-Filled m out.0 root flags (page_at start) f valid ready pair in
            Run-more m out.0 after root start n f (omega (arith, small)) filled (
              map_run-Run n (start + 4096) out.0 after (omega (arith, small)) filled.valid
                (sym goes ∙ h))
        | inr (e, failed) ↦
            let stops : map_run m (suc n) start ≡ (out.0, err e) =
              each_page-more (map_page root flags) m (page_at start) _
              ∙ ap (proceed (map_page root flags) _)
                  (map_page-err root flags m (page_at start) e failed) in
            let clash : err e ≡ ok tt = ap (λ (o : Mapped). o.1) (sym stops ∙ h) in cc
      ]

kernel_page-IsPresent : IsPresent (present + writable)
kernel_page-IsPresent = record { present_bit = omega arith; address_clear = omega arith }

module _ (this : PageAllocator) (n : ℕ) (aligned : this.last_allocation.1 % 4096 ≡ 0)
    (room : this.last_allocation.1 + n * 4096 + 4096 < 2 ^ 64) where
  abbrev start : ℕ
  start = this.last_allocation.1

  end_value : add_usize start (mul_usize n page_size) ≡ start + n * 4096
  end_value = omega (arith, room)

  pages_of-ranged : pages_of start (start + n * 4096) ≡ ranged n start
  pages_of-ranged =
      rw
        (
          page_containing_aligned start (omega (arith, room)) aligned,
          page_containing_aligned (start + n * 4096) (omega (arith, room)) (omega (arith, aligned)),
        )
        (yields-ranged n _ start (start + n * 4096) (omega arith) refl room)

  module _ (m : Memory) (root : ℕ) where
    allocmut-full :
        ltb this.heap_end (start + n * 4096) ≡ true
        → allocmut m root this n ≡ (m, this, err frame_allocation_failed)
    unfolding allocmut
    allocmut-full full = ap (allocate_run m root this start) end_value ∙ rw full refl

    allocmut-loop :
        ltb this.heap_end (start + n * 4096) ≡ false
        → allocmut m root this n
          ≡ after_loop this start
              (start + n * 4096)
              (map_run root (present + writable) kernel_page-IsPresent m n start)
    unfolding allocmut
    allocmut-loop inside =
        ap (allocate_run m root this start) end_value
        ∙ rw inside (
            ap
              (λ pages.
                after_loop this start (start + n * 4096)
                  (each_page (map_page root (present + writable)) m pages))
              pages_of-ranged)

-- With its last allocation at a page, `allocmut` that returns a pointer, for a run whose end is no
-- overflow, returns the end of the last allocation. The whole run from there on is inside of the
-- heap and mapped, in valid page tables, pages with other indices lead where they led, and the
-- next allocation starts at its end.
pub allocmut-Run :
    (m m' : Memory) (root : ℕ) (this this' : PageAllocator) (n ptr : ℕ)
    → IsValid m root
    → this.last_allocation.1 % 4096 ≡ 0
    → n ≤ 2 ^ 36
    → this.last_allocation.1 + n * 4096 + 4096 < 2 ^ 64
    → allocmut m root this n ≡ (m', this', ok ptr)
    → (ptr ≡ this.last_allocation.1)
      × (ptr + n * 4096 ≤ this.heap_end)
      × Run m m' root ptr n
      × (this' ≡ allocated this ptr (ptr + n * 4096))
allocmut-Run m m' root this this' n ptr valid aligned small room h =
    let end = this.last_allocation.1 + n * 4096 in
    elim (Bool-cases (ltb this.heap_end end)) [
      | inl full ↦
          let clash : err frame_allocation_failed ≡ ok ptr =
            ap (λ (o : Allocated). o.2) (sym (allocmut-full this n aligned room m root full) ∙ h) in
          cc
      | inr inside ↦
          let out =
            map_run root (present + writable) kernel_page-IsPresent m n this.last_allocation.1 in
          let same = sym (allocmut-loop this n aligned room m root inside) ∙ h in
          let first =
            page_containing_aligned this.last_allocation.1 (omega (arith, room)) aligned in
          elim (Result-cases out.1) [
            | inl (x, done) ↦
                let loop : out ≡ (out.0, ok tt) = pair_of out refl done in
                let value : after_loop this this.last_allocation.1 end (out.0, ok tt)
                    ≡ (m', this', ok ptr) =
                  ap (after_loop this this.last_allocation.1 end) (sym loop) ∙ same in
                let pointer : this.last_allocation.1 ≡ ptr =
                  ap (λ (page : Page). page.start_address) (sym first)
                  ∙ ok-injective _ _ (ap (λ (o : Allocated). o.2) value) in
                let run =
                  map_run-Run root (present + writable) kernel_page-IsPresent n
                    this.last_allocation.1 m out.0 small valid loop in
                let within : end ≤ this.heap_end = ground (arith, inside) in
                rw (← pointer) (
                  refl,
                  within,
                  subst (λ x. Run m x root this.last_allocation.1 n)
                      (ap (λ (o : Allocated). o.0) value) run,
                  sym (ap (λ (o : Allocated). o.1) value),
                )
            | inr (e, failed) ↦
                let loop : out ≡ (out.0, err e) = pair_of out refl failed in
                let clash : err e ≡ ok ptr =
                  ap (λ (o : Allocated). o.2)
                    (ap (after_loop this this.last_allocation.1 end) (sym loop) ∙ same) in
                cc
          ]
    ]
