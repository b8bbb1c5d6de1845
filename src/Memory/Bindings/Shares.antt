-- ===== src/Memory/Bindings/Shares.antt =====
-- What a table from the bindings of kernel/src/memory/sorcery.rs shares with the current one.
use safa_os.Prelude.{
  ℕ, zero, suc, ◌≡◌, ◌≢◌, refl, sym, ap, ◌∙◌, true, false, ◌==◌, ==-refl, ne→==_false, Bool-cases,
  Option-cases, some, none, ◌⊎◌, inl, inr, List, [], ◌∷◌, arith, ok, ◌*◌,
}
use safa_os.Memory.Align.{align_down, translate}
use safa_os.Vfs.Types.{Bytes}
use safa_os.Memory.FrameAllocator.{Frame, allocate_frame}
use safa_os.Memory.Paging.{Page, IterPage, Memory, next, write, zeroize, page_containing}
use safa_os.Memory.Paging.Pages.{yields, collect}
use safa_os.Memory.Paging.Fill.{pair_of}
use safa_os.Memory.Paging.Fresh.{allocate_frame-Fresh, used_ne_fresh}
use safa_os.Memory.Paging.Graph.{reach}
use safa_os.Memory.Paging.Step.{IsValid}
use safa_os.Memory.Bindings.{
  create_page_table, root_bindings, PageTableBinding, pages_between, copy_entries, apply_binding,
  apply_bindings,
}

-- `to` has empty entries and those of `from`, and nothing else is written
pub record Shares (m m' : Memory) (from to : ℕ) : Type 0 where
  pub frames : m'.frames ≡ m.frames
  pub others : (t i : ℕ) → t ≢ to → m'.cells t i ≡ m.cells t i
  pub entries : (i : ℕ) → (m'.cells to i ≡ 0) ⊎ (m'.cells to i ≡ m.cells from i)

-- a binding of a range to itself, or of no pages
pub data IsPlain : PageTableBinding → Type 0 where
  same : (binding : PageTableBinding) → binding.from ≡ binding.to → IsPlain binding
  empty : (binding : PageTableBinding) → collect (pages_between binding.from) ≡ [] → IsPlain binding

-- all bindings of a list
abbrev AllPlain : List PageTableBinding → Type 0
AllPlain [] = Unit
AllPlain (binding ∷ bindings) = IsPlain binding × AllPlain bindings

module _ (fuel : ℕ) (it it' : IterPage) where
  yields-end : next it ≡ (it', none) → yields (suc fuel) it ≡ []
  unfolding yields
  yields-end e = rw (yields, e)

  yields-step :
      (page : Page) → next it ≡ (it', some page) → yields (suc fuel) it ≡ page ∷ yields fuel it'
  unfolding yields
  yields-step page e = rw (yields, e, e)

copy_entries-step :
    (m : Memory) (from to : ℕ) (page to_page : Page) (pages : List Page) (it it' : IterPage)
    → next it ≡ (it', some to_page)
    → copy_entries m from to (page ∷ pages) it
      ≡ copy_entries
          (write m to
            (translate to_page.start_address).p4
            (m.cells from (translate page.start_address).p4))
          from
          to
          pages
          it'
unfolding copy_entries
copy_entries-step m from to page to_page pages it it' e = rw (copy_entries, e, e)

module _ (m : Memory) (from to : ℕ) (apart : from ≢ to) where
  Shares-write :
      (m' : Memory) (j : ℕ)
      → Shares m m' from to
      → Shares m (write m' to j (m'.cells from j)) from to
  unfolding write
  Shares-write m' j shares = record {
    frames = shares.frames;
    others = λ t i other. rw (ne→==_false t to other) (shares.others t i other);
    entries = λ i. entry i (Bool-cases (i == j));
  }
    where
      entry :
          (i : ℕ)
          → ((i == j) ≡ true) ⊎ ((i == j) ≡ false)
          → ((write m' to j (m'.cells from j)).cells to i ≡ 0)
            ⊎ ((write m' to j (m'.cells from j)).cells to i ≡ m.cells from i)
      entry i (inl h) =
          let e : i ≡ j = ground arith in
          inr (rw (==-refl to, h) (shares.others from j apart ∙ ap (m.cells from) (sym e)))
      entry i (inr h) = rw (==-refl to, h) (shares.entries i)

  copy_entries-Shares :
      (fuel : ℕ) (it : IterPage) (m' : Memory)
      → Shares m m' from to
      → (after : Memory) × (copy_entries m' from to (yields fuel it) it ≡ some after)
        × Shares m after from to
  unfolding copy_entries yields
  copy_entries-Shares zero it m' shares = (m', refl, shares)
  copy_entries-Shares (suc fuel) it m' shares = elim (Option-cases (next it).1) [
    | inl end ↦
        let none_left = yields-end fuel it _ (pair_of (next it) refl end) in
        (m', ap (λ pages. copy_entries m' from to pages it) none_left, shares)
    | inr (page, e) ↦
        let more = pair_of (next it) refl e in
        let j = (translate page.start_address).p4 in
        let (after, value, result) =
          copy_entries-Shares fuel (next it).0 (write m' to j (m'.cells from j))
            (Shares-write m' j shares) in
        (
          after,
          ap (λ pages. copy_entries m' from to pages it) (yields-step fuel it _ page more)
              ∙ copy_entries-step m' from to page page _ it _ more
              ∙ value,
          result,
        )
  ]

  apply_binding-Shares :
      (binding : PageTableBinding) (m' : Memory)
      → IsPlain binding
      → Shares m m' from to
      → (after : Memory) × (apply_binding m' binding from to ≡ some after) × Shares m after from to
  unfolding apply_binding copy_entries
  apply_binding-Shares binding m' (same b e) shares =
      let (after, value, result) = copy_entries-Shares _ (pages_between b.from) m' shares in
      (
        after,
        ap (λ range. copy_entries m' from to (collect (pages_between b.from)) (pages_between range))
              (sym e)
            ∙ value,
        result,
      )
  apply_binding-Shares binding m' (empty b e) shares = (m', copied, shares)
    where
      copied : apply_binding m' b from to ≡ some m'
      copied = ap (λ pages. copy_entries m' from to pages (pages_between b.to)) e

  apply_bindings-Shares :
      (bindings : List PageTableBinding) (m' : Memory)
      → AllPlain bindings
      → Shares m m' from to
      → (after : Memory) × (apply_bindings m' bindings from to ≡ some after)
        × Shares m after from to
  unfolding apply_bindings
  apply_bindings-Shares [] m' plain shares = (m', refl, shares)
  apply_bindings-Shares (binding ∷ bindings) m' (p, plain) shares =
      let (middle, first, kept) = apply_binding-Shares binding m' p shares in
      let (after, rest, result) = apply_bindings-Shares bindings middle plain kept in
      (after, rw (apply_bindings, first) rest, result)

no_pages-IsPlain :
    (name : Bytes) (to : ℕ × ℕ) → IsPlain (record { name = name; from = (0, 0); to = to })
unfolding yields next page_containing align_down
no_pages-IsPlain name to = empty (record { name = name; from = (0, 0); to = to }) refl

root_bindings-AllPlain :
    (phy_offset phy_offset_end memory_end : ℕ)
    → AllPlain (root_bindings phy_offset phy_offset_end memory_end)
root_bindings-AllPlain phy_offset phy_offset_end memory_end =
    (same _ refl, (no_pages-IsPlain _ _, (no_pages-IsPlain _ _, (same _ refl, tt))))

-- In valid page tables, with a free frame, a table from the bindings of the kernel is made without
-- a panic, whatever the boot loader reports. It is in that frame, each of its entries is empty or
-- that of the current root, and no other table changes.
pub create_page_table-Shares :
    (m : Memory) (root phy_offset phy_offset_end memory_end : ℕ) (f : Frame)
    → IsValid m root
    → (allocate_frame m.frames).1 ≡ some f
    → (after : Memory) × (create_page_table m
          (root_bindings phy_offset phy_offset_end memory_end)
          root
        ≡ some (after, ok f.start_address))
      × ((t i : ℕ) → t ≢ f.start_address → after.cells t i ≡ m.cells t i)
      × ((i : ℕ)
          → (after.cells f.start_address i ≡ 0) ⊎ (after.cells f.start_address i ≡ m.cells root i))
unfolding create_page_table zeroize reach
create_page_table-Shares m root phy_offset phy_offset_end memory_end f valid found =
    let taken = record m { frames = (allocate_frame m.frames).0 } in
    let blank = zeroize taken f.start_address in
    let fresh = allocate_frame-Fresh m.frames f valid.fits found in
    let address : f.start_address ≡ fresh.n * 4096 =
      ap (λ (x : Frame). x.start_address) fresh.address in
    let used = used_ne_fresh fresh root (valid.tree.used [] root (omega arith) refl) in
    let apart : root ≢ f.start_address = λ e. used (e ∙ address) in
    let zero_entry : (i : ℕ) → blank.cells f.start_address i ≡ 0 =
      λ i. rw (==-refl f.start_address) refl in
    let other_cell : (t i : ℕ) → t ≢ f.start_address → blank.cells t i ≡ m.cells t i =
      λ t i e. rw (ne→==_false t f.start_address e) refl in
    let (after, value, shares) =
      apply_bindings-Shares blank root f.start_address apart
        (root_bindings phy_offset phy_offset_end memory_end) blank
        (root_bindings-AllPlain phy_offset phy_offset_end memory_end)
        (record { frames = refl; others = λ t i e. refl; entries = λ i. inl (zero_entry i) }) in
    (
      after,
      rw (create_page_table, found, value),
      λ t i e. shares.others t i e ∙ other_cell t i e,
      λ i. elim (shares.entries i) [ inl e ↦ inl e | inr e ↦ inr (e ∙ other_cell root i apart) ],
    )
