-- ===== src/Memory/Bindings.antt =====
-- kernel/src/memory/sorcery.rs: the bindings, which say what of the current space a new one shares
-- at its highest level. What the boot loader knows of the physical memory is an argument.
pub mod Shares
mod Tests
use safa_os.Prelude.{ℕ, Option, none, some, Result, ok, err, List, [], ◌∷◌, if◌then◌else◌}
use safa_os.Prelude.Words.{add_usize, sub_usize}
use safa_os.Memory.Align.{page_size, align_up, translate}
use safa_os.Memory.FrameAllocator.{allocate_frame}
use safa_os.Memory.Paging.{
  Page, IterPage, Memory, MapToError, frame_allocation_failed, page_containing, next, write,
  zeroize,
}
use safa_os.Memory.Paging.Pages.{collect}
use safa_os.Vfs.Types.{Bytes, same_bytes}

pub record PageTableBinding : Type 0 where
  pub name : Bytes
  pub from : ℕ × ℕ
  pub to : ℕ × ℕ

abbrev pub pages_between : ℕ × ℕ → IterPage
pages_between (start, end) = record { start = page_containing start; end = page_containing end }

-- the entries of the pages, one page of the other range for each; `none` is a panic behind its end
unfoldable pub copy_entries : Memory → ℕ → ℕ → List Page → IterPage → Option Memory
copy_entries m from_page_table to_page_table [] to_iter = some m
copy_entries m from_page_table to_page_table (page ∷ pages) to_iter =
    let (to_iter', found) = next to_iter in
    elim found [
      | some to_page ↦
          let entry = m.cells from_page_table (translate page.start_address).p4 in
          copy_entries (write m to_page_table (translate to_page.start_address).p4 entry)
            from_page_table to_page_table pages to_iter'
      | none ↦ none
    ]

unfoldable pub apply_binding : Memory → PageTableBinding → ℕ → ℕ → Option Memory
apply_binding m this from_page_table to_page_table =
    copy_entries m from_page_table to_page_table (collect (pages_between this.from))
      (pages_between this.to)

unfoldable pub apply_bindings : Memory → List PageTableBinding → ℕ → ℕ → Option Memory
apply_bindings m [] from_page_table to_page_table = some m
apply_bindings m (binding ∷ bindings) from_page_table to_page_table =
    elim (apply_binding m binding from_page_table to_page_table) [
      | some m' ↦ apply_bindings m' bindings from_page_table to_page_table
      | none ↦ none
    ]

-- the start and the size of the binding of a name
unfoldable pub get : List PageTableBinding → Bytes → Option (ℕ × ℕ)
get [] name = none
get (binding ∷ bindings) name =
    let later = get bindings name in
    if same_bytes binding.name name
    then some (binding.to.0, sub_usize binding.to.1 binding.to.0)
    else later

-- a table from the bindings, over the current root table
unfoldable pub create_page_table :
    Memory → List PageTableBinding → ℕ → Option (Memory × Result ℕ MapToError)
create_page_table m bindings current_root_table =
    let (frames, found) = allocate_frame m.frames in
    let taken = record m { frames = frames } in
    elim found [
      | none ↦ some (taken, err frame_allocation_failed)
      | some frame ↦
          let table = frame.start_address in
          elim (apply_bindings (zeroize taken table) bindings current_root_table table) [
            | some m' ↦ some (m', ok table)
            | none ↦ none
          ]
    ]

-- `ROOT_BINDINGS`
abbrev pub root_bindings : ℕ → ℕ → ℕ → List PageTableBinding
root_bindings phy_offset phy_offset_end memory_end =
    let heap_start = phy_offset_end in
    let heap_end = add_usize heap_start memory_end in
    let large = align_up heap_end page_size in
    record {
      name = b'P' ∷ b'H' ∷ b'Y' ∷ b'S' ∷ b'_' ∷ b'M' ∷ b'E' ∷ b'M' ∷ [];
      from = (phy_offset, phy_offset_end);
      to = (phy_offset, phy_offset_end);
    }
    ∷ record { name = b'H' ∷ b'E' ∷ b'A' ∷ b'P' ∷ []; from = (0, 0); to = (heap_start, heap_end) }
    ∷ record {
      name = b'L' ∷ b'A' ∷ b'R' ∷ b'G' ∷ b'E' ∷ b'_' ∷ b'H' ∷ b'E' ∷ b'A' ∷ b'P' ∷ [];
      from = (0, 0);
      to = (large, 0xffffffff80000000);
    }
    ∷ record {
      name = b'T' ∷ b'O' ∷ b'P' ∷ b'_' ∷ b'M' ∷ b'O' ∷ b'S' ∷ b'T' ∷ b'_' ∷ b'2' ∷ b'G' ∷ b'B' ∷ [];
      from = (0xffffffff80000000, 0xffffffffffffffff);
      to = (0xffffffff80000000, 0xffffffffffffffff);
    }
    ∷ []
