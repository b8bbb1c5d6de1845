-- ===== src/Threading/Areas.antt =====
-- The areas that a process gets when it is made, `alloc_map` of kernel/src/threading/mod.rs, and
-- its arguments, in `Process::new` of kernel/src/threading/processes.rs. `none` is a panic.
use safa_os.Prelude.{
  ℕ, zero, suc, ◌+◌, ◌*◌, ◌/◌, ◌%◌, Option, none, some, Result, ok, err, List, [], ◌∷◌, length,
}
use safa_os.Prelude.Words.{add_usize}
use safa_os.Vfs.Types.{Bytes}
use safa_os.Memory.Align.{page_size}
use safa_os.Memory.FrameAllocator.{Frame, allocate_frame}
use safa_os.Memory.Paging.{
  Page, Memory, MapToError, frame_allocation_failed, page_containing, iter_pages, map_to, zeroize,
}
use safa_os.Memory.Paging.Pages.{collect}
use safa_os.Memory.Userspace.{copy_to_userspace}
use safa_os.Threading.DataSegment.{user_page}

abbrev pub stack_size : ℕ
stack_size = page_size * 6

abbrev pub stack_start : ℕ
stack_start = 0x00007A3000000000

abbrev pub ring0_stack_start : ℕ
ring0_stack_start = 0x00007A0000000000

abbrev pub argv_start : ℕ
argv_start = 0x00007E0000000000 + 0xA000000000

abbrev pub argv_size : ℕ
argv_size = page_size * 4

-- the frames of an area, all of them before the first is mapped
unfoldable pub alloc_frames : ℕ → Memory → Memory × Result {0, 0} (List Frame) MapToError
alloc_frames zero m = (m, ok [])
alloc_frames (suc n) m =
    let (frames, found) = allocate_frame m.frames in
    let taken = record m { frames = frames } in
    elim found [
      | some frame ↦
          let (m', others) = alloc_frames n taken in
          elim others [ ok list ↦ (m', ok (frame ∷ list)) | err e ↦ (m', err e) ]
      | none ↦ (taken, err frame_allocation_failed)
    ]

unfoldable pub fill_frames : Memory → List Frame → Memory
fill_frames m [] = m
fill_frames m (frame ∷ frames) = fill_frames (zeroize m frame.start_address) frames

-- page `i` of the area to frame `i`; a page behind the last frame panics
unfoldable pub map_all :
    Memory → ℕ → List Page → List Frame → Option (Memory × Result {0, 0} Unit MapToError)
map_all m root [] frames = some (m, ok tt)
map_all m root (page ∷ pages) [] = none
map_all m root (page ∷ pages) (frame ∷ frames) =
    let (m', done) = map_to m root page frame user_page in
    elim done [ ok _ ↦ map_all m' root pages frames | err e ↦ some (m', err e) ]

unfoldable pub alloc_map : Memory → ℕ → ℕ → ℕ → Option (Memory × Result {0, 0} Unit MapToError)
unfolding alloc_frames fill_frames map_all
alloc_map m root start size =
    let (m', found) = alloc_frames (size / page_size) m in
    elim found [
      | err e ↦ some (m', err e)
      | ok frames ↦ elim (iter_pages (page_containing start) (page_containing (start + size))) [
        | some iter ↦ map_all (fill_frames m' frames) root (collect iter) frames
        | none ↦ none
      ]
    ]

unfoldable pub alloc_stack : Memory → ℕ → Option (Memory × Result {0, 0} Unit MapToError)
unfolding alloc_map
alloc_stack m root = alloc_map m root stack_start stack_size

unfoldable pub alloc_argv : Memory → ℕ → Option (Memory × Result {0, 0} Unit MapToError)
unfolding alloc_map
alloc_argv m root = alloc_map m root argv_start argv_size

unfoldable pub alloc_ring0_stack : Memory → ℕ → Option (Memory × Result {0, 0} Unit MapToError)
unfolding alloc_map
alloc_ring0_stack m root = alloc_map m root ring0_stack_start stack_size

-- `to_ne_bytes` of a word
abbrev pub word_bytes : ℕ → ℕ → Bytes
word_bytes zero word = []
word_bytes (suc n) word = word % 256 ∷ word_bytes n (word / 256)

-- the length, the bytes and a zero of each argument; returns the address behind them
unfoldable pub copy_arguments : Memory → ℕ → ℕ → List Bytes → Option (Memory × ℕ)
unfolding copy_to_userspace
copy_arguments m root start_addr [] = some (m, start_addr)
copy_arguments m root start_addr (arg ∷ argv) =
    elim (copy_to_userspace m root start_addr (word_bytes 8 (length arg))) [
      | none ↦ none
      | some m1 ↦
          let at = add_usize start_addr 8 in
          elim (copy_to_userspace m1 root at arg) [
            | none ↦ none
            | some m2 ↦ elim (copy_to_userspace m2 root (add_usize at (length arg)) (0 ∷ [])) [
              | none ↦ none
              | some m3 ↦ copy_arguments m3 root (add_usize at (length arg + 1)) argv
            ]
          ]
    ]

-- the table of the addresses of the arguments
unfoldable pub copy_pointers : Memory → ℕ → ℕ → ℕ → List Bytes → Option Memory
unfolding copy_to_userspace
copy_pointers m root start_addr current_argv_ptr [] = some m
copy_pointers m root start_addr current_argv_ptr (arg ∷ argv) =
    elim (copy_to_userspace m root start_addr (word_bytes 8 current_argv_ptr)) [
      | none ↦ none
      | some m' ↦
          copy_pointers m' root (add_usize start_addr 8)
            (add_usize current_argv_ptr (8 + (length arg + 1))) argv
    ]

-- the arguments of a process; returns `argc` and the address of the table for its registers
unfoldable pub copy_argv : Memory → ℕ → List Bytes → Option (Memory × ℕ × ℕ)
unfolding copy_arguments copy_pointers copy_to_userspace
copy_argv m root [] = some (m, 0, 0)
copy_argv m root (arg ∷ argv) =
    let all = arg ∷ argv in
    elim (copy_to_userspace m root argv_start (word_bytes 8 (length all))) [
      | none ↦ none
      | some m' ↦ elim (copy_arguments m' root (add_usize argv_start 8) all) [
        | none ↦ none
        | some (m'', argv_addr) ↦
            elim (copy_pointers m'' root argv_addr (add_usize argv_start 8) all) [
              | none ↦ none
              | some m''' ↦ some (m''', length all, argv_addr)
            ]
      ]
    ]
