-- ===== src/Memory/Bindings/Tests.antt =====
-- A table from the bindings, with the physical memory of 16 MiB from the middle of the addresses
-- on.
use safa_os.Prelude.{ℕ, ◌≡◌, ◌≢◌, ◌⊎◌, refl, some, ok}
use safa_os.Memory.FrameAllocator.{Frame, allocate_frame, allocate_rows, find_col}
use safa_os.Memory.Paging.{Memory}
use safa_os.Memory.Paging.Blank.{blank, blank-IsValid}
use safa_os.Memory.Bindings.{create_page_table, root_bindings}
use safa_os.Memory.Bindings.Shares.{create_page_table-Shares}

abbrev third : Frame
third = record { start_address = 8192 }

third_is_free : (allocate_frame (blank 3).frames).1 ≡ some third
unfolding allocate_frame allocate_rows find_col
third_is_free = refl

create_page_table-Shares_example :
    (after : Memory) × (create_page_table
        (blank 3)
        (root_bindings 0xFFFF800000000000 0xFFFF800001000000 0x1000000)
        4096
      ≡ some (after, ok 8192))
    × ((t i : ℕ) → t ≢ 8192 → after.cells t i ≡ (blank 3).cells t i)
    × ((i : ℕ) → (after.cells 8192 i ≡ 0) ⊎ (after.cells 8192 i ≡ (blank 3).cells 4096 i))
create_page_table-Shares_example =
    create_page_table-Shares (blank 3) 4096 0xFFFF800000000000 0xFFFF800001000000 0x1000000 third
      (blank-IsValid 3 refl) third_is_free
