-- ===== src/Memory/Userspace.antt =====
-- `copy_to_userspace` of kernel/src/memory/mod.rs: bytes written through page tables into the words
-- of physical memory. `none` is a panic.
use safa_os.Prelude.{
  ℕ, zero, suc, ◌+◌, ◌-◌, ◌*◌, ◌/◌, ◌%◌, ◌^◌, ltb, if◌then◌else◌, Option, some, none, List, [], ◌∷◌,
  length, take, drop,
}
use safa_os.Prelude.Words.{add_usize, sub_usize}
use safa_os.Memory.Align.{page_size}
use safa_os.Memory.Paging.{Memory, write, page_containing, get_frame}

-- byte `k` of a word of 8 bytes
abbrev pub set_byte : ℕ → ℕ → ℕ → ℕ
set_byte word k byte = word - word / 256 ^ k % 256 * 256 ^ k + byte * 256 ^ k

unfoldable pub write_byte : Memory → ℕ → ℕ → Memory
write_byte m addr byte =
    let table = addr / 4096 * 4096 in
    let index = addr % 4096 / 8 in
    write m table index (set_byte (m.cells table index) (addr % 8) byte)

-- `copy_nonoverlapping`
unfoldable pub copy_bytes : Memory → ℕ → List ℕ → Memory
copy_bytes m addr [] = m
copy_bytes m addr (byte ∷ bytes) = copy_bytes (write_byte m addr byte) (add_usize addr 1) bytes

-- how much one turn of the loop copies
abbrev pub will_copy : ℕ → ℕ → ℕ
will_copy diff to_copy = if ltb page_size to_copy then page_size - diff else to_copy

-- the turns that are left; `diff` is the place in the first page
unfoldable pub copy_pages : ℕ → Memory → ℕ → ℕ → ℕ → List ℕ → Option Memory
unfolding copy_bytes
copy_pages zero m root addr diff obj = some m
copy_pages (suc left) m root addr diff obj =
    let part = will_copy diff (length obj) in
    elim (get_frame m root (page_containing addr)) [
      | some frame ↦
          copy_pages left (copy_bytes m (add_usize frame.start_address diff) (take part obj)) root
            (add_usize addr part) 0 (drop part obj)
      | none ↦ none
    ]

unfoldable pub copy_to_userspace : Memory → ℕ → ℕ → List ℕ → Option Memory
unfolding copy_pages
copy_to_userspace m root addr obj =
    let pages_required = (length obj + 4095) / 4096 + 1 in
    copy_pages pages_required m root addr (sub_usize addr (page_containing addr).start_address) obj
