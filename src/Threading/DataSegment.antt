-- ===== src/Threading/DataSegment.antt =====
-- The data segment of a process, `extend_data_by` of kernel/src/threading/processes.rs: pages that
-- are mapped behind `data_start` as the break of the process moves. `none` is a panic.
pub mod Segment
pub mod Growth
pub mod Break
use safa_os.Prelude.{
  ℕ, zero, suc, ◌+◌, ◌-◌, ◌*◌, ◌/◌, ◌^◌, ltb, if◌then◌else◌, Option, some, none, Result, ok, err,
}
use safa_os.Prelude.Words.{add_usize, sub_usize, mul_usize}
use safa_os.Memory.Align.{page_size}
use safa_os.Memory.FrameAllocator.{deallocate_frame}
use safa_os.Memory.Paging.{
  Memory, MapToError, page_containing, get_frame, zeroize, present, writable, user_accessible,
}
use safa_os.Memory.Paging.Pages.{map_fresh}
use safa_os.Threading.Processes.{AliveProcessState}

abbrev pub data_break_actual : AliveProcessState → ℕ
data_break_actual this = add_usize this.data_start (mul_usize page_size this.data_pages)

abbrev pub user_page : ℕ
user_page = present + writable + user_accessible

unfoldable pub page_extend_data :
    Memory → ℕ → AliveProcessState → Memory × AliveProcessState × Result {0, 0} Unit MapToError
page_extend_data m root this =
    let (m', found) = map_fresh m root (page_containing (data_break_actual this)) user_page in
    elim found [
      | ok frame ↦
          (zeroize m' frame.start_address, record this { data_pages = this.data_pages + 1 }, ok tt)
      | err e ↦ (m', this, err e)
    ]

unfoldable pub page_unextend_data :
    Memory → ℕ → AliveProcessState → Option (Memory × AliveProcessState)
page_unextend_data m root this =
    elim (get_frame m root (page_containing (data_break_actual this))) [
      | some frame ↦ elim (deallocate_frame m.frames frame) [
        | some frames ↦
            some (
              record m { frames = frames },
              record this { data_pages = sub_usize this.data_pages 1 },
            )
        | none ↦ none
      ]
      | none ↦ none
    ]

-- the two loops of `extend_data_by`; `none` is also the end of the fuel
unfoldable pub extend_up_to :
    ℕ
    → Memory
    → ℕ
    → AliveProcessState
    → ℕ
    → Option (Memory × AliveProcessState × Result {0, 0} Unit MapToError)
extend_up_to zero m root this goal =
    if ltb (data_break_actual this) goal then none else some (m, this, ok tt)
extend_up_to (suc fuel) m root this goal =
    let (m', this', done) = page_extend_data m root this in
    let rest : Option (Memory × AliveProcessState × Result {0, 0} Unit MapToError) = elim done [
      | ok _ ↦ extend_up_to fuel m' root this' goal
      | err e ↦ some (m', this', err e)
    ] in
    if ltb (data_break_actual this) goal then rest else some (m, this, ok tt)

unfoldable pub shrink_down_to :
    ℕ → Memory → ℕ → AliveProcessState → ℕ → Option (Memory × AliveProcessState)
shrink_down_to zero m root this goal =
    if ltb goal (data_break_actual this) then none else some (m, this)
shrink_down_to (suc fuel) m root this goal =
    let rest : Option (Memory × AliveProcessState) = elim (page_unextend_data m root this) [
      | some (m', this') ↦ shrink_down_to fuel m' root this' goal
      | none ↦ none
    ] in
    if ltb goal (data_break_actual this) then rest else some (m, this)

-- the pages that are missing below an address
abbrev pub pages_missing : AliveProcessState → ℕ → ℕ
pages_missing this goal = (goal - data_break_actual this + 4095) / 4096

-- `amount` is the word of an `isize`, negative from 2 ^ 63 on
unfoldable pub extend_data_by :
    Memory
    → ℕ
    → AliveProcessState
    → ℕ
    → Option (Memory × AliveProcessState × Result {0, 0} ℕ MapToError)
extend_data_by m root this amount =
    let up = add_usize this.data_break amount in
    let down = sub_usize this.data_break amount in
    let grown : Option (Memory × AliveProcessState × Result {0, 0} ℕ MapToError) =
      elim (extend_up_to (pages_missing this up) m root this up) [
        | some (m', this', done) ↦ elim done [
          | ok _ ↦ some (m', record this' { data_break = up }, ok up)
          | err e ↦ some (m', this', err e)
        ]
        | none ↦ none
      ] in
    let shrunk : Option (Memory × AliveProcessState × Result {0, 0} ℕ MapToError) =
      elim (shrink_down_to this.data_pages m root this down) [
        | some (m', this') ↦ some (m', record this' { data_break = down }, ok down)
        | none ↦ none
      ] in
    if ltb amount (2 ^ 63) then grown else shrunk
