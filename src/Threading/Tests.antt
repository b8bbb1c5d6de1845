-- ===== src/Threading/Tests.antt =====
-- Two processes of which the second is a child of the first, and a table of two resources.
use safa_os.Memory.FrameAllocator.{Frame}
use safa_os.Memory.Paging.{Memory, MapToError, get_frame, page_containing}
use safa_os.Memory.Paging.Blank.{blank, blank-IsValid}
use safa_os.Threading.DataSegment.{extend_data_by}
use safa_os.Threading.DataSegment.Segment.{IsSegment}
use safa_os.Threading.DataSegment.Break.{extend_data_by-grows}
use safa_os.Prelude.{
  ℕ, zero, suc, ◌<◌, ◌≡◌, ◌≢◌, refl, arith, inr, Bool, true, false, some, List, [], ◌∷◌, length,
  get_elem?, set, ok, Result, ◌≤◌, ◌+◌,
}
use safa_os.Threading.Resources.{
  Resource, dir_iter, null, ResourceManager, add_resource, remove_resource, in_use, IsPacked,
}
use safa_os.Threading.Resources.Table.{Added, add_resource-lowest, remove_resource-IsPacked}
use safa_os.Threading.Processes.{
  Process, CpuStatus, AliveProcessState, waiting, running, zombied, alive, new_alive, terminate,
  info, terminate-info,
}
use safa_os.Threading.LinkedList.{current_of}
use safa_os.Threading.Processes
use safa_os.Threading.Scheduler.{
  Scheduler, switch, is_waiting, suspend, run, find, for_each, remove,
}
use safa_os.Threading.Scheduler.RoundRobin.{at, distance, switch-round_robin, switch-forgets_zombie}
use safa_os.Threading.Expose.{has_pid, can_terminate, pkill, terminate_process, wait_turn, exited}
use safa_os.Threading.Expose.Killing.{AllOlder, can_terminate-ends, pkill-AllOlder, pkill-wait}

abbrev a_dir : Resource
a_dir = dir_iter (record { inode_ids = []; index = 0 })

abbrev table : ResourceManager
table = record { resources = a_dir ∷ null ∷ a_dir ∷ []; next_ri = 1 }

table-IsPacked : IsPacked table
table-IsPacked = record { bound = omega arith; used = first_used }
  where
    first_used : (ri : ℕ) → ri < 1 → in_use table.resources ri ≡ true
    first_used zero lt = refl
    first_used (suc ri) lt = absurd (omega (arith, lt))

add_resource-lowest_example :
    (after : ResourceManager) × (ri : ℕ) × (add_resource table a_dir ≡ some (after, ri))
    × Added table after a_dir ri
add_resource-lowest_example = add_resource-lowest table a_dir table-IsPacked

remove_resource-IsPacked_example :
    (after : ResourceManager) × (remove_resource table 0 ≡ ok after)
    × IsPacked after
    × (in_use after.resources 0 ≡ false)
    × ((j : ℕ) → j ≢ 0 → get_elem? after.resources j ≡ get_elem? table.resources j)
remove_resource-IsPacked_example = remove_resource-IsPacked table 0 table-IsPacked (omega arith)

abbrev regs : ℕ → CpuStatus
regs n = record { rip = n; rsp = n }

abbrev process : ℕ → ℕ → Process
process ppid pid = Processes.new ppid pid [] 4096 (regs pid) []

abbrev two : List Process
two = run (process 0 0) ∷ process 0 1 ∷ []

abbrev scheduler : Scheduler
scheduler = record { processes = at two 0; next_pid = 2 }

switch-round_robin_example :
    let before = set two 0 (suspend (run (process 0 0)) (regs 5)) in
    (r : ℕ) × (q : Process) × (get_elem? before r ≡ some q)
    × (is_waiting q.status ≡ true)
    × (switch scheduler (regs 5)
        ≡ some (record { processes = at (set before r (run q)) r; next_pid = 2 }, q.context))
    × ((j : ℕ) (other : Process)
        → get_elem? before j ≡ some other
        → distance (length before) 0 j < distance (length before) 0 r
        → is_waiting other.status ≡ false)
switch-round_robin_example = switch-round_robin two 2 (regs 5) 0 (run (process 0 0)) refl

abbrev dead : Process
dead = record (process 0 0) { status = zombied }

switch-forgets_zombie_example :
    (after : Scheduler) × (next : CpuStatus) × (p' : Process) × (switch
        (record { processes = at (dead ∷ process 0 1 ∷ []) 0; next_pid = 2 })
        (regs 5)
      ≡ some (after, next))
    × (get_elem? after.processes.items 0 ≡ some p')
    × (p'.status ≢ zombied)
    × (p'.state ≡ dead.state)
switch-forgets_zombie_example =
    switch-forgets_zombie (dead ∷ process 0 1 ∷ []) 2 (regs 5) 0 dead refl

two-AllOlder : AllOlder two
two-AllOlder = (inr refl, (inr refl, tt))

can_terminate-ends_example : (answer : Bool) × (can_terminate two 0 1 0 ≡ some answer)
can_terminate-ends_example = can_terminate-ends two 0 1 0 two-AllOlder

abbrev killed : Scheduler
killed = record {
  processes = at (run (process 0 0) ∷ terminate (process 0 1) 1 0 ∷ []) 0;
  next_pid = 2;
}

kills : pkill scheduler 1 ≡ some (ok killed)
unfolding pkill can_terminate terminate_process for_each find terminate current_of
kills = refl

finds : find (has_pid 1) scheduler.processes.items ≡ some (process 0 1)
unfolding find
finds = refl

pkill-AllOlder_example : AllOlder killed.processes.items
pkill-AllOlder_example = pkill-AllOlder scheduler killed 1 two-AllOlder kills

pkill-wait_example : wait_turn killed 1 ≡ exited (remove killed (has_pid 1)).0 1
pkill-wait_example =
    pkill-wait scheduler killed 1 (process 0 1) (new_alive [] 4096) kills finds refl

-- a process without pages of data
abbrev no_data : AliveProcessState
no_data = record (new_alive [] 0) { data_start = 4194304; data_break = 4194304 }

no_data-IsSegment : IsSegment (blank 3) 4096 no_data
no_data-IsSegment = record {
  valid = blank-IsValid 3 refl;
  aligned = refl;
  bound = omega arith;
  mapped = λ k lt. elim lt [ ];
}

extend_data_by-grows_example :
    (m' : Memory) × (this' : AliveProcessState) × (r : Result {0, 0} ℕ MapToError) × (extend_data_by
        (blank 3)
        4096
        no_data
        5000
      ≡ some (m', this', r))
    × ((b : ℕ)
        → r ≡ ok b
        → (b ≡ no_data.data_break + 5000)
          × (this'.data_break ≡ b)
          × (this'.data_start ≡ no_data.data_start)
          × IsSegment m' 4096 this'
          × ((a : ℕ)
              → no_data.data_start ≤ a
              → a < b
              → (f : Frame) × (get_frame m' 4096 (page_containing a) ≡ some f)))
extend_data_by-grows_example =
    extend_data_by-grows (blank 3) 4096 no_data 5000 no_data-IsSegment (omega arith)
