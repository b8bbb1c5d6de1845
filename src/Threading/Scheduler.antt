-- ===== src/Threading/Scheduler.antt =====
-- `Scheduler` of kernel/src/threading/mod.rs. `none` is a dereference of a missing current process,
-- or a search that has not ended.
pub mod RoundRobin
use safa_os.Prelude.{
  ℕ, zero, suc, ◌+◌, Bool, true, false, if◌then◌else◌, Option, none, some, List, [], ◌∷◌, ◌++◌, map,
  length, get_elem?, set,
}
use safa_os.Threading.LinkedList.{
  LinkedList, push, remove_where, find_index, next_wrap, current_of, set_current,
}
use safa_os.Threading.LinkedList
use safa_os.Threading.Processes.{
  Process, ProcessInfo, ProcessStatus, waiting, running, zombied, CpuStatus, info,
}

pub record Scheduler : Type 0 where
  pub processes : LinkedList Process
  pub next_pid : ℕ

abbrev pub new : Scheduler
new = record { processes = LinkedList.new; next_pid = 0 }

abbrev pub is_waiting : ProcessStatus → Bool
is_waiting waiting = true
is_waiting _ = false

abbrev pub run : Process → Process
run process = record process { status = running }

-- the loop over `continue_iter`, which ends at the first waiting process, now the current one
pub rotate : ℕ → LinkedList Process → Option (LinkedList Process)
rotate zero list = none
rotate (suc steps) list = elim (next_wrap list) [
  | none ↦ some list
  | some list' ↦
      let later = rotate steps list' in
      elim (current_of list') [
        | none ↦ none
        | some process ↦
            if is_waiting process.status then some (set_current list' (run process)) else later
      ]
]

abbrev pub suspend : Process → CpuStatus → Process
suspend process context = record process { context = context; status = waiting }

-- The scheduler after a context switch, and the context to go on with. The loop needs at most as
-- many steps as there are processes.
pub switch : Scheduler → CpuStatus → Option (Scheduler × CpuStatus)
switch this context = elim (current_of this.processes) [
  | none ↦ none
  | some process ↦
      elim (rotate (length this.processes.items)
        (set_current this.processes (suspend process context))) [
          | none ↦ none
          | some list ↦ elim (current_of list) [
            | none ↦ none
            | some next ↦ some (record this { processes = list }, next.context)
          ]
        ]
]

unfoldable pub add_process : Scheduler → Process → Scheduler × ℕ
add_process this process = (
  record {
    processes = push this.processes (record process { pid = this.next_pid; status = waiting });
    next_pid = this.next_pid + 1;
  },
  this.next_pid,
)

-- the first process that satisfies the condition
unfoldable pub find : (Process → Bool) → List Process → Option Process
find condition [] = none
find condition (p ∷ ps) = let later = find condition ps in if condition p then some p else later

unfoldable pub for_each : Scheduler → (Process → Process) → Scheduler
for_each this then' = record this {
  processes = record this.processes { items = map then' this.processes.items };
}

abbrev pub info_of : Option Process → Option ProcessInfo
info_of none = none
info_of (some p) = some (info p)

unfoldable pub remove : Scheduler → (Process → Bool) → Scheduler × Option ProcessInfo
remove this condition =
    let (list, removed) = remove_where this.processes condition in
    (record this { processes = list }, info_of removed)

abbrev pub processes_count : Scheduler → ℕ
processes_count this = length this.processes.items
