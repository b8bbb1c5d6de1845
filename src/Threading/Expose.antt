-- ===== src/Threading/Expose.antt =====
-- The calls on processes of kernel/src/threading/expose.rs. `none` is a missing current process, or
-- a loop that has not ended.
pub mod Killing
pub mod Pids
use safa_os.Prelude.{
  ℕ, zero, suc, ◌+◌, ◌==◌, ltb, Bool, true, false, ◌||◌, if◌then◌else◌, Option, none, some, List,
  [], ◌∷◌, map, take, length, Result, ok, err,
}
use safa_os.Threading.LinkedList.{current_of}
use safa_os.Threading.Processes.{Process, ProcessInfo, ProcessState, zombie, alive, terminate, info}
use safa_os.Threading.Scheduler.{Scheduler, find, for_each, remove, info_of}

abbrev pub has_pid : ℕ → Process → Bool
has_pid pid process = process.pid == pid

-- what one turn of the loop of `wait` comes to: the exit code after the clean-up, another turn, or
-- the 0 of a process that is not there
pub data WaitTurn : Type 0 where
  exited : Scheduler → ℕ → WaitTurn
  yield_again : WaitTurn
  missing : WaitTurn

pub wait_turn : Scheduler → ℕ → WaitTurn
wait_turn this pid = elim (find (has_pid pid) this.processes.items) [
  | none ↦ missing
  | some process ↦ elim process.state [
    | zombie state ↦ exited (remove this (has_pid pid)).0 state.exit_code
    | alive _ ↦ yield_again
  ]
]

pub getinfo : Scheduler → ℕ → Option ProcessInfo
getinfo this pid = info_of (find (has_pid pid) this.processes.items)

pub getpids : Scheduler → List ℕ
getpids this = map (λ p. p.pid) this.processes.items

pub parent_of : List Process → ℕ → ℕ
parent_of processes pid = elim (find (has_pid pid) processes) [ some p ↦ p.ppid | none ↦ 0 ]

-- the loop of `can_terminate` up the parents
pub climb : ℕ → List Process → ℕ → ℕ → Option Bool
climb zero processes ppid terminator = none
climb (suc steps) processes ppid terminator =
    let higher = climb steps processes (parent_of processes ppid) terminator in
    if ppid == 0 then some false else if ppid == terminator then some true else higher

-- parents have lower pids, so `process_ppid + 1` turns are enough
unfoldable pub can_terminate : List Process → ℕ → ℕ → ℕ → Option Bool
can_terminate processes process_ppid process_pid terminator =
    let search = climb (suc process_ppid) processes process_ppid terminator in
    if process_ppid == terminator || process_pid == terminator then some true else search

abbrev pub kill_one : ℕ → ℕ → Process → Process
kill_one pid terminator process =
    if process.pid == pid then terminate process 1 terminator else process

abbrev pub reparent : ℕ → ℕ → Process → Process
reparent pid terminator process =
    if process.ppid == pid then record process { ppid = terminator } else process

unfoldable pub terminate_process : Scheduler → ℕ → ℕ → Scheduler
terminate_process this pid terminator =
    for_each (for_each this (kill_one pid terminator)) (reparent pid terminator)

abbrev pub decide_kill : Scheduler → ℕ → ℕ → Option Bool → Option (Result Scheduler (Unit {0}))
decide_kill this pid terminator none = none
decide_kill this pid terminator (some true) = some (ok (terminate_process this pid terminator))
decide_kill this pid terminator (some false) = some (err tt)

unfoldable pub pkill : Scheduler → ℕ → Option (Result Scheduler (Unit {0}))
pkill this pid = elim (current_of this.processes) [
  | none ↦ none
  | some current ↦
      if ltb pid current.pid
      then some (err tt)
      else elim (find (has_pid pid) this.processes.items) [
        | none ↦ some (err tt)
        | some process ↦
            decide_kill this process.pid current.pid
              (can_terminate this.processes.items process.ppid process.pid current.pid)
      ]
]

-- `pcollect` into a buffer of `room` places: the places that it fills, from the first on
pub pcollect : Scheduler → ℕ → List ProcessInfo
pcollect this room = map info (take room this.processes.items)
