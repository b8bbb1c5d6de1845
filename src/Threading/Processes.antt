-- ===== src/Threading/Processes.antt =====
-- kernel/src/threading/processes.rs: a process and its two states. The pages of a process, its page
-- table and the registers other than the instruction and stack pointers are left out.
use safa_os.Prelude.{ℕ, ◌≡◌, arith, ◌++◌, ◌-◌, length, take, replicate, min}
use safa_os.Vfs.Types.{Bytes}
use safa_os.Memory.Align.{align_up, page_size}
use safa_os.Threading.Resources.{ResourceManager, clean}
use safa_os.Threading.Resources

pub data ProcessStatus : Type 0 where
  waiting running zombied : ProcessStatus

pub record CpuStatus : Type 0 where
  pub rip : ℕ
  pub rsp : ℕ

pub record AliveProcessState : Type 0 where
  pub resource_manager : ResourceManager
  pub data_pages : ℕ
  pub current_dir : Bytes
  pub data_start : ℕ
  pub data_break : ℕ

abbrev pub new_alive : Bytes → ℕ → AliveProcessState
new_alive current_dir data_break = record {
  resource_manager = Resources.new;
  data_pages = 0;
  current_dir = current_dir;
  data_start = align_up data_break page_size;
  data_break = align_up data_break page_size;
}

pub record ZombieProcessState : Type 0 where
  pub exit_code : ℕ
  pub exit_addr : ℕ
  pub exit_stack_addr : ℕ
  pub killed_by : ℕ
  pub last_resource_id : ℕ
  pub data_start : ℕ
  pub data_break : ℕ

pub data ProcessState : Type 0 where
  zombie : ZombieProcessState → ProcessState
  alive : AliveProcessState → ProcessState

pub record Process : Type 0 where
  pub ppid : ℕ
  pub pid : ℕ
  pub name : Bytes
  pub status : ProcessStatus
  pub context : CpuStatus
  pub state : ProcessState

-- the 64 bytes of the name
abbrev pub name_bytes : Bytes → Bytes
name_bytes name = take 64 name ++ replicate (64 - min (length name) 64) 0

-- `Process::new` once its stacks and arguments are mapped
abbrev pub new : ℕ → ℕ → Bytes → ℕ → CpuStatus → Bytes → Process
new ppid pid name data_start context current_work_dir = record {
  ppid = ppid;
  pid = pid;
  name = name_bytes name;
  status = waiting;
  context = context;
  state = alive (new_alive current_work_dir data_start);
}

abbrev pub zombify : CpuStatus → AliveProcessState → ℕ → ℕ → ZombieProcessState
zombify context state exit_code terminator = record {
  exit_code = exit_code;
  exit_addr = context.rip;
  exit_stack_addr = context.rsp;
  killed_by = terminator;
  last_resource_id = (clean state.resource_manager).1;
  data_start = state.data_start;
  data_break = state.data_break;
}

-- `terminate` does nothing to a zombie
unfoldable pub terminate : Process → ℕ → ℕ → Process
terminate this exit_code terminator = elim this.state [
  | zombie _ ↦ this
  | alive state ↦ record this {
    state = zombie (zombify this.context state exit_code terminator);
    status = zombied;
  }
]

pub record ProcessInfo : Type 0 where
  pub ppid : ℕ
  pub pid : ℕ
  pub name : Bytes
  pub status : ProcessStatus
  pub resource_count : ℕ
  pub exit_code : ℕ
  pub exit_addr : ℕ
  pub exit_stack_addr : ℕ
  pub killed_by : ℕ
  pub data_start : ℕ
  pub data_break : ℕ

abbrev pub info_in : Process → ProcessState → ProcessInfo
info_in this (zombie state) = record {
  ppid = this.ppid;
  pid = this.pid;
  name = this.name;
  status = this.status;
  resource_count = state.last_resource_id;
  exit_code = state.exit_code;
  exit_addr = state.exit_addr;
  exit_stack_addr = state.exit_stack_addr;
  killed_by = state.killed_by;
  data_start = state.data_start;
  data_break = state.data_break;
}
info_in this (alive state) = record {
  ppid = this.ppid;
  pid = this.pid;
  name = this.name;
  status = this.status;
  resource_count = state.resource_manager.next_ri;
  exit_code = 0;
  exit_addr = 0;
  exit_stack_addr = 0;
  killed_by = 0;
  data_start = state.data_start;
  data_break = state.data_break;
}

pub info : Process → ProcessInfo
info this = info_in this this.state

-- Terminating a process that is alive keeps what `info` tells of its identity and its data, and
-- adds how it ended; a second termination changes nothing.
pub terminate-info :
    (this : Process) (exit_code terminator code' terminator' : ℕ) (state : AliveProcessState)
    → this.state ≡ alive state
    → let dead = terminate this exit_code terminator in
      (info dead ≡ record (info this) {
        status = zombied;
        exit_code = exit_code;
        exit_addr = this.context.rip;
        exit_stack_addr = this.context.rsp;
        killed_by = terminator;
      })
      × (terminate dead code' terminator' ≡ dead)
unfolding terminate info clean
terminate-info this exit_code terminator code' terminator' state e = ground (arith, e)
