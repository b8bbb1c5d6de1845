-- ===== src/Vfs/ProcFs.antt =====
-- The file system of processes: kernel/src/drivers/vfs/procfs.rs. The decimal digits that the name
-- of a process is formatted with are an argument.
use safa_os.Prelude.{ℕ, zero, suc, Bool, true, false, Option, none, some, [], map}
use safa_os.Vfs.Types.{
  Bytes, InodeType, directory, device, Outcome, ok, err, not_a_directory, operation_not_supported,
}
use safa_os.Vfs.Path.{InodeTree}
use safa_os.Vfs.Listing.{Listed}
use safa_os.Threading.Resources.{DirIter}
use safa_os.Threading.Processes.{ProcessInfo}
use safa_os.Threading.Scheduler.{Scheduler}
use safa_os.Threading.Expose.{getinfo, getpids}

pub data ProcFsInode : Type 0 where
  root_process : ProcFsInode
  proc_inode : ProcessInfo → ProcFsInode

pub inodeid : ProcFsInode → ℕ
inodeid root_process = 0
inodeid (proc_inode info) = suc info.pid

pub kind : ProcFsInode → InodeType
kind root_process = directory
kind (proc_inode _) = device

pub is_dir : ProcFsInode → Bool
is_dir root_process = true
is_dir (proc_inode _) = false

pub name_of : (ℕ → Bytes) → ProcFsInode → Bytes
name_of decimal root_process = []
name_of decimal (proc_inode info) = decimal info.pid

-- the root has the default methods
pub get : ProcFsInode → Bytes → Outcome ℕ
get root_process name = err operation_not_supported
get (proc_inode _) name = err not_a_directory

abbrev pub get_inode : Scheduler → ℕ → Outcome (Option ProcFsInode)
get_inode scheduler zero = ok (some root_process)
get_inode scheduler (suc pid) = elim (getinfo scheduler pid) [
  | some info ↦ ok (some (proc_inode info))
  | none ↦ ok none
]

abbrev pub tree : Scheduler → InodeTree
tree scheduler = record {
  Inode = ProcFsInode;
  root_inode = ok root_process;
  get_inode = get_inode scheduler;
  is_dir = is_dir;
  contains = λ _ _. false;
  get = get;
}

abbrev pub listed : (ℕ → Bytes) → Scheduler → Listed
listed decimal scheduler = record {
  Inode = ProcFsInode;
  get_inode = get_inode scheduler;
  name = λ inode. ok (name_of decimal inode);
  kind = kind;
  size = λ _. err operation_not_supported;
}

pub open_diriter : Scheduler → ProcFsInode → Outcome DirIter
open_diriter scheduler root_process =
    ok (record { inode_ids = map suc (getpids scheduler); index = 0 })
open_diriter scheduler (proc_inode _) = err operation_not_supported
