-- ===== src/Vfs/Mounts.antt =====
-- `VFS` of kernel/src/drivers/vfs/mod.rs: the mounted drives and the choice of a drive by a path.
-- The device manager and the scheduler that the file systems of devices and of processes look into,
-- and the current directory of the caller, are arguments. The drives are listed in the order of
-- their mounting, which no operation observes.
pub mod Naming
pub mod Places
pub mod Trees
pub mod Drives
use safa_os.Prelude.{
  ℕ, ◌==◌, Bool, true, false, not, if◌then◌else◌, Option, none, some, List, [], ◌∷◌, ◌++◌, Result,
  ok, err,
}
use safa_os.Vfs.Types.{
  Bytes, FsError, Outcome, ◌>>=◌, ◌>>◌, guard, same_bytes, invaild_drive, not_a_file,
  not_a_directory, operation_not_supported,
}
use safa_os.Vfs.Types
use safa_os.Vfs.Path.{InodeTree, split, reslove_path}
use safa_os.Vfs.RamFs.{RamFs, open_path}
use safa_os.Vfs.RamFs
use safa_os.Vfs.DeviceFs.{DeviceManager, DeviceFsInode}
use safa_os.Vfs.DeviceFs
use safa_os.Vfs.ProcFs.{ProcFsInode}
use safa_os.Vfs.ProcFs
use safa_os.Threading.Scheduler.{Scheduler}

-- `Box<dyn FS>`: the file systems that are mounted; two of them keep nothing of their own
pub data Drive : Type 0 where
  ramfs : RamFs → Drive
  devicefs procfs : Drive

pub record Vfs : Type 0 where
  pub drivers : List (Bytes × Drive)

abbrev pub new : Vfs
new = record { drivers = [] }

unfoldable pub find_drive : List (Bytes × Drive) → Bytes → Option Drive
find_drive [] name = none
find_drive ((n, fs) ∷ drives) name =
    let later = find_drive drives name in if same_bytes n name then some fs else later

-- a change of the file system of one drive
unfoldable pub set_drive : List (Bytes × Drive) → Bytes → Drive → List (Bytes × Drive)
set_drive [] name fs' = []
set_drive ((n, fs) ∷ drives) name fs' =
    let later = set_drive drives name fs' in
    if same_bytes n name then (n, fs') ∷ drives else (n, fs) ∷ later

unfoldable pub mount : Vfs → Bytes → Drive → Result Vfs (Unit {0})
mount this name value = elim (find_drive this.drivers name) [
  | some _ ↦ err tt
  | none ↦ ok (record { drivers = (name, value) ∷ this.drivers })
]

unfoldable pub ends_with : ℕ → Bytes → Bool
ends_with c [] = false
ends_with c (b ∷ []) = b == c
ends_with c (b ∷ d ∷ ds) = ends_with c (d ∷ ds)

abbrev pub drop_last : Bytes → Bytes
drop_last [] = []
drop_last (b ∷ []) = []
drop_last (b ∷ d ∷ ds) = b ∷ drop_last (d ∷ ds)

-- a drive's name without the colon at its end
unfoldable pub drive_name : Bytes → Bytes
drive_name name = if ends_with b':' name then drop_last name else name

unfoldable pub get_with_name : Vfs → Bytes → Option Drive
get_with_name this name = find_drive this.drivers (drive_name name)

-- a drive by its name, its file system, and the path
abbrev pub Place : Type 0
Place = Bytes × Drive × Bytes

-- the first of the parts, of which there is always one
abbrev pub first_part : List Bytes → Outcome Bytes
first_part [] = Types.err invaild_drive
first_part (part ∷ _) = Types.ok part

abbrev pub place_of : Bytes → Bytes → Option Drive → Outcome Place
place_of drive path none = Types.err invaild_drive
place_of drive path (some fs) = Types.ok (drive_name drive, fs, path)

unfoldable pub get_from_path_checked : Vfs → Bytes → Outcome Place
get_from_path_checked this path = do
  drive ← first_part (split path)
  guard (ends_with b':' drive) invaild_drive
  place_of drive path (get_with_name this drive)

-- a path that names no drive is relative to the current directory
unfoldable pub get_from_path : Vfs → Bytes → Bytes → Outcome Place
get_from_path this cwd path = do
  drive ← first_part (split path)
  get_from_path_checked this (if not (ends_with b':' drive) then cwd ++ path else path)

abbrev pub update : Vfs → Bytes → Drive → Vfs
update this drive fs = record { drivers = set_drive this.drivers drive fs }

-- `FS::create` of a drive; the file systems of devices and of processes have the default method
unfoldable pub create_in : Drive → Bytes → Outcome Drive
create_in (ramfs fs) path = RamFs.create fs path >>= λ after. Types.ok (ramfs after)
create_in devicefs path = Types.err operation_not_supported
create_in procfs path = Types.err operation_not_supported

-- `FS::createdir` of a drive
unfoldable pub createdir_in : Drive → Bytes → Outcome Drive
createdir_in (ramfs fs) path = RamFs.createdir fs path >>= λ after. Types.ok (ramfs after)
createdir_in devicefs path = Types.err operation_not_supported
createdir_in procfs path = Types.err operation_not_supported

unfoldable pub create : Vfs → Bytes → Bytes → Outcome Vfs
create this cwd path = do
  (drive, mountpoint, full_path) ← get_from_path this cwd path
  guard (not (ends_with b'/' full_path)) not_a_file
  after ← create_in mountpoint full_path
  Types.ok (update this drive after)

unfoldable pub createdir : Vfs → Bytes → Bytes → Outcome Vfs
createdir this cwd path = do
  (drive, mountpoint, full_path) ← get_from_path this cwd path
  after ← createdir_in mountpoint full_path
  Types.ok (update this drive after)

-- the inode of a descriptor, of one of the file systems
pub data Node : Type 0 where
  ram_node : ℕ → Node
  device_node : DeviceFsInode → Node
  process_node : ProcFsInode → Node

-- `FileDescriptor`, with the drive that it points to by its name
pub record FileDescriptor : Type 0 where
  pub mountpoint : Bytes
  pub node : Node
  pub read_pos : ℕ
  pub write_pos : ℕ

abbrev pub opened : Bytes → Node → FileDescriptor
opened drive node = record { mountpoint = drive; node = node; read_pos = 0; write_pos = 0 }

module _ (devices : DeviceManager) (scheduler : Scheduler) where
  abbrev pub tree : Drive → InodeTree
  tree (ramfs fs) = RamFs.tree fs
  tree devicefs = DeviceFs.tree devices
  tree procfs = ProcFs.tree scheduler

  -- whether a path leads to a directory of a drive
  abbrev pub leads_to_dir : (fs : InodeTree) → Bytes → Outcome Bool
  leads_to_dir fs path = reslove_path fs path >>= λ inode. Types.ok (fs.is_dir inode)

  pub verify_path_dir : Vfs → Bytes → Bytes → Outcome Bytes
  verify_path_dir this cwd path = do
    (_, mountpoint, full_path) ← get_from_path this cwd path
    is_dir ← leads_to_dir (tree mountpoint) full_path
    guard is_dir not_a_directory
    Types.ok full_path

  -- `FS::open` of a drive
  unfoldable pub open_in : Bytes → Drive → Bytes → Outcome FileDescriptor
  open_in drive (ramfs fs) path = open_path fs path >>= λ fd.
      Types.ok (record (opened drive (ram_node fd.node)) {
        read_pos = fd.read_pos;
        write_pos = fd.write_pos;
      })
  open_in drive devicefs path = reslove_path (DeviceFs.tree devices) path >>= λ node.
      Types.ok (opened drive (device_node node))
  open_in drive procfs path = reslove_path (ProcFs.tree scheduler) path >>= λ node.
      Types.ok (opened drive (process_node node))

  unfoldable pub open_file : Vfs → Bytes → Bytes → Outcome FileDescriptor
  open_file this cwd path = do
    (drive, mountpoint, full_path) ← get_from_path this cwd path
    open_in drive mountpoint full_path
