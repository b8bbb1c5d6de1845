-- ===== src/Vfs/DeviceFs.antt =====
-- The file system of devices: kernel/src/drivers/vfs/devicefs.rs over the list of devices that the
-- `DeviceManager` of kernel/src/devices/mod.rs keeps. A device is its name here: what it reads and
-- writes is hardware.
use safa_os.Prelude.{
  ℕ, zero, suc, ◌-◌, ◌==◌, Bool, true, false, if◌then◌else◌, Option, none, some, List, [], ◌∷◌,
  ◌++◌, length, get_elem?,
}
use safa_os.Vfs.Types.{
  Bytes, InodeType, directory, device, Outcome, ok, err, ◌>>=◌, unwrap, same_bytes,
  no_such_a_file_or_directory, operation_not_supported,
}
use safa_os.Vfs.Path.{InodeTree}
use safa_os.Threading.Resources.{DirIter}
use safa_os.Vfs.Listing.{Listed}
pub mod Lookup

pub record Device : Type 0 where
  pub name : Bytes

abbrev pub DeviceManager : Type 0
DeviceManager = List Device

pub add_device : DeviceManager → Device → DeviceManager
add_device devices d = devices ++ d ∷ []

abbrev pub get_device_at : DeviceManager → ℕ → Option Device
get_device_at devices index = get_elem? devices index

pub data DeviceFsInode : Type 0 where
  manager : DeviceFsInode
  device_inode : ℕ → DeviceFsInode

pub inodeid : DeviceFsInode → ℕ
inodeid manager = 0
inodeid (device_inode id) = id

abbrev pub kind : DeviceFsInode → InodeType
kind manager = directory
kind (device_inode _) = device

abbrev pub name_of : DeviceManager → DeviceFsInode → Outcome Bytes
name_of devices manager = ok []
name_of devices (device_inode id) = unwrap (get_device_at devices (id - 1)) >>= λ d. ok d.name

unfoldable pub has_device : DeviceManager → Bytes → Bool
has_device [] name = false
has_device (d ∷ devices) name =
    let rest = has_device devices name in if same_bytes d.name name then true else rest

abbrev pub contains : DeviceManager → DeviceFsInode → Bytes → Bool
contains devices manager name = has_device devices name
contains devices (device_inode _) name = false

-- the loop from the device at `i` on
unfoldable pub get_from : ℕ → DeviceManager → Bytes → Outcome ℕ
get_from i [] name = err no_such_a_file_or_directory
get_from i (d ∷ devices) name =
    let rest = get_from (suc i) devices name in if same_bytes d.name name then ok (suc i) else rest

abbrev pub get : DeviceManager → DeviceFsInode → Bytes → Outcome ℕ
get devices manager name = get_from 0 devices name
get devices (device_inode _) name = err operation_not_supported

unfoldable pub get_inode : DeviceManager → ℕ → Outcome (Option DeviceFsInode)
get_inode devices zero = ok (some manager)
get_inode devices (suc id) = elim (get_device_at devices id) [
  | some _ ↦ ok (some (device_inode (suc id)))
  | none ↦ ok none
]

unfoldable pub is_dir : DeviceFsInode → Bool
is_dir manager = true
is_dir (device_inode _) = false

abbrev pub tree : DeviceManager → InodeTree
tree devices = record {
  Inode = DeviceFsInode;
  root_inode = ok manager;
  get_inode = get_inode devices;
  is_dir = is_dir;
  contains = contains devices;
  get = get devices;
}

abbrev pub listed : DeviceManager → Listed
listed devices = record {
  Inode = DeviceFsInode;
  get_inode = get_inode devices;
  name = name_of devices;
  kind = kind;
  size = λ _. err operation_not_supported;
}

-- the `count` ids from `first` on
unfoldable pub ids_from : ℕ → ℕ → List ℕ
ids_from first zero = []
ids_from first (suc count) = first ∷ ids_from (suc first) count

unfoldable pub diriter_open : DeviceManager → DirIter
diriter_open devices = record { inode_ids = ids_from 1 (length devices); index = 0 }
