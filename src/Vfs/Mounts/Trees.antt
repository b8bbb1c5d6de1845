-- ===== src/Vfs/Mounts/Trees.antt =====
-- Path resolution of kernel/src/drivers/vfs/mod.rs in the file systems of devicefs.rs and
-- procfs.rs.
use safa_os.Prelude.{◌≡◌, ◌≢◌, ℕ, suc, refl, some, true, Bool-cases, List, [], ◌∷◌, inl, inr, arith}
use safa_os.Vfs.Types.{Bytes, ok, panic, same_bytes}
use safa_os.Vfs.Path.{walk, reslove_path, split, skip_drive, skip_empty}
use safa_os.Vfs.DeviceFs.{
  DeviceManager, DeviceFsInode, manager, device_inode, has_device, get_from, get_inode, get,
}
use safa_os.Vfs.DeviceFs
use safa_os.Vfs.DeviceFs.Lookup.{get-IsFirstNamed}
use safa_os.Vfs.ProcFs.{ProcFsInode}
use safa_os.Vfs.ProcFs
use safa_os.Threading.Scheduler.{Scheduler}

get_from-has_device :
    (i : ℕ) (devices : DeviceManager) (name : Bytes)
    → has_device devices name ≡ true
    → (id : ℕ) × (get_from i devices name ≡ ok id)
unfolding get_from has_device
get_from-has_device i [] name h = cc
get_from-has_device i (d ∷ devices) name h = elim (Bool-cases (same_bytes d.name name)) [
  | inl same ↦ (suc i, rw same refl)
  | inr other ↦ rw other (get_from-has_device (suc i) devices name (rw other at h))
]

-- a name that the root contains leads to an inode
lands :
    (devices : DeviceManager) (name : Bytes)
    → has_device devices name ≡ true
    → (id : ℕ) × (get devices manager name ≡ ok id)
      × (get_inode devices id ≡ ok (some (device_inode id)))
lands devices name h =
    let (id, e) = get_from-has_device 0 devices name h in
    let (index, d, at, first, there, entry, step) = get-IsFirstNamed devices name id e in
    (id, e, there)

device_walk-ne_panic :
    (devices : DeviceManager) (parts : List Bytes) (current : DeviceFsInode)
    → walk (DeviceFs.tree devices) parts current ≢ panic
unfolding walk
device_walk-ne_panic devices [] current = λ e. cc
device_walk-ne_panic devices (p ∷ parts) (device_inode id) =
    ground (arith, device_walk-ne_panic devices parts (device_inode id))
device_walk-ne_panic devices (p ∷ parts) manager = elim (Bool-cases (has_device devices p)) [
  | inl has ↦
      let (id, e, there) = lands devices p has in
      ground (
        arith,
        has,
        e,
        there,
        device_walk-ne_panic devices parts manager,
        device_walk-ne_panic devices parts (device_inode id),
      )
  | inr lacks ↦ ground (arith, lacks, device_walk-ne_panic devices parts manager)
]

proc_walk-ne_panic :
    (scheduler : Scheduler) (parts : List Bytes) (current : ProcFsInode)
    → walk (ProcFs.tree scheduler) parts current ≢ panic
unfolding walk
proc_walk-ne_panic scheduler [] current = λ e. cc
proc_walk-ne_panic scheduler (p ∷ parts) current = elim (Bool-cases (ProcFs.is_dir current)) [
  | inl dir ↦ ground (arith, dir, proc_walk-ne_panic scheduler parts current)
  | inr leaf ↦ ground (arith, leaf, proc_walk-ne_panic scheduler parts current)
]

-- Resolving any path among the devices does not panic.
pub device_path-ne_panic :
    (devices : DeviceManager) (path : Bytes) → reslove_path (DeviceFs.tree devices) path ≢ panic
unfolding reslove_path
device_path-ne_panic devices path =
    device_walk-ne_panic devices (skip_drive (skip_empty (split path))) manager

-- Resolving any path among the processes does not panic.
pub proc_path-ne_panic :
    (scheduler : Scheduler) (path : Bytes) → reslove_path (ProcFs.tree scheduler) path ≢ panic
unfolding reslove_path
proc_path-ne_panic scheduler path =
    proc_walk-ne_panic scheduler (skip_drive (skip_empty (split path))) ProcFs.root_process
