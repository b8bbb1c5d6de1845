-- ===== src/Vfs/Tests.antt =====
-- A file system with one file.
use safa_os.Prelude.{
  ℕ, ◌≡◌, ◌≢◌, refl, arith, true, some, [], ◌∷◌, ◌++◌, get_elem?, drop, replicate, suc, ◌+◌,
}
use safa_os.Prelude
use safa_os.Vfs.Types.{Bytes, device, ok, panic, same_bytes}
use safa_os.Vfs.Path.{walk, has_byte, split, reslove_path, reslove_path_uncreated}
use safa_os.Vfs.RamFs.{
  RamFs, RamInode, new, new_file, new_dir, new_hardlink, children, create, createdir, insert,
  target_of, follow, is_dir, find_child, insert_child, tree, read,
}
use safa_os.Vfs.RamFs.Files.{descriptor, IsFile, write_twice, write_twice-read}
use safa_os.Threading.Scheduler
use safa_os.Vfs.Mounts.{
  ramfs, devicefs, opened, device_node, open_in, create_in, createdir_in, Vfs, find_drive,
  set_drive, mount, get_with_name, get_from_path, get_from_path_checked, ends_with, drive_name,
  open_file,
}
use safa_os.Vfs.Mounts
use safa_os.Vfs.Mounts.Places.{AllValid}
use safa_os.Vfs.Mounts.Drives.{Changed, create-Changed, open_file-ne_panic}
use safa_os.Vfs.RamFs.Invariant.{IsValid}
use safa_os.Vfs.RamFs.Links.{is_target, target_of-ends}
use safa_os.Vfs.Listing.{DirEntry, entry_of, get_from_inode, next_from}
use safa_os.Vfs.Listing
use safa_os.Vfs.Listing.Steps.{IsFirst, next-IsFirst}
use safa_os.Vfs.DeviceFs.{
  Device, DeviceManager, manager, device_inode, has_device, get_from, listed, ids_from,
  diriter_open,
}
use safa_os.Vfs.DeviceFs
use safa_os.Threading.Resources.{DirIter}
use safa_os.Vfs.RamFs.Reach.{start, next, created, reachable_ne_panic}

abbrev name_a : Bytes
name_a = b'a' ∷ []

abbrev with_a : RamFs
with_a = record {
  inodes =
      record (new_dir (b'/' ∷ []) 0) { body = children ((name_a, 1) ∷ []) }
      ∷ new_file name_a [] 1
      ∷ [];
}

creates_a : create new name_a ≡ ok with_a
unfolding create reslove_path_uncreated insert target_of follow is_dir find_child insert_child
    same_bytes
creates_a = refl

reachable_ne_panic_example : reslove_path (tree with_a) (b'a' ∷ b'/' ∷ b'b' ∷ []) ≢ panic
reachable_ne_panic_example =
    reachable_ne_panic (b'a' ∷ b'/' ∷ b'b' ∷ []) (next start (created name_a creates_a))

a_is_file : IsFile with_a 1 []
a_is_file = record { name = name_a; number = 1; at = refl }

write_twice-read_example :
    (fs : RamFs) × (write_twice with_a 1 (7 ∷ 8 ∷ []) (9 ∷ []) ≡ ok (fs, descriptor 1 0 3))
    × IsFile fs 1 (7 ∷ 8 ∷ 9 ∷ [])
    × ((j : ℕ) → j ≢ 1 → get_elem? fs.inodes j ≡ get_elem? with_a.inodes j)
    × (read fs (descriptor 1 0 0) 2 ≡ ok (descriptor 1 2 0, 7 ∷ 8 ∷ []))
write_twice-read_example =
    write_twice-read with_a 1 [] (7 ∷ 8 ∷ []) (9 ∷ []) 2 a_is_file (omega arith) (omega arith)

abbrev ram : Bytes
ram = b'r' ∷ b'a' ∷ b'm' ∷ []

abbrev root : Bytes
root = ram ++ b':' ∷ b'/' ∷ []

abbrev mounted : Vfs
mounted = record { drivers = (ram, ramfs new) ∷ (b'd' ∷ b'e' ∷ b'v' ∷ [], devicefs) ∷ [] }

abbrev with_file : Vfs
with_file = record { drivers = (ram, ramfs with_a) ∷ (b'd' ∷ b'e' ∷ b'v' ∷ [], devicefs) ∷ [] }

mounts :
    mount (record { drivers = (b'd' ∷ b'e' ∷ b'v' ∷ [], devicefs) ∷ [] }) ram (ramfs new)
    ≡ Prelude.ok mounted
unfolding mount find_drive same_bytes
mounts = refl

mounted-AllValid : AllValid mounted.drivers
mounted-AllValid = (record { root = omega arith; nodes = (refl, tt, tt) }, (tt, tt))

creates_file : Mounts.create mounted root name_a ≡ ok with_file
unfolding Mounts.create create_in split ends_with drive_name find_drive get_with_name
    get_from_path_checked get_from_path reslove_path_uncreated set_drive create insert target_of
    follow is_dir find_child insert_child same_bytes
creates_file = refl

abbrev with_dir : RamFs
with_dir = record {
  inodes =
      record (new_dir (b'/' ∷ []) 0) { body = children ((name_a, 1) ∷ []) }
      ∷ record (new_dir name_a 1) { body = children ((b'.' ∷ b'.' ∷ [], 2) ∷ []) }
      ∷ new_hardlink (b'.' ∷ b'.' ∷ []) 0 2
      ∷ [];
}

creates_dir :
    Mounts.createdir mounted root name_a
    ≡ ok (record { drivers = (ram, ramfs with_dir) ∷ (b'd' ∷ b'e' ∷ b'v' ∷ [], devicefs) ∷ [] })
unfolding Mounts.createdir createdir_in split ends_with drive_name find_drive get_with_name
    get_from_path_checked get_from_path reslove_path_uncreated set_drive createdir insert target_of
    follow is_dir find_child insert_child same_bytes
creates_dir = refl

create-Changed_example : Changed create_in mounted with_file root name_a
create-Changed_example = create-Changed mounted with_file root name_a mounted-AllValid creates_file

with_dir-IsValid : IsValid with_dir
with_dir-IsValid = record {
  root = omega arith;
  nodes = (refl, (omega arith, tt), (refl, (omega arith, tt), (refl, omega arith, tt)));
}

target_of-ends_example :
    (at : ℕ) × (x : RamInode) × (target_of with_dir 2 ≡ some (at, x)) × (is_target x.body ≡ true)
target_of-ends_example = target_of-ends with_dir 2 with_dir-IsValid (omega arith)

abbrev two_devices : DeviceManager
two_devices = record { name = b't' ∷ [] } ∷ record { name = b's' ∷ [] } ∷ []

-- the two devices listed, and one that is gone
abbrev unlisted : DirIter
unlisted = record { inode_ids = 9 ∷ 2 ∷ 1 ∷ []; index = 0 }

abbrev entry_s : DirEntry
entry_s = record { kind = device; size = 0; name_length = 1; name = (b's' ∷ []) ++ replicate 127 0 }

steps_over :
    Listing.next (listed two_devices) unlisted ≡ ok (some entry_s, record unlisted { index = 2 })
unfolding Listing.next next_from get_from_inode entry_of DeviceFs.get_inode
steps_over = refl

next-IsFirst_example :
    (passed : ℕ) × IsFirst (listed two_devices) (drop 0 (9 ∷ 2 ∷ 1 ∷ [])) entry_s passed
    × (unlisted.inode_ids ≡ unlisted.inode_ids)
    × (2 ≡ 0 + passed)
next-IsFirst_example =
    next-IsFirst (listed two_devices) unlisted (record unlisted { index = 2 }) entry_s steps_over

opens_two : diriter_open two_devices ≡ record { inode_ids = 1 ∷ 2 ∷ []; index = 0 }
unfolding diriter_open ids_from
opens_two = refl

gets_s : DeviceFs.get two_devices manager (b's' ∷ []) ≡ ok 2
unfolding get_from same_bytes
gets_s = refl

abbrev to_dev : Bytes
to_dev = b'd' ∷ b'e' ∷ b'v' ∷ b':' ∷ b'/' ∷ b's' ∷ []

opens_s :
    open_file two_devices Scheduler.new mounted root to_dev
    ≡ ok (opened (b'd' ∷ b'e' ∷ b'v' ∷ []) (device_node (device_inode 2)))
unfolding open_file open_in reslove_path walk split has_byte ends_with drive_name find_drive
    get_with_name get_from_path_checked get_from_path same_bytes has_device get_from
    DeviceFs.get_inode DeviceFs.is_dir
opens_s = refl

open_file-ne_panic_example : open_file two_devices Scheduler.new mounted root to_dev ≢ panic
open_file-ne_panic_example =
    open_file-ne_panic two_devices Scheduler.new mounted root to_dev mounted-AllValid
