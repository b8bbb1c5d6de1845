-- ===== src/Vfs/RamFs.antt =====
-- kernel/src/drivers/vfs/ramfs.rs. The inodes of a `RamFS` live in its vector for ever, so a shared
-- `Arc` to an inode is its index, which the constructors also store as its `inodeid`.
pub mod Files
pub mod Invariant
pub mod Links
pub mod Reach
use safa_os.Prelude.{
  ℕ, zero, suc, ◌+◌, ◌-◌, ◌==◌, ltb, leb, Bool, true, false, ◌&&◌, if◌then◌else◌, Option, none,
  some, List, [], ◌∷◌, ◌++◌, map, length, get_elem?, set, take, drop, replicate,
}
use safa_os.Prelude.Words.{add_usize, sub_usize}
use safa_os.Vfs.Types.{
  Bytes, FsError, InodeType, file, directory, Outcome, ok, err, panic, ◌>>=◌, ◌>>◌, guard, unwrap,
  same_bytes, less_bytes, not_a_file, not_a_directory, no_such_a_file_or_directory, already_exists,
}
use safa_os.Vfs.Path.{InodeTree, reslove_path, reslove_path_uncreated}

-- `BTreeMap<String, usize>` in the order of its keys
abbrev pub Children : Type 0
Children = List (Bytes × ℕ)

pub data RamInodeData : Type 0 where
  contents : Bytes → RamInodeData
  children : Children → RamInodeData
  hard_link : ℕ → RamInodeData

pub record RamInode : Type 0 where
  pub name : Bytes
  pub body : RamInodeData
  pub inodeid : ℕ

abbrev pub new_file : Bytes → Bytes → ℕ → RamInode
new_file name bytes id = record { name = name; body = contents bytes; inodeid = id }

abbrev pub new_dir : Bytes → ℕ → RamInode
new_dir name id = record { name = name; body = children []; inodeid = id }

abbrev pub new_hardlink : Bytes → ℕ → ℕ → RamInode
new_hardlink name target id = record { name = name; body = hard_link target; inodeid = id }

pub record RamFs : Type 0 where
  pub inodes : List RamInode

abbrev pub new : RamFs
new = record { inodes = new_dir (b'/' ∷ []) 0 ∷ [] }

unfoldable pub find_child : Children → Bytes → Option ℕ
find_child [] name = none
find_child ((n, id) ∷ tree) name = if same_bytes n name then some id else find_child tree name

unfoldable pub insert_child : Children → Bytes → ℕ → Children
insert_child [] name id = (name, id) ∷ []
insert_child ((n, i) ∷ tree) name id =
    if less_bytes name n then (name, id) ∷ (n, i) ∷ tree else (n, i) ∷ insert_child tree name id

-- The inode that a call on inode `id` ends at: a hard link passes the call on to its target. The
-- index of a target is less than that of its link, so `id + 1` steps are enough.
abbrev pub pass : (ℕ → Option (ℕ × RamInode)) → ℕ → RamInode → RamInodeData → Option (ℕ × RamInode)
pass next id inode (contents bytes) = some (id, inode)
pass next id inode (children tree) = some (id, inode)
pass next id inode (hard_link target) = next target

unfoldable pub follow : ℕ → List RamInode → ℕ → Option (ℕ × RamInode)
follow zero inodes id = none
follow (suc steps) inodes id = elim (get_elem? inodes id) [
  | none ↦ none
  | some inode ↦ pass (follow steps inodes) id inode inode.body
]

unfoldable pub target_of : RamFs → ℕ → Option (ℕ × RamInode)
target_of this id = follow (suc id) this.inodes id

abbrev pub body_of : Option (ℕ × RamInode) → Option RamInodeData
body_of none = none
body_of (some (_, inode)) = some inode.body

-- `size` does not pass through a hard link
pub size : RamFs → ℕ → Outcome ℕ
size this id = elim (get_elem? this.inodes id) [
  | none ↦ panic
  | some inode ↦ elim inode.body [ contents bytes ↦ ok (length bytes) | _ ↦ err not_a_file ]
]

abbrev pub get_in : Option RamInodeData → Bytes → Outcome ℕ
get_in (some (children tree)) name = elim (find_child tree name) [
  | some id ↦ ok id
  | none ↦ err no_such_a_file_or_directory
]
get_in (some (contents _)) name = err not_a_directory
get_in _ name = panic

unfoldable pub get : RamFs → ℕ → Bytes → Outcome ℕ
get this id name = get_in (body_of (target_of this id)) name

abbrev pub contains_in : Option RamInodeData → Bytes → Bool
contains_in (some (children tree)) name = elim (find_child tree name) [
  | some _ ↦ true
  | none ↦ false
]
contains_in _ name = false

pub contains : RamFs → ℕ → Bytes → Bool
contains this id name = contains_in (body_of (target_of this id)) name

abbrev pub kind_in : Option RamInodeData → Bool
kind_in (some (children _)) = true
kind_in _ = false

-- `kind() == InodeType::Directory`
unfoldable pub is_dir : RamFs → ℕ → Bool
is_dir this id = kind_in (body_of (target_of this id))

-- a write of the data of the inode that the call ends at
abbrev pub put : RamFs → ℕ → RamInode → RamInodeData → RamFs
put this at inode body = record this { inodes = set this.inodes at (record inode { body = body }) }

pub truncate : RamFs → ℕ → ℕ → Outcome RamFs
truncate this id size = elim (target_of this id) [
  | none ↦ panic
  | some (at, inode) ↦ elim inode.body [
    | contents bytes ↦ ok (put this at inode (contents (take size bytes)))
    | _ ↦ err not_a_file
  ]
]

-- `read(buffer, offset, count)` with a buffer of `room` bytes: the bytes copied to its front
pub read_node : RamFs → ℕ → ℕ → ℕ → ℕ → Outcome Bytes
read_node this id room offset count = elim (target_of this id) [
  | none ↦ panic
  | some (at, inode) ↦ elim inode.body [
    | contents bytes ↦
        if leb count room && leb (offset + count) (length bytes)
        then ok (take count (drop offset bytes))
        else panic
    | _ ↦ err not_a_file
  ]
]

-- `resize` to at least `offset + n` bytes, then `copy_from_slice`
pub overwrite : Bytes → ℕ → Bytes → Bytes
overwrite old offset buffer =
    let need = length buffer + offset in
    let sized = if ltb (length old) need then old ++ replicate (need - length old) 0 else old in
    take offset sized ++ (buffer ++ drop need sized)

pub write_node : RamFs → ℕ → Bytes → ℕ → Outcome RamFs
write_node this id buffer offset = elim (target_of this id) [
  | none ↦ panic
  | some (at, inode) ↦ elim inode.body [
    | contents bytes ↦ ok (put this at inode (contents (overwrite bytes offset buffer)))
    | _ ↦ err not_a_file
  ]
]

abbrev pub insert_into : RamFs → ℕ → RamInode → RamInodeData → Bytes → ℕ → Outcome RamFs
insert_into this at inode (children tree) name node = elim (find_child tree name) [
  | some _ ↦ err already_exists
  | none ↦ ok (put this at inode (children (insert_child tree name node)))
]
insert_into this at inode _ name node = err not_a_directory

unfoldable pub insert : RamFs → ℕ → Bytes → ℕ → Outcome RamFs
insert this id name node = elim (target_of this id) [
  | none ↦ panic
  | some (at, inode) ↦ insert_into this at inode inode.body name node
]

-- the view of the path resolver
abbrev pub tree : RamFs → InodeTree
tree this = record {
  Inode = ℕ;
  root_inode = unwrap (if ltb 0 (length this.inodes) then some 0 else none);
  get_inode = λ id. ok (if ltb id (length this.inodes) then some id else none);
  is_dir = is_dir this;
  contains = contains this;
  get = get this;
}

-- `FileDescriptor` over a file of this file system
pub record FileDescriptor : Type 0 where
  pub node : ℕ
  pub read_pos : ℕ
  pub write_pos : ℕ

unfoldable pub open_path : RamFs → Bytes → Outcome FileDescriptor
open_path this path = do
  node ← reslove_path (tree this) path
  ok (record { node = node; read_pos = 0; write_pos = 0 })

-- `FS::read` into a buffer of `room` bytes
pub read : RamFs → FileDescriptor → ℕ → Outcome (FileDescriptor × Bytes)
read this fd room = do
  file_size ← size this fd.node
  let count =
      if ltb file_size (add_usize fd.read_pos room) then sub_usize file_size fd.read_pos else room
  bytes ← read_node this fd.node room fd.read_pos count
  ok (record fd { read_pos = add_usize fd.read_pos count }, bytes)

-- `FS::write`
pub write : RamFs → FileDescriptor → Bytes → Outcome (RamFs × FileDescriptor)
write this fd buffer = do
  cleared ← (if fd.write_pos == 0 then truncate this fd.node 0 else ok this)
  written ← write_node cleared fd.node buffer fd.write_pos
  ok (written, record fd { write_pos = add_usize fd.write_pos (length buffer) })

abbrev pub push : RamFs → RamInode → RamFs
push this inode = record this { inodes = this.inodes ++ inode ∷ [] }

unfoldable pub create : RamFs → Bytes → Outcome RamFs
create this path =
    let inodeid = length this.inodes in
    do
      (resloved, name) ← reslove_path_uncreated (tree this) path
      linked ← insert this resloved name inodeid
      ok (push linked (new_file name [] inodeid))

-- `createdir`: the directory, and the hard link `..` to its parent, at the next two indices
unfoldable pub createdir : RamFs → Bytes → Outcome RamFs
createdir this path =
    let inodeid = length this.inodes in
    do
      (resloved, name) ← reslove_path_uncreated (tree this) path
      linked ← insert this resloved name inodeid
      let made = push linked (new_dir name inodeid)
      let parent = push made (new_hardlink (b'.' ∷ b'.' ∷ []) resloved (suc inodeid))
      insert parent inodeid (b'.' ∷ b'.' ∷ []) (suc inodeid)
