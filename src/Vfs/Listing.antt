-- ===== src/Vfs/Listing.antt =====
-- Entries of directories: `DirIter` of kernel/src/drivers/vfs/mod.rs and `DirEntry` of
-- kernel/src/drivers/vfs/expose.rs, over the inodes that a file system gives.
use safa_os.Prelude.{
  ℕ, suc, ◌-◌, leb, if◌then◌else◌, Option, none, some, List, [], ◌∷◌, ◌++◌, length, drop, replicate,
}
use safa_os.Vfs.Types.{Bytes, InodeType, Outcome, ok, err, panic, ◌>>=◌}
use safa_os.Threading.Resources.{DirIter}
pub mod Steps

abbrev pub max_name_len : ℕ
max_name_len = 128

pub record DirEntry : Type 0 where
  pub kind : InodeType
  pub size : ℕ
  pub name_length : ℕ
  pub name : Bytes

-- what a directory iterator uses of a file system and its inodes
pub record Listed : Type 1 where
  pub Inode : Type 0
  pub get_inode : ℕ → Outcome (Option Inode)
  pub name : Inode → Outcome Bytes
  pub kind : Inode → InodeType
  pub size : Inode → Outcome ℕ

-- `.unwrap_or(0)`
abbrev or_zero : Outcome ℕ → Outcome ℕ
or_zero (ok n) = ok n
or_zero (err e) = ok 0
or_zero panic = panic

-- A name that does not fit in the bytes of the entry panics.
unfoldable pub entry_of : InodeType → ℕ → Bytes → Outcome DirEntry
entry_of kind size name_slice =
    if leb (length name_slice) max_name_len
    then ok (record {
      kind = kind;
      size = size;
      name_length = length name_slice;
      name = name_slice ++ replicate (max_name_len - length name_slice) 0;
    })
    else panic

module _ (fs : Listed) where
  open fs use {Inode, get_inode, name, kind, size}

  unfoldable pub get_from_inode : Inode → Outcome DirEntry
  get_from_inode inode = (do
    name_slice ← name inode
    bytes ← or_zero (size inode)
    entry_of (kind inode) bytes name_slice)

  -- what a step does with an inode that was looked up, where `rest` is the step from the next index
  abbrev pub next_with :
      ℕ → Outcome (Option DirEntry × ℕ) → Outcome (Option Inode) → Outcome (Option DirEntry × ℕ)
  next_with index rest (ok (some inode)) =
      get_from_inode inode >>= λ entry. ok (some entry, suc index)
  next_with index rest (ok none) = rest
  next_with index rest (err e) = ok (none, suc index)
  next_with index rest panic = panic

  -- the search among the ids from `index` on, with the index that it ends at
  unfoldable pub next_from : List ℕ → ℕ → Outcome (Option DirEntry × ℕ)
  next_from [] index = ok (none, suc index)
  next_from (inode_id ∷ ids) index =
      next_with index (next_from ids (suc index)) (get_inode inode_id)

  unfoldable pub next : DirIter → Outcome (Option DirEntry × DirIter)
  next this = next_from (drop this.index this.inode_ids) this.index >>= λ found.
      ok (found.0, record { inode_ids = this.inode_ids; index = found.1 })
