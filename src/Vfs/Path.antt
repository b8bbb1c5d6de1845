-- ===== src/Vfs/Path.antt =====
-- Path resolution: the default methods `reslove_path` and `reslove_path_uncreated` of the trait
-- `FS` in kernel/src/drivers/vfs/mod.rs, over the methods that a file system provides.
use safa_os.Prelude.{
  ℕ, ◌==◌, Bool, true, false, ◌&&◌, ◌||◌, if◌then◌else◌, Option, none, some, List, [], ◌∷◌,
}
use safa_os.Vfs.Types.{
  Bytes, Outcome, ok, err, ◌>>=◌, ◌>>◌, guard, unwrap, same_bytes, invaild_path,
  no_such_a_file_or_directory, not_a_directory,
}

abbrev pub is_empty : {A : Type 0} → List A → Bool
is_empty [] = true
is_empty (x ∷ xs) = false

-- a character that ends no part, before the parts of the rest
abbrev push_part : ℕ → List Bytes → List Bytes
push_part c [] = (c ∷ []) ∷ []
push_part c (p ∷ ps) = (c ∷ p) ∷ ps

-- `split(&['/', '\\'])`: always at least one part
unfoldable pub split : Bytes → List Bytes
split [] = [] ∷ []
split (c ∷ cs) =
    let parts = split cs in if c == b'/' || c == 0x5C then [] ∷ parts else push_part c parts

-- `trim_end_matches`
pub trim_end : ℕ → Bytes → Bytes
trim_end c [] = []
trim_end c (b ∷ bs) = let rest = trim_end c bs in if b == c && is_empty rest then [] else b ∷ rest

-- what stands before and behind the last `/`
pub split_last : Bytes → Option (Bytes × Bytes)
split_last [] = none
split_last (c ∷ cs) = elim (split_last cs) [
  | some (before, after) ↦ some (c ∷ before, after)
  | none ↦ if c == b'/' then some ([], cs) else none
]

unfoldable pub has_byte : ℕ → Bytes → Bool
has_byte c [] = false
has_byte c (b ∷ bs) = b == c || has_byte c bs

-- an empty first part is skipped
abbrev pub skip_empty : List Bytes → List Bytes
skip_empty ([] ∷ parts) = parts
skip_empty parts = parts

-- then a first part with a colon, the drive
abbrev pub skip_drive : List Bytes → List Bytes
skip_drive [] = []
skip_drive (p ∷ parts) = if has_byte b':' p then parts else p ∷ parts

-- what the default methods use of a file system and its inodes
pub record InodeTree : Type 1 where
  pub Inode : Type 0
  pub root_inode : Outcome Inode
  pub get_inode : ℕ → Outcome (Option Inode)
  pub is_dir : Inode → Bool
  pub contains : Inode → Bytes → Bool
  pub get : Inode → Bytes → Outcome ℕ

module _ (fs : InodeTree) where
  open fs use {Inode, root_inode, get_inode, is_dir, contains, get}

  -- the loop over the parts of the path
  unfoldable pub walk : List Bytes → Inode → Outcome Inode
  walk [] current = ok current
  walk (depth ∷ rest) current =
      let same = walk rest current in
      let deeper : Outcome Inode = (do
        guard (is_dir current) no_such_a_file_or_directory
        guard (contains current depth) no_such_a_file_or_directory
        inodeid ← get current depth
        found ← get_inode inodeid
        next ← unwrap found
        walk rest next) in
      if is_empty depth
      then (if is_empty rest then ok current else err invaild_path)
      else if same_bytes depth (b'.' ∷ [])
      then same
      else deeper

  unfoldable pub reslove_path : Bytes → Outcome Inode
  unfolding walk split has_byte
  reslove_path path = do root ← root_inode; walk (skip_drive (skip_empty (split path))) root

  -- the directory that holds the last part of the path, and that part
  unfoldable pub reslove_path_uncreated : Bytes → Outcome (Inode × Bytes)
  unfolding reslove_path trim_end split_last
  reslove_path_uncreated path =
      let path' = trim_end b'/' path in
      let parts : Bytes × Bytes = elim (split_last path') [
        | some (before, after) ↦ (after, before)
        | none ↦ (path', b'/' ∷ [])
      ] in
      (do
        resloved ← reslove_path parts.1
        guard (is_dir resloved) not_a_directory
        ok (resloved, parts.0))
