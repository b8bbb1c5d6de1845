-- ===== src/Vfs/RamFs/Reach.antt =====
-- The operations of a `RamFS` over its invariant, and the file systems that sequences of them
-- reach.
use safa_os.Prelude.{
  ℕ, suc, ◌+◌, ◌<◌, ◌≡◌, ◌≢◌, refl, sym, ap, ◌∙◌, ◌==◌, if◌then◌else◌, take, true, none, some, [],
  ◌∷◌, length, arith, inl, inr, length-append, length-set, Option-cases, Bool-cases,
  get_elem?-none_of_le,
}
use native.Mathlib.Decide.{dec_lt}
use safa_os.Vfs.Types.{
  Bytes, Outcome, ok, err, panic, ◌>>=◌, ◌>>◌, guard, not_a_directory, not_a_file, >>=-eq-ok,
}
use safa_os.Vfs.Path.{trim_end, split_last, reslove_path, reslove_path_uncreated}
use safa_os.Vfs.RamFs.{
  RamInode, RamInodeData, contents, children, hard_link, RamFs, new, FileDescriptor, overwrite,
  target_of, truncate, write_node, write, insert, put, push, tree, is_dir, follow, create,
  createdir, new_file, new_dir, new_hardlink,
}
use safa_os.Vfs.RamFs.Invariant.{
  IsValid, AllNodes, IsBody, Kept, insert-Kept, AllNodes-mono, AllNodes-append, target-IsBody,
  put-AllNodes, reslove_path-ne_panic,
}

-- `push` of an inode that carries the next index
push-AllNodes :
    (n : ℕ) (this : RamFs) (x : RamInode)
    → AllNodes n 0 this.inodes
    → x.inodeid ≡ length this.inodes
    → IsBody n (length this.inodes) x.body
    → AllNodes n 0 (push this x).inodes
push-AllNodes n this x a e b =
    let z : length this.inodes ≡ 0 + length this.inodes = omega arith in
    AllNodes-append n 0 this.inodes x a (e ∙ z) (rw z at b)

length-push : (this : RamFs) (x : RamInode) → length (push this x).inodes ≡ suc (length this.inodes)
length-push this x = omega (arith, length-append this.inodes (x ∷ []))

-- `create` keeps a valid file system valid.
pub create-IsValid :
    (this : RamFs) (path : Bytes) (after : RamFs)
    → IsValid this
    → create this path ≡ ok after
    → IsValid after
unfolding create
create-IsValid this path after v h =
    let n = length this.inodes in
    let ((dir, name), _, h1) = >>=-eq-ok (reslove_path_uncreated (tree this) path) _ h in
    let (linked, e, h2) = >>=-eq-ok (insert this dir name n) _ h1 in
    let wide = AllNodes-mono n (suc n) 0 this.inodes (omega arith) v.nodes in
    let k = insert-Kept (suc n) this dir name n linked wide (omega arith) e in
    let size : length (push linked (new_file name [] n)).inodes ≡ suc n =
      length-push linked (new_file name [] n) ∙ ap suc k.size in
    let q : push linked (new_file name [] n) ≡ after = cc in
    rw (← q) (record {
      root = omega (arith, size);
      nodes = rw size (push-AllNodes (suc n) linked (new_file name [] n) k.nodes (sym k.size) tt);
    })

is_dir-lt : (this : RamFs) (id : ℕ) → is_dir this id ≡ true → id < length this.inodes
unfolding is_dir target_of follow
is_dir-lt this id h = elim (dec_lt id (length this.inodes)) [
  | yes lt ↦ lt
  | no le ↦ ground (arith, h, get_elem?-none_of_le this.inodes id)
]

abbrev check_dir : RamFs → Bytes → ℕ → Outcome (ℕ × Bytes)
check_dir this given d = guard (is_dir this d) not_a_directory >> ok (d, given)

checked-is_dir :
    (this : RamFs) (m : Outcome ℕ) (given : Bytes) (dir : ℕ) (name : Bytes)
    → (m >>= check_dir this given) ≡ ok (dir, name)
    → is_dir this dir ≡ true
checked-is_dir this (ok d) given dir name h = elim (Bool-cases (is_dir this d)) [
  | inl is ↦ ground (arith, is)
  | inr isnt ↦ ground (arith, isnt)
]
checked-is_dir this (err e) given dir name h = cc
checked-is_dir this panic given dir name h = cc

abbrev parts : Bytes → Bytes × Bytes
parts path = elim (split_last (trim_end b'/' path)) [
  | some (before, after) ↦ (after, before)
  | none ↦ (trim_end b'/' path, b'/' ∷ [])
]

-- the directory of a path that is to be created is a directory of the vector
uncreated-is_dir :
    (this : RamFs) (path : Bytes) (dir : ℕ) (name : Bytes)
    → reslove_path_uncreated (tree this) path ≡ ok (dir, name)
    → is_dir this dir ≡ true
unfolding reslove_path_uncreated
uncreated-is_dir this path dir name h =
    checked-is_dir this (reslove_path (tree this) (parts path).1) (parts path).0 dir name h

-- `createdir` keeps a valid file system valid.
pub createdir-IsValid :
    (this : RamFs) (path : Bytes) (after : RamFs)
    → IsValid this
    → createdir this path ≡ ok after
    → IsValid after
unfolding createdir
createdir-IsValid this path after v h =
    let n = length this.inodes in
    let dots : Bytes = b'.' ∷ b'.' ∷ [] in
    let ((dir, name), e0, h1) = >>=-eq-ok (reslove_path_uncreated (tree this) path) _ h in
    let (linked, e, h2) = >>=-eq-ok (insert this dir name n) _ h1 in
    let wide = AllNodes-mono n (suc (suc n)) 0 this.inodes (omega arith) v.nodes in
    let k = insert-Kept (suc (suc n)) this dir name n linked wide (omega arith) e in
    let made = push linked (new_dir name n) in
    let both = push made (new_hardlink dots dir (suc n)) in
    let size1 : length made.inodes ≡ suc n = length-push linked (new_dir name n) ∙ ap suc k.size in
    let size2 : length both.inodes ≡ suc (suc n) =
      length-push made (new_hardlink dots dir (suc n)) ∙ ap suc size1 in
    let nodes1 = push-AllNodes (suc (suc n)) linked (new_dir name n) k.nodes (sym k.size) tt in
    let lt : dir < length made.inodes =
      omega (arith, size1, is_dir-lt this dir (uncreated-is_dir this path dir name e0)) in
    let nodes2 =
      push-AllNodes (suc (suc n)) made (new_hardlink dots dir (suc n)) nodes1 (sym size1) lt in
    let k2 = insert-Kept (suc (suc n)) both n dots (suc n) after nodes2 (omega arith) h2 in
    record { root = omega (arith, k2.size, size2); nodes = rw (k2.size, size2) k2.nodes }

-- the data of a file is replaced, or the call fails
file_body :
    (n : ℕ) (this : RamFs) (at : ℕ) (x : RamInode) (d : RamInodeData) (bytes : Bytes → Bytes)
    (after : RamFs)
    → AllNodes n 0 this.inodes
    → x.inodeid ≡ at
    → elim d [ contents old ↦ ok (put this at x (contents (bytes old))) | _ ↦ err not_a_file ]
      ≡ ok after
    → Kept n this after
file_body n this at x (contents old) bytes after a q h =
    let e : put this at x (contents (bytes old)) ≡ after = cc in
    rw (← e) (record {
      size = length-set this.inodes at _;
      nodes = put-AllNodes n this at x (contents (bytes old)) a q tt;
    })
file_body n this at x (children tree) bytes after a q h = cc
file_body n this at x (hard_link t) bytes after a q h = cc

truncate-Kept :
    (n : ℕ) (this : RamFs) (id size : ℕ) (after : RamFs)
    → AllNodes n 0 this.inodes
    → truncate this id size ≡ ok after
    → Kept n this after
unfolding truncate
truncate-Kept n this id size after a h = elim (Option-cases (target_of this id)) [
  | inl lost ↦ cc (rw (lost, truncate) at h)
  | inr ((at, x), e) ↦
      file_body n this at x x.body (take size) after a (target-IsBody n this id at x a e).1
        (rw (e, truncate) at h)
]

write_node-Kept :
    (n : ℕ) (this : RamFs) (id : ℕ) (buffer : Bytes) (offset : ℕ) (after : RamFs)
    → AllNodes n 0 this.inodes
    → write_node this id buffer offset ≡ ok after
    → Kept n this after
unfolding write_node
write_node-Kept n this id buffer offset after a h = elim (Option-cases (target_of this id)) [
  | inl lost ↦ cc (rw (lost, write_node) at h)
  | inr ((at, x), e) ↦
      file_body n this at x x.body (λ old. overwrite old offset buffer) after a
        (target-IsBody n this id at x a e).1 (rw (e, write_node) at h)
]

-- Writing through any descriptor keeps a valid file system valid.
pub write-IsValid :
    (this : RamFs) (fd : FileDescriptor) (buffer : Bytes) (after : RamFs × FileDescriptor)
    → IsValid this
    → write this fd buffer ≡ ok after
    → IsValid after.0
unfolding write
write-IsValid this fd buffer after v h =
    let n = length this.inodes in
    let (cleared, e, h1) =
      >>=-eq-ok (if fd.write_pos == 0 then truncate this fd.node 0 else ok this) _ h in
    let k : Kept n this cleared = elim (Bool-cases (fd.write_pos == 0)) [
      | inl first ↦ truncate-Kept n this fd.node 0 cleared v.nodes (rw first at e)
      | inr later ↦
          let q : this ≡ cleared = cc (rw later at e) in
          rw (← q) (record { size = refl; nodes = v.nodes })
    ] in
    let (written, e2, h2) = >>=-eq-ok (write_node cleared fd.node buffer fd.write_pos) _ h1 in
    let k2 = write_node-Kept n cleared fd.node buffer fd.write_pos written k.nodes e2 in
    let q : written ≡ after.0 = cc in
    let z : length after.0.inodes ≡ n = rw (← q) (k2.size ∙ k.size) in
    record { root = omega (arith, z, v.root); nodes = rw (z, ← q) k2.nodes }

-- one successful call on the file system
pub data Step (this : RamFs) : RamFs → Type 0 where
  created : {after : RamFs} (path : Bytes) → create this path ≡ ok after → Step this after
  dir_created : {after : RamFs} (path : Bytes) → createdir this path ≡ ok after → Step this after
  written :
      {after : RamFs} {fd' : FileDescriptor} (fd : FileDescriptor) (buffer : Bytes)
      → write this fd buffer ≡ ok (after, fd')
      → Step this after

-- the file systems that successful calls lead to from an empty one
pub data Reachable : RamFs → Type 0 where
  start : Reachable new
  next : {this after : RamFs} → Reachable this → Step this after → Reachable after

new-IsValid : IsValid new
new-IsValid = record { root = omega arith; nodes = (refl, tt, tt) }

Step-IsValid : {this after : RamFs} → Step this after → IsValid this → IsValid after
Step-IsValid (created path e) v = create-IsValid _ path _ v e
Step-IsValid (dir_created path e) v = createdir-IsValid _ path _ v e
Step-IsValid (written fd buffer e) v = write-IsValid _ fd buffer _ v e

pub Reachable-IsValid : {this : RamFs} → Reachable this → IsValid this
Reachable-IsValid start = new-IsValid
Reachable-IsValid (next r s) = Step-IsValid s (Reachable-IsValid r)

-- In every file system that creations of files and directories and writes, in any order, make of an
-- empty one, no resolution of a path panics.
pub reachable_ne_panic :
    {this : RamFs} (path : Bytes) → Reachable this → reslove_path (tree this) path ≢ panic
reachable_ne_panic path r = reslove_path-ne_panic _ path (Reachable-IsValid r)
