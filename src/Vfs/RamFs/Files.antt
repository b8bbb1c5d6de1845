-- ===== src/Vfs/RamFs/Files.antt =====
-- Reading and writing the files of a `RamFS` through descriptors.
use mathlib.Core.List.{append-nil}
use safa_os.Prelude.{
  ℕ, zero, suc, ◌+◌, ◌-◌, ◌^◌, ◌≤◌, ◌<◌, ◌≡◌, ◌≢◌, refl, sym, ap, ◌∙◌, ◌==◌, ltb, leb, true, false,
  ◌&&◌, if◌then◌else◌, some, List, [], ◌∷◌, ◌++◌, length, get_elem?, set, take, drop, replicate,
  arith, get_elem?-set_self, get_elem?-lt, get_elem?-set_ne, length-append, length-replicate,
  set-set, min,
}
use safa_os.Prelude.Words.{add_usize, sub_usize}
use safa_os.Vfs.Types.{Bytes, Outcome, ok, panic, ◌>>=◌}
use safa_os.Vfs.RamFs.{
  RamInode, contents, RamFs, FileDescriptor, follow, target_of, size, truncate, read_node,
  overwrite, write_node, read, write,
}

abbrev pub descriptor : ℕ → ℕ → ℕ → FileDescriptor
descriptor id r w = record { node = id; read_pos = r; write_pos = w }

abbrev pub file_node : Bytes → ℕ → Bytes → RamInode
file_node name number bytes = record { name = name; body = contents bytes; inodeid = number }

-- inode `id` is a file that holds `bytes`
pub record IsFile (this : RamFs) (id : ℕ) (bytes : Bytes) : Type 0 where
  pub name : Bytes
  pub number : ℕ
  pub at : get_elem? this.inodes id ≡ some (file_node name number bytes)

take_prefix : (xs ys : Bytes) → take (length xs) (xs ++ ys) ≡ xs
take_prefix [] ys = refl
take_prefix (x ∷ xs) ys = ap (λ l. x ∷ l) (take_prefix xs ys)

take_all : (n : ℕ) (xs : Bytes) → length xs ≤ n → take n xs ≡ xs
take_all zero [] h = refl
take_all zero (x ∷ xs) h = elim h [ ]
take_all (suc n) [] h = refl
take_all (suc n) (x ∷ xs) h = ap (λ l. x ∷ l) (take_all n xs (omega arith))

drop_past : (n : ℕ) (xs : Bytes) → length xs ≤ n → drop n xs ≡ []
drop_past zero [] h = refl
drop_past zero (x ∷ xs) h = elim h [ ]
drop_past (suc n) [] h = refl
drop_past (suc n) (x ∷ xs) h = drop_past n xs (omega arith)

overwrite_end : (old buffer : Bytes) → overwrite old (length old) buffer ≡ old ++ buffer
unfolding overwrite
overwrite_end old [] =
    let e : ltb (length old) (0 + length old) ≡ false = ground arith in
    rw (e, take_all (length old) old (omega arith), drop_past (0 + length old) old (omega arith))
overwrite_end old (b ∷ buffer) =
    let e : ltb (length old) (suc (length buffer) + length old) ≡ true = ground arith in
    rw (
      e,
      take_prefix,
      drop_past (suc (length buffer) + length old)
          (old ++ replicate (suc (length buffer) + length old - length old) 0)
          (omega (
            arith,
            length-append old (replicate (suc (length buffer) + length old - length old) 0),
            length-replicate {A = ℕ} (suc (length buffer) + length old - length old) 0,
          )),
      append-nil,
    )

-- the file with new bytes
abbrev pub replaced : {this : RamFs} {id : ℕ} {bytes : Bytes} → IsFile this id bytes → Bytes → RamFs
replaced {this} {id} f new = record this {
  inodes = set this.inodes id (file_node f.name f.number new);
}

module _ {this : RamFs} {id : ℕ} {bytes : Bytes} (f : IsFile this id bytes) where
  target-file : target_of this id ≡ some (id, file_node f.name f.number bytes)
  unfolding target_of follow
  target-file = rw (f.at, follow)

  replaced-IsFile : (new : Bytes) → IsFile (replaced f new) id new
  replaced-IsFile new = record {
    name = f.name;
    number = f.number;
    at = get_elem?-set_self this.inodes id _ (get_elem?-lt this.inodes id _ f.at);
  }

  truncate-file : (n : ℕ) → truncate this id n ≡ ok (replaced f (take n bytes))
  unfolding truncate
  truncate-file n = rw (target-file, truncate)

  write_node-file :
      (buffer : Bytes) (offset : ℕ)
      → write_node this id buffer offset ≡ ok (replaced f (overwrite bytes offset buffer))
  unfolding write_node
  write_node-file buffer offset = rw (target-file, write_node)

  size-file : size this id ≡ ok (length bytes)
  unfolding size
  size-file = rw (f.at, size)

  -- a write at the end of what this descriptor has written
  write_at_end :
      (r : ℕ) (buffer : Bytes)
      → length bytes ≢ 0
      → length bytes + length buffer < 2 ^ 64
      → write this (descriptor id r (length bytes)) buffer
        ≡ ok (replaced f (bytes ++ buffer), descriptor id r (length bytes + length buffer))
  unfolding write
  write_at_end r buffer nz fits =
      let t : (length bytes == 0) ≡ false = ground arith in
      let sum : add_usize (length bytes) (length buffer) ≡ length bytes + length buffer =
        omega arith in
      rw t (rw (write_node-file buffer (length bytes), overwrite_end, sum))

  read_node-file :
      (room offset count : ℕ)
      → count ≤ room
      → offset + count ≤ length bytes
      → read_node this id room offset count ≡ ok (take count (drop offset bytes))
  unfolding read_node
  read_node-file room offset count h k =
      let t : (leb count room && leb (offset + count) (length bytes)) ≡ true = ground arith in
      rw (target-file, read_node) (rw t)

  read_from :
      (r w room : ℕ)
      → r ≤ length bytes
      → length bytes < 2 ^ 64
      → r + room < 2 ^ 64
      → read this (descriptor id r w) room
        ≡ ok (
          descriptor id (r + min room (length bytes - r)) w,
          take (min room (length bytes - r)) (drop r bytes),
        )
  unfolding read
  read_from r w room le small fits =
      let sum : add_usize r room ≡ r + room = omega arith in
      let count : (if ltb (length bytes) (r + room) then sub_usize (length bytes) r else room)
          ≡ min room (length bytes - r) =
        ground arith in
      let next : add_usize r (min room (length bytes - r)) ≡ r + min room (length bytes - r) =
        omega arith in
      rw (size-file, read)
        (rw sum (
          rw count (
            rw (read_node-file room r (min room (length bytes - r)) (omega arith) (omega arith))
              (rw next))))

module _ {this : RamFs} {id : ℕ} {bytes : Bytes} (f : IsFile this id bytes) where
  -- a write through a descriptor that has written nothing
  write_first :
      (r : ℕ) (buffer : Bytes)
      → length buffer < 2 ^ 64
      → write this (descriptor id r 0) buffer
        ≡ ok (replaced f buffer, descriptor id r (length buffer))
  unfolding write replaced-IsFile
  write_first r buffer fits =
      let sum : add_usize 0 (length buffer) ≡ length buffer = omega arith in
      rw (truncate-file f 0) (
        rw (write_node-file (replaced-IsFile f []) buffer 0, overwrite_end [] buffer, sum)
          (rw set-set))

read_node_beyond :
    {this : RamFs} {id : ℕ} {bytes : Bytes} (f : IsFile this id bytes) (room offset count : ℕ)
    → room < count
    → read_node this id room offset count ≡ panic
unfolding read_node
read_node_beyond {bytes} f room offset count h =
    let t : (leb count room && leb (offset + count) (length bytes)) ≡ false = ground arith in
    rw (target-file f, read_node) (rw t)

read_beyond :
    {this : RamFs} {id : ℕ} {bytes : Bytes} (f : IsFile this id bytes) (r w room : ℕ)
    → length bytes < r
    → r + room < 2 ^ 64
    → read this (descriptor id r w) room ≡ panic
unfolding read
read_beyond {bytes} f r w room short fits =
    let sum : add_usize r room ≡ r + room = omega arith in
    let count : (if ltb (length bytes) (r + room) then sub_usize (length bytes) r else room)
        ≡ 2 ^ 64 - (r - length bytes) =
      ground arith in
    rw (size-file f, read)
      (rw sum
        (rw count (rw (read_node_beyond f room r (2 ^ 64 - (r - length bytes)) (omega arith)))))

-- two writes through one descriptor that starts at 0
abbrev pub write_twice : RamFs → ℕ → Bytes → Bytes → Outcome (RamFs × FileDescriptor)
write_twice this id a b = do (written, fd) ← write this (descriptor id 0 0) a; write written fd b

same_elsewhere :
    {A : Type 0} (xs : List A) (i : ℕ) (v : A) (j : ℕ)
    → j ≢ i
    → get_elem? (set xs i v) j ≡ get_elem? xs j
same_elsewhere xs i v j ne = get_elem?-set_ne xs i j v (λ e. ne (sym e))

-- Two writes through a new descriptor of a file replace its bytes by those of the two buffers in
-- order, whatever it held; every other inode stays, and a read through another new descriptor
-- returns as many of these bytes as its buffer has room for.
pub write_twice-read :
    (this : RamFs) (id : ℕ) (bytes a b : Bytes) (room : ℕ)
    → IsFile this id bytes
    → length a + length b < 2 ^ 64
    → room < 2 ^ 64
    → (fs : RamFs) × (write_twice this id a b ≡ ok (fs, descriptor id 0 (length (a ++ b))))
      × IsFile fs id (a ++ b)
      × ((j : ℕ) → j ≢ id → get_elem? fs.inodes j ≡ get_elem? this.inodes j)
      × (read fs (descriptor id 0 0) room
          ≡ ok (
            descriptor id (min room (length (a ++ b))) 0,
            take (min room (length (a ++ b))) (a ++ b),
          ))
unfolding replaced-IsFile
write_twice-read this id bytes a b room f fits small =
    let g : IsFile (replaced f (a ++ b)) id (a ++ b) = replaced-IsFile f (a ++ b) in
    (replaced f (a ++ b), both a b fits, g, same_elsewhere this.inodes id _, read_all g)
  where
    both :
        (a b : Bytes)
        → length a + length b < 2 ^ 64
        → write_twice this id a b ≡ ok (replaced f (a ++ b), descriptor id 0 (length (a ++ b)))
    both [] b fits =
        rw (write_first f 0 [] (omega arith))
          (rw (write_first (replaced-IsFile f []) 0 b (omega arith)) (rw set-set))
    both (x ∷ a) b fits = rw (write_first f 0 (x ∷ a) (omega arith)) (
        rw
          (
            write_at_end (replaced-IsFile f (x ∷ a)) 0 b (omega arith) (omega arith),
            ← length-append,
          )
          (rw set-set))

    read_all :
        IsFile (replaced f (a ++ b)) id (a ++ b)
        → read (replaced f (a ++ b)) (descriptor id 0 0) room
          ≡ ok (
            descriptor id (min room (length (a ++ b))) 0,
            take (min room (length (a ++ b))) (a ++ b),
          )
    read_all g =
        let n = length (a ++ b) in
        let z1 : n - 0 ≡ n = omega arith in
        let z2 : 0 + min room n ≡ min room n = omega arith in
        read_from g 0 0 room (omega arith) (omega (arith, length-append a b)) (omega arith)
        ∙ rw z1 (rw z2)

-- A file that became shorter than the read position of an open descriptor, here by a write through
-- another descriptor, panics the kernel at the next read through the first, for any buffer that
-- does not pass the address space.
pub read_after_shrink :
    (this : RamFs) (id : ℕ) (bytes buffer : Bytes) (r w room : ℕ)
    → IsFile this id bytes
    → length buffer < r
    → r + room < 2 ^ 64
    → (do
      (written, _) ← write this (descriptor id 0 0) buffer
      read written (descriptor id r w) room)
      ≡ panic
read_after_shrink this id bytes buffer r w room f short fits =
    rw (write_first f 0 buffer (omega arith))
      (read_beyond (replaced-IsFile f buffer) r w room short fits)
