-- ===== src/Vfs/RamFs/Invariant.antt =====
-- The invariant of a `RamFS`: every index that an inode holds is one of the vector, hard links lead
-- to lower indices, and there is a root; and what lookups and `insert` do with it.
use safa_os.Prelude.{
  ℕ, zero, suc, ◌+◌, ◌≤◌, ◌<◌, ◌≡◌, ◌≢◌, ◌∙◌, ltb, lt→ltb, true, Option, some, List, [], ◌∷◌, ◌++◌,
  length, get_elem?, set, arith, inl, inr, length-set, Bool-cases, Option-cases,
}
use mathlib.Core.Option.{some-injective}
use safa_os.Vfs.Types.{Bytes, ok, panic}
use safa_os.Vfs.Path.{walk, reslove_path, split, skip_drive, skip_empty}
use safa_os.Vfs.RamFs.{
  RamInode, RamInodeData, contents, children, hard_link, Children, RamFs, new, follow, target_of,
  find_child, insert_child, get, contains, pass, contains_in, get_in, insert, insert_into, put,
  tree,
}

-- every child is below `n`
abbrev pub Below : ℕ → Children → Type 0
Below n [] = Unit
Below n ((name, id) ∷ tree) = (id < n) × Below n tree

-- what an inode at index `i` may hold, with indices below `n`
abbrev pub IsBody : ℕ → ℕ → RamInodeData → Type 0
IsBody n i (contents bytes) = Unit
IsBody n i (children tree) = Below n tree
IsBody n i (hard_link target) = target < i

abbrev pub AllNodes : ℕ → ℕ → List RamInode → Type 0
AllNodes n i [] = Unit
AllNodes n i (x ∷ xs) = (x.inodeid ≡ i) × IsBody n i x.body × AllNodes n (suc i) xs

pub record IsValid (this : RamFs) : Type 0 where
  pub root : 0 < length this.inodes
  pub nodes : AllNodes (length this.inodes) 0 this.inodes

Below-mono : (n m : ℕ) (tree : Children) → n ≤ m → Below n tree → Below m tree
Below-mono n m [] h b = tt
Below-mono n m ((name, id) ∷ tree) h b = (omega arith, Below-mono n m tree h b.1)

IsBody-mono : (n m i : ℕ) (d : RamInodeData) → n ≤ m → IsBody n i d → IsBody m i d
IsBody-mono n m i (contents bytes) h b = tt
IsBody-mono n m i (children tree) h b = Below-mono n m tree h b
IsBody-mono n m i (hard_link t) h b = b

pub AllNodes-mono : (n m i : ℕ) (xs : List RamInode) → n ≤ m → AllNodes n i xs → AllNodes m i xs
AllNodes-mono n m i [] h a = tt
AllNodes-mono n m i (x ∷ xs) h a =
    (a.0, IsBody-mono n m i x.body h a.1, AllNodes-mono n m (suc i) xs h a.2)

pub AllNodes-append :
    (n i : ℕ) (xs : List RamInode) (y : RamInode)
    → AllNodes n i xs
    → y.inodeid ≡ i + length xs
    → IsBody n (i + length xs) y.body
    → AllNodes n i (xs ++ y ∷ [])
AllNodes-append n i [] y a e b = let z : i + 0 ≡ i = omega arith in (e ∙ z, rw z at b, tt)
AllNodes-append n i (x ∷ xs) y a e b =
    let z : i + suc (length xs) ≡ suc i + length xs = omega arith in
    (a.0, a.1, AllNodes-append n (suc i) xs y a.2 (e ∙ z) (rw z at b))

-- the inode at an index
pub AllNodes-get :
    (n i j : ℕ) (xs : List RamInode) (x : RamInode)
    → AllNodes n i xs
    → get_elem? xs j ≡ some x
    → (x.inodeid ≡ i + j) × IsBody n (i + j) x.body
AllNodes-get n i j [] x a e = cc
AllNodes-get n i zero (y ∷ xs) x a e =
    let z : i + 0 ≡ i = omega arith in
    let q : y ≡ x = some-injective y x e in rw (z, ← q) (a.0, a.1)
AllNodes-get n i (suc j) (y ∷ xs) x a e =
    let z : i + suc j ≡ suc i + j = omega arith in rw z (AllNodes-get n (suc i) j xs x a.2 e)

AllNodes-set :
    (n i j : ℕ) (xs : List RamInode) (x : RamInode)
    → AllNodes n i xs
    → x.inodeid ≡ i + j
    → IsBody n (i + j) x.body
    → AllNodes n i (set xs j x)
AllNodes-set n i j [] x a e b = tt
AllNodes-set n i zero (y ∷ xs) x a e b = let z : i + 0 ≡ i = omega arith in (e ∙ z, rw z at b, a.2)
AllNodes-set n i (suc j) (y ∷ xs) x a e b =
    let z : i + suc j ≡ suc i + j = omega arith in
    (a.0, a.1, AllNodes-set n (suc i) j xs x a.2 (e ∙ z) (rw z at b))

pass-get :
    (next : ℕ → Option (ℕ × RamInode)) (inodes : List RamInode) (id at : ℕ) (inode x : RamInode)
    (d : RamInodeData)
    → ((t : ℕ) → next t ≡ some (at, x) → get_elem? inodes at ≡ some x)
    → get_elem? inodes id ≡ some inode
    → pass next id inode d ≡ some (at, x)
    → get_elem? inodes at ≡ some x
pass-get next inodes id at inode x (contents bytes) ih e h =
    let q : id ≡ at = cc in let r : inode ≡ x = cc in rw (← q, ← r) e
pass-get next inodes id at inode x (children tree) ih e h =
    let q : id ≡ at = cc in let r : inode ≡ x = cc in rw (← q, ← r) e
pass-get next inodes id at inode x (hard_link t) ih e h = ih t h

-- where a chain of links ends: at an inode of the vector
follow-get :
    (steps : ℕ) (inodes : List RamInode) (id at : ℕ) (x : RamInode)
    → follow steps inodes id ≡ some (at, x)
    → get_elem? inodes at ≡ some x
unfolding follow
follow-get zero inodes id at x h = cc
follow-get (suc steps) inodes id at x h = elim (Option-cases (get_elem? inodes id)) [
  | inl out ↦ cc (rw (out, follow) at h)
  | inr (inode, e) ↦
      pass-get (follow steps inodes) inodes id at inode x inode.body
        (λ t. follow-get steps inodes t at x) e (rw (e, follow) at h)
]

find_child-Below :
    (n : ℕ) (tree : Children) (name : Bytes) (i : ℕ)
    → Below n tree
    → find_child tree name ≡ some i
    → i < n
unfolding find_child
find_child-Below n [] name i b h = cc
find_child-Below n ((m, j) ∷ tree) name i b h = ground (arith, find_child-Below n tree name i)

insert_child-Below :
    (n : ℕ) (tree : Children) (name : Bytes) (i : ℕ)
    → Below n tree
    → i < n
    → Below n (insert_child tree name i)
unfolding insert_child
insert_child-Below n [] name i b h = (h, tt)
insert_child-Below n ((m, j) ∷ tree) name i b h = ground (arith, insert_child-Below n tree name i)

pub target-IsBody :
    (n : ℕ) (this : RamFs) (id at : ℕ) (x : RamInode)
    → AllNodes n 0 this.inodes
    → target_of this id ≡ some (at, x)
    → (get_elem? this.inodes at ≡ some x) × (x.inodeid ≡ at) × IsBody n at x.body
unfolding target_of
target-IsBody n this id at x a h =
    let e = follow-get (suc id) this.inodes id at x h in
    let z : 0 + at ≡ at = omega arith in
    let (q, b) = AllNodes-get n 0 at this.inodes x a e in (e, q ∙ z, rw z at b)

get_in-below :
    (n at : ℕ) (d : RamInodeData) (name : Bytes)
    → IsBody n at d
    → contains_in (some d) name ≡ true
    → (i : ℕ) × (get_in (some d) name ≡ ok i) × (i < n)
get_in-below n at (contents bytes) name b h = cc
get_in-below n at (hard_link t) name b h = cc
get_in-below n at (children tree) name b h = elim (Option-cases (find_child tree name)) [
  | inl miss ↦ ground (arith, miss, h)
  | inr (i, hit) ↦ (i, ground (arith, hit), find_child-Below n tree name i b hit)
]

-- In a valid file system a name that an inode contains leads to an inode of the vector.
get_of_contains :
    (n : ℕ) (this : RamFs) (id : ℕ) (name : Bytes)
    → AllNodes n 0 this.inodes
    → contains this id name ≡ true
    → (i : ℕ) × (get this id name ≡ ok i) × (i < n)
unfolding contains get
get_of_contains n this id name a h = elim (Option-cases (target_of this id)) [
  | inl lost ↦ cc (rw (lost, contains) at h)
  | inr ((at, x), e) ↦
      rw (e, get)
        (get_in-below n at x.body name (target-IsBody n this id at x a e).2 (rw (e, contains) at h))
]

walk-ne_panic :
    (this : RamFs) (parts : List Bytes) (current : ℕ)
    → AllNodes (length this.inodes) 0 this.inodes
    → walk (tree this) parts current ≢ panic
unfolding walk
walk-ne_panic this [] current a = λ e. cc
walk-ne_panic this (p ∷ parts) current a = elim (Bool-cases (contains this current p)) [
  | inl has ↦
      let (i, e, lt) = get_of_contains (length this.inodes) this current p a has in
      ground (arith, e, lt, walk-ne_panic this parts current a, walk-ne_panic this parts i a)
  | inr lacks ↦ ground (arith, walk-ne_panic this parts current a)
]

-- Resolving any path in a valid file system ends in an inode or an error, never in a panic.
pub reslove_path-ne_panic :
    (this : RamFs) (path : Bytes) → IsValid this → reslove_path (tree this) path ≢ panic
unfolding reslove_path
reslove_path-ne_panic this path v =
    let t : ltb 0 (length this.inodes) ≡ true = lt→ltb 0 (length this.inodes) v.root in
    rw t (walk-ne_panic this (skip_drive (skip_empty (split path))) 0 v.nodes)

-- a change of one body keeps the nodes
pub put-AllNodes :
    (n : ℕ) (this : RamFs) (at : ℕ) (x : RamInode) (d : RamInodeData)
    → AllNodes n 0 this.inodes
    → x.inodeid ≡ at
    → IsBody n at d
    → AllNodes n 0 (put this at x d).inodes
put-AllNodes n this at x d a e b =
    let z : at ≡ 0 + at = omega arith in AllNodes-set n 0 at this.inodes _ a (e ∙ z) (rw z at b)

-- what `insert` leaves: as many inodes, each with indices below `n`
pub record Kept (n : ℕ) (this after : RamFs) : Type 0 where
  pub size : length after.inodes ≡ length this.inodes
  pub nodes : AllNodes n 0 after.inodes

insert-body :
    (n : ℕ) (this : RamFs) (at : ℕ) (x : RamInode) (d : RamInodeData) (name : Bytes) (node : ℕ)
    (after : RamFs)
    → AllNodes n 0 this.inodes
    → node < n
    → x.inodeid ≡ at
    → IsBody n at d
    → insert_into this at x d name node ≡ ok after
    → Kept n this after
insert-body n this at x (contents bytes) name node after a lt q b h = cc
insert-body n this at x (hard_link t) name node after a lt q b h = cc
insert-body n this at x (children tree) name node after a lt q b h =
    elim (Option-cases (find_child tree name)) [
      | inr (i, old) ↦ ground (arith, old, h)
      | inl new ↦
          let e : put this at x (children (insert_child tree name node)) ≡ after =
            ground (arith, new, h) in
          rw (← e) (record {
            size = length-set this.inodes at _;
            nodes = put-AllNodes n this at x _ a q (insert_child-Below n tree name node b lt);
          })
    ]

pub insert-Kept :
    (n : ℕ) (this : RamFs) (id : ℕ) (name : Bytes) (node : ℕ) (after : RamFs)
    → AllNodes n 0 this.inodes
    → node < n
    → insert this id name node ≡ ok after
    → Kept n this after
unfolding insert
insert-Kept n this id name node after a lt h = elim (Option-cases (target_of this id)) [
  | inl lost ↦ cc (rw (lost, insert) at h)
  | inr ((at, x), e) ↦
      let (_, q, b) = target-IsBody n this id at x a e in
      insert-body n this at x x.body name node after a lt q b (rw (e, insert) at h)
]
