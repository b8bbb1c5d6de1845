-- ===== src/Vfs/RamFs/Links.antt =====
-- The hard links of a `RamFS` and where chains of them end.
use safa_os.Prelude.{
  ℕ, zero, suc, ◌+◌, ◌<◌, ◌≡◌, refl, Bool, true, false, Option, some, List, length, arith,
  get_elem?-some_of_lt,
}
use safa_os.Vfs.RamFs.{
  RamInode, RamInodeData, contents, children, hard_link, RamFs, pass, follow, target_of,
}
use safa_os.Vfs.RamFs.Invariant.{IsValid, IsBody, AllNodes, AllNodes-get}

-- whether a body is what a call ends at
abbrev pub is_target : RamInodeData → Bool
is_target (hard_link _) = false
is_target _ = true

-- where a chain of links from a body ends
abbrev PassEnds : Option (ℕ × RamInode) → Type 0
PassEnds found = (at : ℕ) × (x : RamInode) × (found ≡ some (at, x)) × (is_target x.body ≡ true)

pass-ends :
    (next : ℕ → Option (ℕ × RamInode)) (n id : ℕ) (inode : RamInode) (d : RamInodeData)
    → inode.body ≡ d
    → IsBody n id d
    → ((t : ℕ) → t < id → PassEnds (next t))
    → PassEnds (pass next id inode d)
pass-ends next n id inode (contents bytes) e b ih = (id, inode, refl, rw e refl)
pass-ends next n id inode (children tree) e b ih = (id, inode, refl, rw e refl)
pass-ends next n id inode (hard_link t) e b ih = ih t b

follow-ends :
    (steps : ℕ) (inodes : List RamInode) (id : ℕ)
    → AllNodes (length inodes) 0 inodes
    → id < steps
    → id < length inodes
    → PassEnds (follow steps inodes id)
unfolding follow
follow-ends zero inodes id a h lt = absurd (omega (arith, h))
follow-ends (suc steps) inodes id a h lt =
    let (x, e) = get_elem?-some_of_lt inodes id lt in
    let b = (AllNodes-get (length inodes) 0 id inodes x a e).1 in
    let z : 0 + id ≡ id = omega arith in
    rw (e, follow)
      (pass-ends (follow steps inodes) (length inodes) id x x.body refl (rw z at b)
        (λ t less. follow-ends steps inodes t a (omega arith) (omega arith)))

-- In a valid file system the chain of hard links from any inode ends, at a file or a directory.
pub target_of-ends :
    (this : RamFs) (id : ℕ)
    → IsValid this
    → id < length this.inodes
    → (at : ℕ) × (x : RamInode) × (target_of this id ≡ some (at, x)) × (is_target x.body ≡ true)
unfolding target_of
target_of-ends this id v lt = follow-ends (suc id) this.inodes id v.nodes (omega arith) lt
