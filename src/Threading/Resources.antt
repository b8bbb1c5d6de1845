-- ===== src/Threading/Resources.antt =====
-- `ResourceManager` of kernel/src/threading/resources.rs: the table of the open files and directory
-- iterators of a process. `none` is a panic. The mount point of a descriptor is left out: the only
-- file system whose descriptors are modelled is `RamFS`, and `close` does nothing in any of them.
pub mod Table
use safa_os.Prelude.{
  ℕ, zero, suc, ◌+◌, ◌-◌, ◌≤◌, ◌<◌, ◌≡◌, ◌≢◌, refl, ◌==◌, ltb, leb, not, Bool, true, false,
  if◌then◌else◌, Option, none, some, List, [], ◌∷◌, ◌++◌, map, length, get_elem?, set, drop, arith,
  inl, inr, Bool-cases, Option-cases, Result, ok, err, get_elem?-set_self, get_elem?-set_ne,
  get_elem?-append_lt, get_elem?-append_length, get_elem?-none_of_le, length-set, length-append,
  leb→le,
}
use native.Mathlib.Decide.{dec_lt}
use safa_os.Vfs.RamFs.{FileDescriptor}

pub record DirIter : Type 0 where
  pub inode_ids : List ℕ
  pub index : ℕ

pub data Resource : Type 0 where
  null : Resource
  file : FileDescriptor → Resource
  dir_iter : DirIter → Resource

abbrev pub variant : Resource → ℕ
variant null = 0
variant (file _) = 1
variant (dir_iter _) = 2

pub record ResourceManager : Type 0 where
  pub resources : List Resource
  pub next_ri : ℕ

abbrev pub new : ResourceManager
new = record { resources = []; next_ri = 0 }

-- the index, from `ri` on, of the first empty place
pub find_null : List Resource → ℕ → Option ℕ
find_null [] ri = none
find_null (res ∷ rest) ri =
    let later = find_null rest (ri + 1) in if variant res == variant null then some ri else later

pub add_resource : ResourceManager → Resource → Option (ResourceManager × ℕ)
add_resource this resource =
    let len = length this.resources in
    if leb this.next_ri len
    then elim (find_null (drop this.next_ri this.resources) this.next_ri) [
      | some ri ↦ some (record { resources = set this.resources ri resource; next_ri = ri }, ri)
      | none ↦ some (record { resources = this.resources ++ resource ∷ []; next_ri = len }, len)
    ]
    else none

pub remove_resource : ResourceManager → ℕ → Result ResourceManager (Unit {0})
remove_resource this ri =
    if leb (length this.resources) ri
    then err tt
    else ok (record {
      resources = set this.resources ri null;
      next_ri = if ltb ri this.next_ri then ri else this.next_ri;
    })

abbrev pub clean_one : Resource → Resource
clean_one (file fd) = file fd
clean_one _ = null

-- the cleaned table and the previous `next_ri`
unfoldable pub clean : ResourceManager → ResourceManager × ℕ
clean this = (record { resources = map clean_one this.resources; next_ri = 0 }, this.next_ri)

abbrev pub overwrite_resources : ResourceManager → List Resource → ResourceManager
overwrite_resources this resources = record this { resources = resources }

unfoldable pub get : ResourceManager → ℕ → Option Resource
get this ri = if leb (length this.resources) ri then none else get_elem? this.resources ri

-- whether an index holds a resource
abbrev pub in_use : List Resource → ℕ → Bool
in_use resources ri = elim (get_elem? resources ri) [
  | some res ↦ not (variant res == 0)
  | none ↦ false
]

-- the invariant: no place below `next_ri` is empty
pub record IsPacked (this : ResourceManager) : Type 0 where
  pub bound : this.next_ri ≤ length this.resources
  pub used : (ri : ℕ) → ri < this.next_ri → in_use this.resources ri ≡ true
