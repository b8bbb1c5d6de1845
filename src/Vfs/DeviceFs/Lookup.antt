-- ===== src/Vfs/DeviceFs/Lookup.antt =====
-- Devices found by their names and by a listing of the directory.
use safa_os.Prelude.{
  ℕ, suc, ◌+◌, ◌-◌, ◌≡◌, refl, ap, false, some, List, [], ◌∷◌, ◌++◌, length, drop, get_elem?, ◌∙◌,
  Option, Bool-cases, inl, inr, arith,
}
use safa_os.Vfs.Types.{Bytes, device, Outcome, ok, err, panic, ◌>>=◌, same_bytes, same_bytes_iff}
use safa_os.Vfs.Listing.{DirEntry, entry_of, get_from_inode, next_with, next_from, next}
use safa_os.Threading.Resources.{DirIter}
use safa_os.Vfs.DeviceFs.{
  Device, DeviceManager, manager, device_inode, get_from, get, get_inode, ids_from, diriter_open,
  listed,
}

-- No device of the list has the name.
abbrev pub Unnamed : Bytes → List Device → Type 0
Unnamed name [] = Unit
Unnamed name (d ∷ devices) = (same_bytes d.name name ≡ false) × Unnamed name devices

-- The device `d` at `index` is the first one of the name.
abbrev pub IsFirstNamed : DeviceManager → Bytes → ℕ → Device → Type 0
IsFirstNamed devices name index d =
    (before : List Device) × (after : List Device) × (devices ≡ before ++ d ∷ after)
    × (index ≡ length before)
    × (d.name ≡ name)
    × Unnamed name before

abbrev FromNamed : ℕ → DeviceManager → Bytes → ℕ → Type 0
FromNamed i devices name id =
    (index : ℕ) × (d : Device) × (id ≡ suc (i + index)) × IsFirstNamed devices name index d

skip-FromNamed :
    (i : ℕ) (d : Device) (devices : DeviceManager) (name : Bytes) (id : ℕ)
    → same_bytes d.name name ≡ false
    → FromNamed (suc i) devices name id
    → FromNamed i (d ∷ devices) name id
skip-FromNamed i d devices name id other
      (index, found, at, (before, after, split, place, same, unnamed)) =
    (
      suc index,
      found,
      omega arith,
      (d ∷ before, after, ap (λ l. d ∷ l) split, ap suc place, same, (other, unnamed)),
    )

get_from-FromNamed :
    (i : ℕ) (devices : DeviceManager) (name : Bytes) (id : ℕ)
    → get_from i devices name ≡ ok id
    → FromNamed i devices name id
unfolding get_from
get_from-FromNamed i [] name id h = cc
get_from-FromNamed i (d ∷ devices) name id h = elim (Bool-cases (same_bytes d.name name)) [
  | inl same ↦
      let at : suc i ≡ id = cc in
      (0, d, omega arith, ([], devices, refl, refl, (same_bytes_iff d.name name).0 same, tt))
  | inr other ↦
      skip-FromNamed i d devices name id other (get_from-FromNamed (suc i) devices name id cc)
]

get_elem?-middle :
    (before : List Device) (d : Device) (after : List Device)
    → get_elem? (before ++ d ∷ after) (length before) ≡ some d
get_elem?-middle [] d after = refl
get_elem?-middle (b ∷ before) d after = get_elem?-middle before d after

module _ (devices : DeviceManager) (index : ℕ) (d : Device)
    (there : get_elem? devices index ≡ some d) where
  get_inode-suc : get_inode devices (suc index) ≡ ok (some (device_inode (suc index)))
  unfolding get_inode
  get_inode-suc = rw (get_inode, there) refl

  get_from_inode-entry_of :
      get_from_inode (listed devices) (device_inode (suc index)) ≡ entry_of device 0 d.name
  unfolding get_from_inode
  get_from_inode-entry_of = let same : suc index - 1 ≡ index = omega arith in rw (same, there) refl

  next_from-entry_of :
      (ids : List ℕ)
      → next_from (listed devices) (suc index ∷ ids) index
        ≡ (entry_of device 0 d.name >>= λ entry. ok (some entry, suc index))
  unfolding next_from
  next_from-entry_of ids =
      ap (next_with (listed devices) index (next_from (listed devices) ids (suc index)))
        get_inode-suc
      ∙ ap (λ o. o >>= λ entry. ok (some entry, suc index)) get_from_inode-entry_of

drop-ids_from :
    (first : ℕ) (before : List Device) (d : Device) (after : List Device)
    → drop (length before) (ids_from first (length (before ++ d ∷ after)))
      ≡ (first + length before) ∷ ids_from (suc (first + length before)) (length after)
unfolding ids_from
drop-ids_from first [] d after = let same : first + 0 ≡ first = omega arith in rw same refl
drop-ids_from first (b ∷ before) d after =
    let same : first + suc (length before) ≡ suc first + length before = omega arith in
    rw same (drop-ids_from (suc first) before d after)

abbrev kept : List ℕ → (Option DirEntry × ℕ) → Outcome (Option DirEntry × DirIter)
kept ids found = ok (found.0, record { inode_ids = ids; index = found.1 })

>>=-kept :
    (ids : List ℕ) (index : ℕ) (m : Outcome DirEntry)
    → (m >>= (λ entry. ok (some entry, index)) >>= kept ids)
      ≡ (m >>= λ entry. kept ids (some entry, index))
>>=-kept ids index (ok entry) = refl
>>=-kept ids index (err e) = refl
>>=-kept ids index panic = refl

-- the iterator of the directory when it has passed `index` devices
abbrev pub iterator_at : DeviceManager → ℕ → DirIter
iterator_at devices index = record (diriter_open devices) { index = index }

next-entry_of :
    (devices : DeviceManager) (before : List Device) (d : Device) (after : List Device)
    → devices ≡ before ++ d ∷ after
    → next (listed devices) (iterator_at devices (length before)) ≡ (
        entry_of device 0 d.name >>= λ entry.
        ok (some entry, iterator_at devices (suc (length before))))
unfolding next diriter_open
next-entry_of devices before d after split =
    let index = length before in
    let ids = ids_from 1 (length devices) in
    let there : get_elem? devices index ≡ some d = rw split (get_elem?-middle before d after) in
    let left : drop index ids ≡ suc index ∷ ids_from (suc (suc index)) (length after) =
      let one : suc index ≡ 1 + index = omega arith in
      rw (split, one) (drop-ids_from 1 before d after) in
    ap (λ l. next_from (listed devices) l index >>= kept ids) left
    ∙ ap (λ o. o >>= kept ids)
        (next_from-entry_of devices index d there (ids_from (suc (suc index)) (length after)))
    ∙ >>=-kept ids (suc index) (entry_of device 0 d.name)

-- The id that the root directory gives for a name leads to the inode of the first device that has
-- the name, an entry made from this inode bears the name, and the iterator of the directory gives
-- this entry when it has passed the devices before.
pub get-IsFirstNamed :
    (devices : DeviceManager) (name : Bytes) (id : ℕ)
    → get devices manager name ≡ ok id
    → (index : ℕ) × (d : Device) × (id ≡ suc index)
      × IsFirstNamed devices name index d
      × (get_inode devices id ≡ ok (some (device_inode id)))
      × (get_from_inode (listed devices) (device_inode id) ≡ entry_of device 0 name)
      × (next (listed devices) (iterator_at devices index)
          ≡ (entry_of device 0 name >>= λ entry. ok (some entry, iterator_at devices id)))
get-IsFirstNamed devices name id h =
    let (index, d, at, (before, after, split, place, same, unnamed)) =
      get_from-FromNamed 0 devices name id h in
    let there : get_elem? devices index ≡ some d =
      rw (split, place) (get_elem?-middle before d after) in
    let lands : id ≡ suc index = omega arith in
    (
      index,
      d,
      lands,
      (before, after, split, place, same, unnamed),
      rw lands (get_inode-suc devices index d there),
      rw (lands, ← same) (get_from_inode-entry_of devices index d there),
      rw (lands, place, ← same) (next-entry_of devices before d after split),
    )
