-- ===== src/Vfs/Mounts/Places.antt =====
-- The choice of a drive by a path, in `VFS` of kernel/src/drivers/vfs/mod.rs.
use safa_os.Prelude.{
  ℕ, ◌≡◌, ◌≢◌, refl, sym, ap, ◌∙◌, Bool, true, false, not, if◌then◌else◌, Option, none, some, List,
  [], ◌∷◌, ◌++◌, arith, inl, inr, Bool-cases,
}
use safa_os.Vfs.Types.{
  Bytes, ok, guard, same_bytes, same_bytes_iff, >>=-eq-ok, FsError, invaild_drive,
}
use safa_os.Vfs.Path.{split}
use safa_os.Vfs.RamFs.Invariant.{IsValid}
use safa_os.Vfs.Mounts.{
  Drive, ramfs, devicefs, procfs, Vfs, find_drive, set_drive, ends_with, drop_last, drive_name,
  get_with_name, first_part, place_of, get_from_path_checked, get_from_path,
}

-- a file system in memory is valid, and of the others nothing is asked
abbrev pub IsValidDrive : Drive → Type 0
IsValidDrive (ramfs fs) = IsValid fs
IsValidDrive devicefs = Unit
IsValidDrive procfs = Unit

abbrev pub AllValid : List (Bytes × Drive) → Type 0
AllValid [] = Unit
AllValid ((_, fs) ∷ drives) = IsValidDrive fs × AllValid drives

find_drive-IsValid :
    (drives : List (Bytes × Drive)) (name : Bytes) (fs : Drive)
    → AllValid drives
    → find_drive drives name ≡ some fs
    → IsValidDrive fs
unfolding find_drive
find_drive-IsValid [] name fs a h = cc
find_drive-IsValid ((n, fs') ∷ drives) name fs a h = elim (Bool-cases (same_bytes n name)) [
  | inl same ↦ let e : fs' ≡ fs = ground (arith, same, h) in rw (← e) a.0
  | inr other ↦ find_drive-IsValid drives name fs a.1 (ground (arith, other, h))
]

pub set_drive-AllValid :
    (drives : List (Bytes × Drive)) (name : Bytes) (fs : Drive)
    → AllValid drives
    → IsValidDrive fs
    → AllValid (set_drive drives name fs)
unfolding set_drive
set_drive-AllValid [] name fs a v = tt
set_drive-AllValid ((n, fs') ∷ drives) name fs a v = elim (Bool-cases (same_bytes n name)) [
  | inl same ↦ rw same (v, a.1)
  | inr other ↦ rw other (a.0, set_drive-AllValid drives name fs a.1 v)
]

pub set_drive-other :
    (drives : List (Bytes × Drive)) (name other : Bytes) (fs : Drive)
    → other ≢ name
    → find_drive (set_drive drives name fs) other ≡ find_drive drives other
unfolding set_drive find_drive
set_drive-other [] name other fs ne = refl
set_drive-other ((n, fs') ∷ drives) name other fs ne = elim (Bool-cases (same_bytes n name)) [
  | inr apart ↦ ground (arith, apart, set_drive-other drives name other fs ne)
  | inl same ↦ elim (Bool-cases (same_bytes n other)) [
    | inr far ↦ ground (arith, same, far)
    | inl also ↦
        absurd (ne (sym ((same_bytes_iff n other).0 also) ∙ (same_bytes_iff n name).0 same))
  ]
]

pub find_drive-set_drive :
    (drives : List (Bytes × Drive)) (name : Bytes) (old fs : Drive)
    → find_drive drives name ≡ some old
    → find_drive (set_drive drives name fs) name ≡ some fs
unfolding set_drive find_drive
find_drive-set_drive [] name old fs h = cc
find_drive-set_drive ((n, fs') ∷ drives) name old fs h = elim (Bool-cases (same_bytes n name)) [
  | inl same ↦ ground (arith, same)
  | inr apart ↦
      let rest = find_drive-set_drive drives name old fs (ground (arith, apart, h)) in
      ground (arith, apart, rest)
]

-- A drive's name is what stands before the colon at its end.
drop_last-ends_with :
    (c : ℕ) (name : Bytes) → ends_with c name ≡ true → drop_last name ++ c ∷ [] ≡ name
unfolding ends_with
drop_last-ends_with c [] h = cc
drop_last-ends_with c (b ∷ []) h = let e : b ≡ c = ground arith in rw e refl
drop_last-ends_with c (b ∷ d ∷ ds) h = ap (λ l. b ∷ l) (drop_last-ends_with c (d ∷ ds) h)

drive_name-ends_with :
    (name : Bytes) → ends_with b':' name ≡ true → drive_name name ++ b':' ∷ [] ≡ name
unfolding drive_name
drive_name-ends_with name h = rw (h, drive_name) (drop_last-ends_with b':' name h)

-- the path that is looked up: as given if its first part names a drive, else behind the current
-- directory
abbrev pub IsAbsolute : Bytes → Bytes → Bytes → Type 0
IsAbsolute cwd path full =
    (first : Bytes) × (first_part (split path) ≡ ok first)
    × (full ≡ (if not (ends_with b':' first) then cwd ++ path else path))

-- the drive that a path leads to: it bears the name before the colon at the end of the first part
-- of the whole path
pub record LeadsTo (this : Vfs) (cwd path drive : Bytes) (fs : Drive) (full : Bytes) : Type 0 where
  pub whole : IsAbsolute cwd path full
  pub named : first_part (split full) ≡ ok (drive ++ b':' ∷ [])
  pub mounted : find_drive this.drivers drive ≡ some fs

placed :
    (given path : Bytes) (found : Option Drive) (drive : Bytes) (fs : Drive) (full : Bytes)
    → place_of given path found ≡ ok (drive, fs, full)
    → (found ≡ some fs) × (drive_name given ≡ drive) × (path ≡ full)
placed given path none drive fs full h = cc
placed given path (some fs') drive fs full h = (cc, cc, cc)

guard-eq-ok : (b : Bool) (e : FsError) (u : Unit {0}) → guard b e ≡ ok u → b ≡ true
guard-eq-ok true e u h = refl
guard-eq-ok false e u h = cc

checked-named :
    (this : Vfs) (path : Bytes) (drive : Bytes) (fs : Drive) (full : Bytes)
    → get_from_path_checked this path ≡ ok (drive, fs, full)
    → (path ≡ full)
      × (first_part (split full) ≡ ok (drive ++ b':' ∷ []))
      × (find_drive this.drivers drive ≡ some fs)
unfolding get_from_path_checked get_with_name
checked-named this path drive fs full h =
    let (given, e, h1) = >>=-eq-ok (first_part (split path)) _ h in
    let (u, colon, h2) = >>=-eq-ok (guard (ends_with b':' given) invaild_drive) _ h1 in
    let (found, name, same) = placed given path (get_with_name this given) drive fs full h2 in
    let ends =
      drive_name-ends_with given (guard-eq-ok (ends_with b':' given) invaild_drive u colon) in
    (same, rw (← same, ← name) (e ∙ ap ok (sym ends)), rw (← name) found)

pub place-LeadsTo :
    (this : Vfs) (cwd path : Bytes) (drive : Bytes) (fs : Drive) (full : Bytes)
    → get_from_path this cwd path ≡ ok (drive, fs, full)
    → LeadsTo this cwd path drive fs full
unfolding get_from_path
place-LeadsTo this cwd path drive fs full h =
    let (first, e, h1) = >>=-eq-ok (first_part (split path)) _ h in
    let (same, named, mounted) =
      checked-named this (if not (ends_with b':' first) then cwd ++ path else path) drive fs full
        h1 in
    record { whole = (first, e, sym same); named = named; mounted = mounted }

pub place-IsValid :
    (this : Vfs) (cwd path : Bytes) (drive : Bytes) (fs : Drive) (full : Bytes)
    → AllValid this.drivers
    → get_from_path this cwd path ≡ ok (drive, fs, full)
    → IsValidDrive fs
place-IsValid this cwd path drive fs full a h =
    find_drive-IsValid this.drivers drive fs a (place-LeadsTo this cwd path drive fs full h).mounted
