-- ===== src/Vfs/Mounts/Drives.antt =====
-- Operations through the drives of kernel/src/drivers/vfs/mod.rs: what they leave of each drive.
use safa_os.Prelude.{
  ◌≡◌, ◌≢◌, Bool, true, false, not, if◌then◌else◌, Option, none, some, List, [], ◌∷◌, ◌++◌,
}
use safa_os.Vfs.Types.{
  Bytes, Outcome, ok, panic, guard, >>=-eq-ok, >>=-ne_panic, FsError, invaild_drive, not_a_file,
}
use safa_os.Vfs.Path.{split, reslove_path}
use safa_os.Vfs.RamFs.{RamFs, open_path}
use safa_os.Vfs.RamFs
use safa_os.Vfs.DeviceFs.{DeviceManager}
use safa_os.Vfs.DeviceFs
use safa_os.Vfs.ProcFs
use safa_os.Threading.Scheduler.{Scheduler}
use safa_os.Vfs.RamFs.Invariant.{IsValid, reslove_path-ne_panic}
use safa_os.Vfs.RamFs.Reach.{create-IsValid, createdir-IsValid}
use safa_os.Vfs.Mounts.Places.{
  IsValidDrive, AllValid, set_drive-AllValid, set_drive-other, find_drive-set_drive, LeadsTo,
  place-LeadsTo, place-IsValid,
}
use safa_os.Vfs.Mounts.Trees.{device_path-ne_panic, proc_path-ne_panic}
use safa_os.Vfs.Mounts.{
  Drive, ramfs, devicefs, procfs, open_in, create_in, createdir_in, Vfs, find_drive, ends_with,
  get_with_name, first_part, place_of, get_from_path_checked, get_from_path, update, open_file,
  create, createdir,
}

-- What an operation on the drive that a path leads to does: this drive is what the operation of its
-- file system makes of it, every other drive is as it was, and all are valid.
pub record Changed (change : Drive → Bytes → Outcome Drive) (this after : Vfs) (cwd path : Bytes)
    : Type 0 where
  pub drive : Bytes
  pub before : Drive
  pub full : Bytes
  pub made : Drive
  pub leads : LeadsTo this cwd path drive before full
  pub changed : change before full ≡ ok made
  pub stored : find_drive after.drivers drive ≡ some made
  pub others :
      (other : Bytes)
      → other ≢ drive
      → find_drive after.drivers other ≡ find_drive this.drivers other
  pub valid : AllValid after.drivers

update-Changed :
    (change : Drive → Bytes → Outcome Drive) (this after : Vfs) (cwd path drive : Bytes)
    (before made : Drive) (full : Bytes)
    → AllValid this.drivers
    → get_from_path this cwd path ≡ ok (drive, before, full)
    → change before full ≡ ok made
    → IsValidDrive made
    → update this drive made ≡ after
    → Changed change this after cwd path
update-Changed change this after cwd path drive before made full a place e v done =
    let leads = place-LeadsTo this cwd path drive before full place in
    rw (← done) (record {
      drive = drive;
      before = before;
      full = full;
      made = made;
      leads = leads;
      changed = e;
      stored = find_drive-set_drive this.drivers drive before made leads.mounted;
      others = λ other ne. set_drive-other this.drivers drive other made ne;
      valid = set_drive-AllValid this.drivers drive made a v;
    })

create_in-IsValid :
    (fs : Drive) (path : Bytes) (made : Drive)
    → IsValidDrive fs
    → create_in fs path ≡ ok made
    → IsValidDrive made
unfolding create_in
create_in-IsValid (ramfs fs) path made v h =
    let (fs', e, same) = >>=-eq-ok (RamFs.create fs path) _ h in
    let is : ramfs fs' ≡ made = cc in rw (← is) (create-IsValid fs path fs' v e)
create_in-IsValid devicefs path made v h = cc
create_in-IsValid procfs path made v h = cc

createdir_in-IsValid :
    (fs : Drive) (path : Bytes) (made : Drive)
    → IsValidDrive fs
    → createdir_in fs path ≡ ok made
    → IsValidDrive made
unfolding createdir_in
createdir_in-IsValid (ramfs fs) path made v h =
    let (fs', e, same) = >>=-eq-ok (RamFs.createdir fs path) _ h in
    let is : ramfs fs' ≡ made = cc in rw (← is) (createdir-IsValid fs path fs' v e)
createdir_in-IsValid devicefs path made v h = cc
createdir_in-IsValid procfs path made v h = cc

-- With valid drives, a successful creation of a file stores, in the drive that bears the name
-- before the colon in the path (in the current directory's path if the path names no drive), the
-- file system that `create` makes of the one mounted there, leaves every other drive as it was, and
-- leaves all drives valid.
pub create-Changed :
    (this after : Vfs) (cwd path : Bytes)
    → AllValid this.drivers
    → create this cwd path ≡ ok after
    → Changed create_in this after cwd path
unfolding create
create-Changed this after cwd path a h =
    let ((drive, fs, full), e, h1) = >>=-eq-ok (get_from_path this cwd path) _ h in
    let (_, _, h2) = >>=-eq-ok (guard (not (ends_with b'/' full)) not_a_file) _ h1 in
    let (made, e3, h3) = >>=-eq-ok (create_in fs full) _ h2 in
    update-Changed create_in this after cwd path drive fs made full a e e3
      (create_in-IsValid fs full made (place-IsValid this cwd path drive fs full a e) e3) cc

-- With valid drives, a successful creation of a directory does the same with `createdir`.
createdir-Changed :
    (this after : Vfs) (cwd path : Bytes)
    → AllValid this.drivers
    → createdir this cwd path ≡ ok after
    → Changed createdir_in this after cwd path
unfolding createdir
createdir-Changed this after cwd path a h =
    let ((drive, fs, full), e, h1) = >>=-eq-ok (get_from_path this cwd path) _ h in
    let (made, e3, h3) = >>=-eq-ok (createdir_in fs full) _ h1 in
    update-Changed createdir_in this after cwd path drive fs made full a e e3
      (createdir_in-IsValid fs full made (place-IsValid this cwd path drive fs full a e) e3) cc

first_part-ne_panic : (parts : List Bytes) → first_part parts ≢ panic
first_part-ne_panic [] = λ e. cc
first_part-ne_panic (p ∷ ps) = λ e. cc

guard-ne_panic : (b : Bool) (e : FsError) → guard b e ≢ panic
guard-ne_panic true e = λ h. cc
guard-ne_panic false e = λ h. cc

place_of-ne_panic : (drive path : Bytes) (found : Option Drive) → place_of drive path found ≢ panic
place_of-ne_panic drive path none = λ e. cc
place_of-ne_panic drive path (some fs) = λ e. cc

checked-ne_panic : (this : Vfs) (path : Bytes) → get_from_path_checked this path ≢ panic
unfolding get_from_path_checked
checked-ne_panic this path =
    >>=-ne_panic (first_part (split path)) _ (first_part-ne_panic (split path)) (λ drive _.
      >>=-ne_panic (guard (ends_with b':' drive) invaild_drive) _ (guard-ne_panic _ _)
        (λ _ _. place_of-ne_panic drive path (get_with_name this drive)))

place-ne_panic : (this : Vfs) (cwd path : Bytes) → get_from_path this cwd path ≢ panic
unfolding get_from_path
place-ne_panic this cwd path =
    >>=-ne_panic (first_part (split path)) _ (first_part-ne_panic (split path))
      (λ drive _. checked-ne_panic this (if not (ends_with b':' drive) then cwd ++ path else path))

open_path-ne_panic : (fs : RamFs) (path : Bytes) → IsValid fs → open_path fs path ≢ panic
unfolding open_path
open_path-ne_panic fs path v =
    >>=-ne_panic (reslove_path (RamFs.tree fs) path) _ (reslove_path-ne_panic fs path v)
      (λ node _ e. cc)

open_in-ne_panic :
    (devices : DeviceManager) (scheduler : Scheduler) (drive : Bytes) (fs : Drive) (path : Bytes)
    → IsValidDrive fs
    → open_in devices scheduler drive fs path ≢ panic
unfolding open_in
open_in-ne_panic devices scheduler drive (ramfs fs) path v =
    >>=-ne_panic (open_path fs path) _ (open_path-ne_panic fs path v) (λ fd _ e. cc)
open_in-ne_panic devices scheduler drive devicefs path v =
    >>=-ne_panic (reslove_path (DeviceFs.tree devices) path) _ (device_path-ne_panic devices path)
      (λ node _ e. cc)
open_in-ne_panic devices scheduler drive procfs path v =
    >>=-ne_panic (reslove_path (ProcFs.tree scheduler) path) _ (proc_path-ne_panic scheduler path)
      (λ node _ e. cc)

-- With valid file systems in memory, opening any path, relative or absolute, on a drive of any of
-- the three kinds, does not panic, whatever devices and processes there are.
pub open_file-ne_panic :
    (devices : DeviceManager) (scheduler : Scheduler) (this : Vfs) (cwd path : Bytes)
    → AllValid this.drivers
    → open_file devices scheduler this cwd path ≢ panic
unfolding open_file
open_file-ne_panic devices scheduler this cwd path a =
    >>=-ne_panic (get_from_path this cwd path) _ (place-ne_panic this cwd path)
      (λ (drive, fs, full) e.
        open_in-ne_panic devices scheduler drive fs full
          (place-IsValid this cwd path drive fs full a e))
