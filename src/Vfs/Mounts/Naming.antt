-- ===== src/Vfs/Mounts/Naming.antt =====
-- Mounting in `VFS` of kernel/src/drivers/vfs/mod.rs, and the names that drives are found by.
use safa_os.Prelude.{
  ℕ, zero, suc, ◌≡◌, ◌≢◌, refl, sym, ap, ◌∙◌, ◌==◌, Bool, true, false, not, if◌then◌else◌, Option,
  none, some, List, [], ◌∷◌, ◌++◌, arith, inl, inr, Bool-cases, Option-cases, Result,
}
use safa_os.Prelude
use safa_os.Vfs.Types.{Bytes, same_bytes, same_bytes_iff}
use safa_os.Vfs.Mounts.{
  Drive, Vfs, find_drive, mount, ends_with, drop_last, drive_name, get_with_name,
}

ends_with-append : (c : ℕ) (name : Bytes) → ends_with c (name ++ c ∷ []) ≡ true
unfolding ends_with
ends_with-append c [] = ground arith
ends_with-append c (a ∷ []) = ground arith
ends_with-append c (a ∷ b ∷ name) = ends_with-append c (b ∷ name)

drop_last-append : (c : ℕ) (name : Bytes) → drop_last (name ++ c ∷ []) ≡ name
drop_last-append c [] = refl
drop_last-append c (a ∷ []) = refl
drop_last-append c (a ∷ b ∷ name) = ap (λ l. a ∷ l) (drop_last-append c (b ∷ name))

drive_name-colon : (name : Bytes) → drive_name (name ++ b':' ∷ []) ≡ name
unfolding drive_name
drive_name-colon name = rw (ends_with-append b':' name) (drop_last-append b':' name)

module _ (n : Bytes) (fs : Drive) (drives : List (Bytes × Drive)) (name : Bytes) where
  find_drive-hit : n ≡ name → find_drive ((n, fs) ∷ drives) name ≡ some fs
  unfolding find_drive
  find_drive-hit e = ground (arith, (same_bytes_iff n name).1 e)

  find_drive-miss : n ≢ name → find_drive ((n, fs) ∷ drives) name ≡ find_drive drives name
  unfolding find_drive
  find_drive-miss ne = elim (Bool-cases (same_bytes n name)) [
    | inl same ↦ absurd (ne ((same_bytes_iff n name).0 same))
    | inr other ↦ ground (arith, other)
  ]

mount-taken :
    (this : Vfs) (name : Bytes) (value old : Drive)
    → find_drive this.drivers name ≡ some old
    → mount this name value ≡ Prelude.err tt
unfolding mount
mount-taken this name value old e = rw (e, mount) refl

mount-vacant :
    (this after : Vfs) (name : Bytes) (value : Drive)
    → mount this name value ≡ Prelude.ok after
    → record { drivers = (name, value) ∷ this.drivers } ≡ after
unfolding mount
mount-vacant this after name value h = elim (Option-cases (find_drive this.drivers name)) [
  | inl free ↦ cc (rw (free, mount) at h)
  | inr (old, e) ↦ cc (rw (e, mount) at h)
]

-- Behind the colon of its name, a drive that was mounted is found with its file system, and every
-- other drive as before; a name that is taken cannot be mounted again.
mount-get_with_name :
    (this after : Vfs) (name : Bytes) (value again : Drive)
    → mount this name value ≡ Prelude.ok after
    → (get_with_name after (name ++ b':' ∷ []) ≡ some value)
      × ((other : Bytes)
          → other ≢ name
          → find_drive after.drivers other ≡ find_drive this.drivers other)
      × (mount after name again ≡ Prelude.err tt)
unfolding get_with_name
mount-get_with_name this after name value again h =
    let e = mount-vacant this after name value h in
    let found = find_drive-hit name value this.drivers name refl in
    rw (← e) (
      ap (find_drive ((name, value) ∷ this.drivers)) (drive_name-colon name) ∙ found,
      λ other ne. find_drive-miss name value this.drivers other (λ q. ne (sym q)),
      mount-taken (record { drivers = (name, value) ∷ this.drivers }) name again value found,
    )
