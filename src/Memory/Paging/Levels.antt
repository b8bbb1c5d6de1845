-- ===== src/Memory/Paging/Levels.antt =====
-- The levels of `map_to` of kernel/src/memory/paging.rs, on each outcome of `Entry::map`.
use safa_os.Prelude.{
  ℕ, ◌*◌, ◌≤◌, ◌<◌, ◌≡◌, refl, ap, ◌∙◌, inl, inr, some, none, List, ◌∷◌, length, Option-cases,
  Result, ok, err,
}
use safa_os.Memory.FrameAllocator.{Frame, RegionAllocator, allocate_frame, state_of}
use safa_os.Memory.FrameAllocator.Alloc.{allocate_frame-none}
use safa_os.Memory.Paging.{
  Memory, MapToError, frame_allocation_failed, write, zeroize, new_entry, mapped_to, map_entry,
}
use safa_os.Memory.Paging.Entries.{IsPresent}
use safa_os.Memory.Paging.Graph.{reach}
use safa_os.Memory.Paging.Fresh.{allocate_frame-Fresh}
use safa_os.Memory.Paging.Step.{
  next_table, IsValid, IsData, IsUntouched, Keeps, Keeps-rewritten, reach-rewritten,
}
use safa_os.Memory.Paging.Hang.{after, reach-hung_table, Keeps-hung}

-- every frame of the bitmap is used
abbrev pub IsExhausted : RegionAllocator → Type 0
IsExhausted frames = (n : ℕ) → n < length frames.bitmap * 8 → state_of frames n ≡ some 1

-- what a part of the walk has done: the table it goes on with, or no frame is left
pub record Mapped (m : Memory) (root : ℕ) (path : List ℕ) (out : Memory × Result ℕ MapToError)
    : Type 0 where
  pub keeps : Keeps m (out.0) root
  pub table : (t : ℕ) → out.1 ≡ ok t → reach (next_table (out.0)) root path ≡ some t
  pub full : (e : MapToError) → out.1 ≡ err e → IsExhausted (out.0).frames

IsUntouched-refl : (m : Memory) (root x : ℕ) → IsData m root x → IsUntouched m m root x
IsUntouched-refl m root x d = record { still = d; words = λ j. refl }

pub IsUntouched-trans :
    (m m' m'' : Memory) (root x : ℕ)
    → IsUntouched m m' root x
    → IsUntouched m' m'' root x
    → IsUntouched m m'' root x
IsUntouched-trans m m' m'' root x a b = record {
  still = b.still;
  words = λ j. b.words j ∙ a.words j;
}

pub Keeps-refl : (m : Memory) (root : ℕ) → IsValid m root → Keeps m m root
Keeps-refl m root valid = record {
  valid = valid;
  others = λ x d. IsUntouched-refl m root x d;
  leaves = λ p j three. refl;
}

pub Keeps-trans :
    (m m' m'' : Memory) (root : ℕ) → Keeps m m' root → Keeps m' m'' root → Keeps m m'' root
Keeps-trans m m' m'' root a b = record {
  valid = b.valid;
  others =
      λ x d. IsUntouched-trans m m' m'' root x (a.others x d) (b.others x ((a.others x d).still));
  leaves = λ p j three. b.leaves p j three ∙ a.leaves p j three;
}

pub ok-injective : {A : Type 0} {E : Type 0} (a b : A) → ◌≡◌ {A = Result A E} (ok a) (ok b) → a ≡ b
ok-injective a b e = cc

module _ (m : Memory) (t i flags : ℕ) where
  map_entry-old :
      (addr : ℕ)
      → mapped_to (m.cells t i) ≡ some addr
      → map_entry m t i flags ≡ (write m t i (new_entry flags addr), ok addr)
  unfolding map_entry
  map_entry-old addr old = rw (old, map_entry)

  map_entry-full :
      mapped_to (m.cells t i) ≡ none
      → (allocate_frame m.frames).1 ≡ none
      → map_entry m t i flags
        ≡ (record m { frames = (allocate_frame m.frames).0 }, err frame_allocation_failed)
  unfolding map_entry
  map_entry-full old full = rw (old, full, map_entry)

  map_entry-new :
      (f : Frame)
      → mapped_to (m.cells t i) ≡ none
      → (allocate_frame m.frames).1 ≡ some f
      → map_entry m t i flags ≡ (
        zeroize
            (write
              (record m { frames = (allocate_frame m.frames).0 })
              t
              i
              (new_entry flags f.start_address))
            f.start_address,
        ok f.start_address,
      )
  unfolding map_entry
  map_entry-new f old found = rw (old, found, map_entry)

module _ (m : Memory) (root : ℕ) (path : List ℕ) (t i flags : ℕ) (valid : IsValid m root)
    (ready : IsPresent flags) (at : reach (next_table m) root path ≡ some t)
    (short : length path ≤ 2) where
  Mapped-old :
      (addr : ℕ)
      → mapped_to (m.cells t i) ≡ some addr
      → Mapped m root (i ∷ path) (write m t i (new_entry flags addr), ok addr)
  Mapped-old addr old = record {
    keeps = Keeps-rewritten m root path t i flags valid ready at short addr old;
    table = λ s e.
        reach-rewritten m root path t i flags valid ready at short addr old
        ∙ ap some (ok-injective addr s e);
    full = λ e no. cc;
  }

  Mapped-full :
      (allocate_frame m.frames).1 ≡ none
      → Mapped m root
          (i ∷ path)
          (record m { frames = (allocate_frame m.frames).0 }, err frame_allocation_failed)
  Mapped-full none_left =
      let (same, full) = allocate_frame-none m.frames none_left in
      rw same (record { keeps = Keeps-refl m root valid; table = λ s e. cc; full = λ e _. full })

  Mapped-new :
      (f : Frame)
      → mapped_to (m.cells t i) ≡ none
      → (allocate_frame m.frames).1 ≡ some f
      → Mapped m root (i ∷ path) (
        zeroize
            (write
              (record m { frames = (allocate_frame m.frames).0 })
              t
              i
              (new_entry flags f.start_address))
            f.start_address,
        ok f.start_address,
      )
  Mapped-new f old found =
      let frames' = (allocate_frame m.frames).0 in
      let fresh = allocate_frame-Fresh m.frames f valid.fits found in
      let hung : Mapped m root (i ∷ path) (
        after m root path t i flags valid ready at short frames' f fresh old,
        ok (fresh.n * 4096),
      ) =
        record {
          keeps = Keeps-hung m root path t i flags valid ready at short frames' f fresh old;
          table = λ s e.
              reach-hung_table m root path t i flags valid ready at short frames' f fresh old
              ∙ ap some (ok-injective (fresh.n * 4096) s e);
          full = λ e no. cc;
        } in
      rw fresh.address hung

  pub map_entry-Mapped : Mapped m root (i ∷ path) (map_entry m t i flags)
  map_entry-Mapped = elim (Option-cases (mapped_to (m.cells t i))) [
    | inr (addr, old) ↦ rw (map_entry-old m t i flags addr old) (Mapped-old addr old)
    | inl old ↦ elim (Option-cases ((allocate_frame m.frames).1)) [
      | inl none_left ↦ rw (map_entry-full m t i flags old none_left) (Mapped-full none_left)
      | inr (f, found) ↦ rw (map_entry-new m t i flags f old found) (Mapped-new f old found)
    ]
  ]
