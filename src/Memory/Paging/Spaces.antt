-- ===== src/Memory/Paging/Spaces.antt =====
-- `allocate_pml4` of kernel/src/memory/paging.rs: a new address space with the higher half of the
-- current one.
use mathlib.Core.Path.{subst}
use mathlib.Core.Option.{some-injective}
use safa_os.Prelude.{
  ℕ, ◌*◌, ◌≤◌, ◌<◌, ◌≡◌, ◌≢◌, refl, sym, ap, ◌∙◌, inl, inr, some, none, List, [], ◌∷◌, length,
  arith, Option-cases, Result, ok, err, ◌⊎◌,
}
use safa_os.Memory.Align.{Indices, translate, translate_value}
use safa_os.Memory.FrameAllocator.{Frame, RegionAllocator, allocate_frame}
use safa_os.Memory.Paging.{
  Page, Memory, MapToError, frame_allocation_failed, zeroize, copy_higher_half, mapped_to,
  get_frame, allocate_pml4,
}
use safa_os.Memory.Paging.Entries.{mapped_to-zero}
use safa_os.Memory.Paging.Graph.{reach, IsTree-same, reach-used_same}
use safa_os.Memory.Paging.Fresh.{
  IsUsed, Fresh, allocate_frame-Fresh, used_ne_fresh, used_grows, fresh_used,
}
use safa_os.Memory.Paging.Step.{next_table, leaf-none, leaf_same, IsValid}
use safa_os.Memory.Paging.Levels.{ok-injective}
use safa_os.Memory.Paging.Walk.{path_of, get_frame-leaf}

-- the entry of the root that a path goes through
abbrev top : List ℕ → ℕ
top [] = 0
top (i ∷ []) = i
top (i ∷ j ∷ path) = top (j ∷ path)

abbrev IsHigher : ℕ → Type 0
IsHigher i = (256 ≤ i) × (i < 512)

module _ (m : Memory) (current : ℕ) (valid : IsValid m current) (frames' : RegionAllocator)
    (f : Frame) (fresh : Fresh m.frames frames' f) where
  abbrev this : ℕ
  this = fresh.n * 4096

  abbrev after : Memory
  after = copy_higher_half (zeroize (record m { frames = frames' }) this) this current

  current_ne : current ≢ this
  unfolding reach
  current_ne = used_ne_fresh fresh current (valid.tree.used [] current (omega arith) refl)

  cell_other : (s j : ℕ) → s ≢ this → after.cells s j ≡ m.cells s j
  unfolding copy_higher_half zeroize
  cell_other s j far = ground (arith, far)

  cell_higher : (j : ℕ) → IsHigher j → after.cells this j ≡ m.cells current j
  unfolding copy_higher_half zeroize
  cell_higher j h = ground (arith, h, current_ne)

  cell_lower : (j : ℕ) → (j < 256) ⊎ (512 ≤ j) → after.cells this j ≡ 0
  unfolding copy_higher_half zeroize
  cell_lower j h = ground (arith, h)

  -- the current space leads where it led
  same_current :
      (p : List ℕ)
      → length p ≤ 3
      → reach (next_table after) current p ≡ reach (next_table m) current p
  same_current =
      reach-used_same (next_table m) (next_table after) current (IsUsed m.frames) valid.tree
        (λ s j used. ap mapped_to (cell_other s j (used_ne_fresh fresh s used)))

  -- one more entry of a path that the new space shares, or does not have
  beyond :
      (i : ℕ) (p : List ℕ)
      → length p ≤ 3
      → reach (next_table after) this p ≡ reach (next_table m) current p
      → reach (next_table after) this (i ∷ p) ≡ reach (next_table m) current (i ∷ p)
  unfolding reach
  beyond i p le same = elim (Option-cases (reach (next_table m) current p)) [
    | inl e ↦ rw (same, e, reach)
    | inr (s, e) ↦
        rw (same, e, reach)
          (ap mapped_to (cell_other s i (used_ne_fresh fresh s (valid.tree.used p s le e))))
  ]

  shared :
      (i : ℕ) (p : List ℕ)
      → length p ≤ 2
      → IsHigher (top (i ∷ p))
      → reach (next_table after) this (i ∷ p) ≡ reach (next_table m) current (i ∷ p)
  unfolding reach
  shared i [] le h = ap mapped_to (cell_higher i h)
  shared i (j ∷ p) le h = beyond i (j ∷ p) (omega (arith, le)) (shared j p (omega (arith, le)) h)

  absent :
      (i : ℕ) (p : List ℕ)
      → (top (i ∷ p) < 256) ⊎ (512 ≤ top (i ∷ p))
      → reach (next_table after) this (i ∷ p) ≡ none
  unfolding reach
  absent i [] h = ap mapped_to (cell_lower i h) ∙ mapped_to-zero
  absent i (j ∷ p) h = rw (reach, absent j p h)

  half : (j : ℕ) → IsHigher j ⊎ ((j < 256) ⊎ (512 ≤ j))
  half j = ground arith

  -- a table of the new space other than its root belongs to the current one
  below_new :
      (i : ℕ) (p : List ℕ) (t : ℕ)
      → length p ≤ 2
      → reach (next_table after) this (i ∷ p) ≡ some t
      → reach (next_table m) current (i ∷ p) ≡ some t
  below_new i p t le e = elim (half (top (i ∷ p))) [
    | inl h ↦ sym (shared i p le h) ∙ e
    | inr h ↦ let clash = sym e ∙ absent i p h in cc
  ]

  root_apart :
      (i : ℕ) (p : List ℕ) (t : ℕ)
      → length p ≤ 2
      → this ≡ t
      → reach (next_table after) this (i ∷ p) ≢ some t
  root_apart i p t le same e =
      used_ne_fresh fresh t (valid.tree.used (i ∷ p) t (omega (arith, le)) (below_new i p t le e))
        (sym same)

  unique_new :
      (p q : List ℕ) (t : ℕ)
      → length p ≤ 3
      → length q ≤ 3
      → reach (next_table after) this p ≡ some t
      → reach (next_table after) this q ≡ some t
      → p ≡ q
  unfolding reach
  unique_new [] [] t lp lq ep eq = refl
  unique_new [] (j ∷ q) t lp lq ep eq =
      absurd (root_apart j q t (omega (arith, lq)) (some-injective this t ep) eq)
  unique_new (i ∷ p) [] t lp lq ep eq =
      absurd (root_apart i p t (omega (arith, lp)) (some-injective this t eq) ep)
  unique_new (i ∷ p) (j ∷ q) t lp lq ep eq =
      valid.tree.unique (i ∷ p) (j ∷ q) t lp lq (below_new i p t (omega (arith, lp)) ep)
        (below_new j q t (omega (arith, lq)) eq)

  used_new :
      (p : List ℕ) (t : ℕ)
      → length p ≤ 3
      → reach (next_table after) this p ≡ some t
      → IsUsed frames' t
  unfolding reach
  used_new [] t le e = subst (IsUsed frames') (some-injective this t e) (fresh_used fresh)
  used_new (i ∷ p) t le e =
      used_grows fresh t (valid.tree.used (i ∷ p) t le (below_new i p t (omega (arith, le)) e))

  IsValid-new : IsValid after this
  unfolding copy_higher_half zeroize
  IsValid-new = record {
    fits = omega (arith, valid.fits, fresh.size);
    tree = record { unique = unique_new; used = used_new };
  }

  IsValid-current : IsValid after current
  unfolding copy_higher_half zeroize
  IsValid-current = record {
    fits = omega (arith, valid.fits, fresh.size);
    tree = IsTree-same (next_table m) _ current _ _ valid.tree same_current (used_grows fresh);
  }

  frames_current : (page : Page) → get_frame after current page ≡ get_frame m current page
  frames_current page =
      let t = translate page.start_address in
      get_frame-leaf after current page
      ∙ leaf_same m after current current (path_of t) t.p1 (same_current (path_of t) (omega arith))
          (λ s e.
            cell_other s t.p1
              (used_ne_fresh fresh s (valid.tree.used (path_of t) s (omega arith) e)))
      ∙ sym (get_frame-leaf m current page)

  frames_lower :
      (page : Page) → (translate page.start_address).p4 < 256 → get_frame after this page ≡ none
  frames_lower page low =
      let t = translate page.start_address in
      get_frame-leaf after this page
      ∙ leaf-none after this (path_of t) t.p1 (absent t.p2 (t.p3 ∷ t.p4 ∷ []) (inl low))

  frames_higher :
      (page : Page)
      → 256 ≤ (translate page.start_address).p4
      → get_frame after this page ≡ get_frame m current page
  frames_higher page high =
      let t = translate page.start_address in
      let limit : t.p4 < 512 =
        omega (arith, ap (λ (x : Indices). x.p4) (translate_value page.start_address)) in
      get_frame-leaf after this page
      ∙ leaf_same m after current this (path_of t) t.p1
          (shared t.p2 (t.p3 ∷ t.p4 ∷ []) (omega arith) (high, limit))
          (λ s e.
            cell_other s t.p1
              (used_ne_fresh fresh s (valid.tree.used (path_of t) s (omega arith) e)))
      ∙ sym (get_frame-leaf m current page)

module _ (m : Memory) (current : ℕ) where
  allocate_pml4-full :
      (allocate_frame m.frames).1 ≡ none
      → allocate_pml4 m current
        ≡ (record m { frames = (allocate_frame m.frames).0 }, err frame_allocation_failed)
  unfolding allocate_pml4
  allocate_pml4-full none_left = rw (allocate_pml4, none_left)

  allocate_pml4-new :
      (f : Frame)
      → (allocate_frame m.frames).1 ≡ some f
      → allocate_pml4 m current ≡ (
        copy_higher_half
            (zeroize (record m { frames = (allocate_frame m.frames).0 }) f.start_address)
            f.start_address
            current,
        ok f.start_address,
      )
  unfolding allocate_pml4
  allocate_pml4-new f found = rw (allocate_pml4, found)

-- When `allocate_pml4` succeeds while the tables of the current space are valid, the tables of both
-- spaces are valid, the current one leads where it led, and the new one leads nowhere in the lower
-- half and where the current one leads in the higher half.
pub allocate_pml4-shares :
    (m m' : Memory) (current new : ℕ)
    → IsValid m current
    → allocate_pml4 m current ≡ (m', ok new)
    → IsValid m' current
      × IsValid m' new
      × ((page : Page) → get_frame m' current page ≡ get_frame m current page)
      × ((page : Page) → (translate page.start_address).p4 < 256 → get_frame m' new page ≡ none)
      × ((page : Page)
          → 256 ≤ (translate page.start_address).p4
          → get_frame m' new page ≡ get_frame m current page)
allocate_pml4-shares m m' current new valid h = elim (Option-cases ((allocate_frame m.frames).1)) [
  | inl none_left ↦ let clash = sym (allocate_pml4-full m current none_left) ∙ h in cc
  | inr (f, found) ↦
      let frames' = (allocate_frame m.frames).0 in
      let fresh = allocate_frame-Fresh m.frames f valid.fits found in
      let eq = sym (allocate_pml4-new m current f found) ∙ h in
      let eq_addr : fresh.n * 4096 ≡ new =
        ap (λ (x : Frame). x.start_address) (sym fresh.address)
        ∙ ok-injective f.start_address new
            (ap (λ (x : Memory × Result {0, 0} ℕ MapToError). x.1) eq) in
      let eq_after : after m current valid frames' f fresh ≡ m' =
        ap
          (λ (x : Frame).
            copy_higher_half (zeroize (record m { frames = frames' }) x.start_address)
              x.start_address current)
          (sym fresh.address)
        ∙ ap (λ (x : Memory × Result {0, 0} ℕ MapToError). x.0) eq in
      rw (← eq_after, ← eq_addr)
        (
          IsValid-current m current valid frames' f fresh,
          IsValid-new m current valid frames' f fresh,
          frames_current m current valid frames' f fresh,
          frames_lower m current valid frames' f fresh,
          frames_higher m current valid frames' f fresh,
        )
]
