-- ===== src/Memory/Paging/Mapping.antt =====
-- `map_to`, `get_frame` and `unmap` of kernel/src/memory/paging.rs: page tables as a map from pages
-- to frames.
use native.Mathlib.Decide.{ℕ_discrete}
use mathlib.Core.Path.{subst}
use safa_os.Memory.Paging.Fresh.{IsUsed}
use safa_os.Prelude.{
  ℕ, ◌*◌, ◌^◌, ◌≤◌, ◌<◌, ◌≡◌, ◌≢◌, refl, sym, ap, ◌∙◌, inl, inr, Option, some, List, [], length,
  arith, Result, ok, err, ◌⊎◌,
}
use safa_os.Memory.Align.{Indices, translate}
use safa_os.Memory.FrameAllocator.{Frame, RegionAllocator, state_of}
use safa_os.Memory.FrameAllocator.Free.{frame_at, deallocate_frame-toggle}
use safa_os.Memory.Paging.{
  Page, Memory, MapToError, write, new_entry, frame_of, map_through, map_to, get_frame, unmap,
  upper_indices,
}
use safa_os.Memory.Paging.Entries.{IsPresent, frame_of-new_entry}
use safa_os.Memory.Paging.Graph.{reach, reach-leaf, IsTree-same}
use safa_os.Memory.Paging.Step.{
  next_table, leaf, leaf_of_reach, leaf_same, IsValid, IsData, IsUntouched, write_self, write_ne,
  write_frames,
}
use safa_os.Memory.Paging.Levels.{IsExhausted, Mapped, IsUntouched-trans}
use safa_os.Memory.Paging.Walk.{Result-cases, map_through-Mapped, path_of, get_frame-leaf}

-- writing an entry of the table `t` three levels down
module _ (m : Memory) (root : ℕ) (path : List ℕ) (t i entry : ℕ) (valid : IsValid m root)
    (three : length path ≡ 3) (at : reach (next_table m) root path ≡ some t) where
  reach-written :
      (p : List ℕ)
      → length p ≤ 3
      → reach (next_table (write m t i entry)) root p ≡ reach (next_table m) root p
  reach-written p le =
      reach-leaf (next_table m) _ root _ path t valid.tree three at
        (λ s j other. ap mapped (write_ne m t i entry s j (inl other))) p le
    where
      mapped : ℕ → Option ℕ
      mapped = safa_os.Memory.Paging.mapped_to

  IsValid-written : IsValid (write m t i entry) root
  unfolding write
  IsValid-written = record {
    fits = valid.fits;
    tree = IsTree-same (next_table m) _ root _ _ valid.tree reach-written (λ s u. u);
  }

  IsUntouched-written : (x : ℕ) → IsData m root x → IsUntouched m (write m t i entry) root x
  IsUntouched-written x d = record {
    still = record {
      used = subst (λ (r : RegionAllocator). IsUsed r x) (sym (write_frames m t i entry)) d.used;
      apart = λ p le e. d.apart p le (sym (reach-written p le) ∙ e);
    };
    words = λ j.
        write_ne m t i entry x j
          (inl (λ same. d.apart path (omega (arith, three)) (at ∙ ap some (sym same))));
  }

  leaf-written_self : leaf (write m t i entry) root path i ≡ frame_of entry
  leaf-written_self =
      leaf_of_reach (write m t i entry) root path i t
        (reach-written path (omega (arith, three)) ∙ at)
      ∙ ap frame_of (write_self m t i entry)

  leaf-written_ne :
      (p : List ℕ) (j : ℕ)
      → length p ≡ 3
      → (p ≢ path) ⊎ (j ≢ i)
      → leaf (write m t i entry) root p j ≡ leaf m root p j
  leaf-written_ne p j long other =
      leaf_same m (write m t i entry) root root p j (reach-written p (omega (arith, long)))
        (λ s e. write_ne m t i entry s j (apart s e))
    where
      apart : (s : ℕ) → reach (next_table m) root p ≡ some s → (s ≢ t) ⊎ (j ≢ i)
      apart s e = elim other [
        | inr far ↦ inr far
        | inl far ↦ inl (λ same. far (
            valid.tree.unique p path s (omega (arith, long)) (omega (arith, three)) e
              (at ∙ ap some (sym same))))
      ]

module _ (m : Memory) (root : ℕ) (page : Page) (frame : Frame) (flags : ℕ) where
  abbrev out : Memory × Result ℕ MapToError
  out = map_through m root (upper_indices (translate page.start_address)) flags

  map_to-ok_value :
      (t : ℕ)
      → out.1 ≡ ok t
      → map_to m root page frame flags ≡ (
        write out.0 t (translate page.start_address).p1 (new_entry flags frame.start_address),
        ok tt,
      )
  unfolding map_to
  map_to-ok_value t e = rw (map_to, e)

  map_to-err_value :
      (e : MapToError) → out.1 ≡ err e → map_to m root page frame flags ≡ (out.0, err e)
  unfolding map_to
  map_to-err_value e h = rw (map_to, h)

-- different indices differ in the table or in its entry
indices_apart : (a b : Indices) → a ≢ b → (path_of a ≢ path_of b) ⊎ (a.p1 ≢ b.p1)
indices_apart a b h = elim (ℕ_discrete a.p1 b.p1) [
  | no far ↦ inr far
  | yes e1 ↦ inl (λ same. h (same_fields e1 same))
]
  where
    same_fields : a.p1 ≡ b.p1 → path_of a ≡ path_of b → a ≡ b
    same_fields e1 same =
        let e2 : a.p2 ≡ b.p2 = cc in
        let e3 : a.p3 ≡ b.p3 = cc in
        let e4 : a.p4 ≡ b.p4 = cc in
        ap (λ k. record { p1 = k; p2 = a.p2; p3 = a.p3; p4 = a.p4 }) e1
        ∙ ap (λ k. record { p1 = b.p1; p2 = k; p3 = a.p3; p4 = a.p4 }) e2
        ∙ ap (λ k. record { p1 = b.p1; p2 = b.p2; p3 = k; p4 = a.p4 }) e3
        ∙ ap (λ k. record { p1 = b.p1; p2 = b.p2; p3 = b.p3; p4 = k }) e4

module _ (m m' : Memory) (root n flags : ℕ) (page : Page) (valid : IsValid m root)
    (ready : IsPresent flags) where
  walked :
      Mapped m root (path_of (translate page.start_address)) (out m root page (frame_at n) flags)
  unfolding reach
  walked =
      map_through-Mapped root flags ready m [] (upper_indices (translate page.start_address)) root
        valid refl (omega arith)

  -- In valid page tables, with flags that have PRESENT and no bit in the address, and a frame below
  -- 2 ^ 52: when `map_to` succeeds, the tables are valid again, the page leads to the frame, and
  -- every page with other indices leads where it led, and the used pages that are no tables of the
  -- tree stay so and keep their words.
  pub map_to-get_frame :
      n < 2 ^ 40
      → map_to m root page (frame_at n) flags ≡ (m', ok tt)
      → IsValid m' root
        × (get_frame m' root page ≡ some (frame_at n))
        × ((other : Page)
            → translate other.start_address ≢ translate page.start_address
            → get_frame m' root other ≡ get_frame m root other)
        × ((x : ℕ) → IsData m root x → IsUntouched m m' root x)
  map_to-get_frame small h = elim (Result-cases (out m root page (frame_at n) flags).1) [
    | inr (e, failed) ↦
        let clash = sym (map_to-err_value m root page (frame_at n) flags e failed) ∙ h in cc
    | inl (t, e) ↦
        let p = translate page.start_address in
        let at = walked.table t e in
        let valid' = walked.keeps.valid in
        let mid = (out m root page (frame_at n) flags).0 in
        let eq =
          ap (λ (x : Memory × Result {0, 0} Unit MapToError). x.0)
            (sym (map_to-ok_value m root page (frame_at n) flags t e) ∙ h) in
        rw (← eq) (
          IsValid-written mid root (path_of p) t p.p1 _ valid' refl at,
          get_frame-leaf _ root page
              ∙ leaf-written_self mid root (path_of p) t p.p1 _ valid' refl at
              ∙ frame_of-new_entry flags n ready small,
          λ other apart.
              let q = translate other.start_address in
              get_frame-leaf _ root other
              ∙ leaf-written_ne mid root (path_of p) t p.p1 _ valid' refl at (path_of q) q.p1 refl
                  (indices_apart q p apart)
              ∙ walked.keeps.leaves (path_of q) q.p1 refl
              ∙ sym (get_frame-leaf m root other),
          λ x d.
              let kept = walked.keeps.others x d in
              IsUntouched-trans m mid _ root x kept
                (IsUntouched-written mid root (path_of p) t p.p1 _ valid' refl at x kept.still),
        )
  ]

  -- In valid page tables, with the same flags: when `map_to` fails, every frame is used, the tables
  -- are valid again, and every page leads where it led.
  pub map_to-full :
      (e : MapToError)
      → map_to m root page (frame_at n) flags ≡ (m', err e)
      → IsValid m' root
        × IsExhausted m'.frames
        × ((other : Page) → get_frame m' root other ≡ get_frame m root other)
  map_to-full e h = elim (Result-cases (out m root page (frame_at n) flags).1) [
    | inl (t, done) ↦
        let clash = sym (map_to-ok_value m root page (frame_at n) flags t done) ∙ h in cc
    | inr (e', failed) ↦
        let eq =
          ap (λ (x : Memory × Result {0, 0} Unit MapToError). x.0)
            (sym (map_to-err_value m root page (frame_at n) flags e' failed) ∙ h) in
        rw (← eq) (
          walked.keeps.valid,
          walked.full e' failed,
          λ other.
              let q = translate other.start_address in
              get_frame-leaf _ root other
              ∙ walked.keeps.leaves (path_of q) q.p1 refl
              ∙ sym (get_frame-leaf m root other),
        )
  ]

pub get_frame-frames :
    (m : Memory) (frames : RegionAllocator) (root : ℕ) (page : Page)
    → get_frame (record m { frames = frames }) root page ≡ get_frame m root page
unfolding get_frame
get_frame-frames m frames root page = refl

-- Unmapping a page that leads to a used frame succeeds and makes the frame free, and the page still
-- leads to it.
pub unmap-stale :
    (m : Memory) (root n : ℕ) (page : Page)
    → n * 4096 < 2 ^ 64
    → get_frame m root page ≡ some (frame_at n)
    → state_of m.frames n ≡ some 1
    → (m' : Memory) × (unmap m root page ≡ some m')
      × (state_of m'.frames n ≡ some 0)
      × (get_frame m' root page ≡ some (frame_at n))
unfolding unmap
unmap-stale m root n page small mapped used =
    let (frames', freed, state, _) = deallocate_frame-toggle m.frames n 1 small used in
    (
      record m { frames = frames' },
      rw (unmap, mapped, freed),
      state,
      get_frame-frames m frames' root page ∙ mapped,
    )
