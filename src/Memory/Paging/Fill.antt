-- ===== src/Memory/Paging/Fill.antt =====
-- New frames for pages, as kernel/src/memory/mod.rs and kernel/src/threading map them: what the new
-- frame was before, and what else changes.
use mathlib.Core.Path.{subst}
use safa_os.Prelude.{
  ℕ, ◌*◌, ◌/◌, ◌≤◌, ◌≡◌, ◌≢◌, refl, sym, ap, ◌∙◌, inl, inr, some, none, Result, ok, err, List,
  length, arith, Option-cases,
}
use safa_os.Memory.Align.{translate}
use safa_os.Memory.FrameAllocator.{Frame, RegionAllocator, allocate_frame, state_of}
use safa_os.Memory.FrameAllocator.Free.{frame_at}
use safa_os.Memory.Paging.{
  Page, Memory, MapToError, frame_allocation_failed, map_to, get_frame, zeroize, mapped_to,
}
use safa_os.Memory.Paging.Entries.{IsPresent}
use safa_os.Memory.Paging.Graph.{reach, IsTree, IsTree-same, reach-used_same}
use safa_os.Memory.Paging.Fresh.{Fresh, allocate_frame-Fresh, used_ne_fresh, used_grows, fresh_used}
use safa_os.Memory.Paging.Step.{next_table, leaf_same, IsValid, IsData, IsUntouched, zeroize_ne}
use safa_os.Memory.Paging.Levels.{ok-injective, IsUntouched-trans}
use safa_os.Memory.Paging.Walk.{Result-cases, path_of, get_frame-leaf}
use safa_os.Memory.Paging.Mapping.{map_to-get_frame, get_frame-frames}
use safa_os.Memory.Paging.Pages.{map_fresh}

-- the tables do not see that a free frame is taken
module _ (m : Memory) (root : ℕ) (valid : IsValid m root) (frames' : RegionAllocator) (f : Frame)
    (fresh : Fresh m.frames frames' f) where
  abbrev taken : Memory
  taken = record m { frames = frames' }

  IsValid-taken : IsValid taken root
  IsValid-taken = record {
    fits = omega (arith, valid.fits, fresh.size);
    tree = IsTree-same (next_table m) _ root _ _ valid.tree (λ p le. refl) (used_grows fresh);
  }

  IsData-taken : IsData taken root (fresh.n * 4096)
  IsData-taken = record {
    used = fresh_used fresh;
    apart = λ p le e. used_ne_fresh fresh (fresh.n * 4096) (valid.tree.used p _ le e) refl;
  }

  IsUntouched-taken : (x : ℕ) → IsData m root x → IsUntouched m taken root x
  IsUntouched-taken x d = record {
    still = record { used = used_grows fresh x d.used; apart = d.apart };
    words = λ j. refl;
  }

-- filling a data page with zeros
module _ (m : Memory) (root x : ℕ) (valid : IsValid m root) (d : IsData m root x) where
  reach-zeroed :
      (p : List ℕ)
      → length p ≤ 3
      → reach (next_table (zeroize m x)) root p ≡ reach (next_table m) root p
  reach-zeroed =
      reach-used_same (next_table m) (next_table (zeroize m x)) root (λ s. s ≢ x) apart_tree
        (λ s j far. ap mapped_to (zeroize_ne m x s j far))
    where
      apart_tree : IsTree (next_table m) root (λ s. s ≢ x)
      apart_tree = record {
        unique = valid.tree.unique;
        used = λ p t le e same. d.apart p le (e ∙ ap some same);
      }

  pub IsValid-zeroed : IsValid (zeroize m x) root
  unfolding zeroize
  IsValid-zeroed = record {
    fits = valid.fits;
    tree = IsTree-same (next_table m) _ root _ _ valid.tree reach-zeroed (λ s u. u);
  }

  pub IsUntouched-zeroed : (y : ℕ) → y ≢ x → IsData m root y → IsUntouched m (zeroize m x) root y
  unfolding zeroize
  IsUntouched-zeroed y far dy = record {
    still = record {
      used = dy.used;
      apart = λ p le e. dy.apart p le (sym (reach-zeroed p le) ∙ e);
    };
    words = λ j. zeroize_ne m x y j far;
  }

  pub get_frame-zeroed : (page : Page) → get_frame (zeroize m x) root page ≡ get_frame m root page
  get_frame-zeroed page =
      let t = translate page.start_address in
      get_frame-leaf (zeroize m x) root page
      ∙ leaf_same m (zeroize m x) root root (path_of t) t.p1
          (reach-zeroed (path_of t) (omega arith))
          (λ s e.
            zeroize_ne m x s t.p1 (λ same. d.apart (path_of t) (omega arith) (e ∙ ap some same)))
      ∙ sym (get_frame-leaf m root page)

-- what a page with a new frame has changed
pub record Filled (m m' : Memory) (root : ℕ) (page : Page) (f : Frame) : Type 0 where
  pub valid : IsValid m' root
  pub there : get_frame m' root page ≡ some f
  pub others :
      (other : Page)
      → translate other.start_address ≢ translate page.start_address
      → get_frame m' root other ≡ get_frame m root other
  pub new : IsData m' root f.start_address
  pub was_free : state_of m.frames (f.start_address / 4096) ≡ some 0
  pub kept : (x : ℕ) → IsData m root x → IsUntouched m m' root x

module _ (m : Memory) (root flags : ℕ) (page : Page) where
  map_fresh-full :
      (allocate_frame m.frames).1 ≡ none
      → map_fresh m root page flags
        ≡ (record m { frames = (allocate_frame m.frames).0 }, err frame_allocation_failed)
  unfolding map_fresh
  map_fresh-full h = rw (map_fresh, h)

  module _ (f : Frame) (found : (allocate_frame m.frames).1 ≡ some f) where
    abbrev mapping : Memory × Result {0, 0} Unit MapToError
    mapping = map_to (record m { frames = (allocate_frame m.frames).0 }) root page f flags

    map_fresh-ok :
        (done : Unit {0}) → mapping.1 ≡ ok done → map_fresh m root page flags ≡ (mapping.0, ok f)
    unfolding map_fresh
    map_fresh-ok done h = rw (map_fresh, found, h)

    map_fresh-err :
        (e : MapToError) → mapping.1 ≡ err e → map_fresh m root page flags ≡ (mapping.0, err e)
    unfolding map_fresh
    map_fresh-err e h = rw (map_fresh, found, h)

pub pair_of : {A B : Type 0} (o : A × B) {a : A} {b : B} → o.0 ≡ a → o.1 ≡ b → o ≡ (a, b)
pair_of o {a} p q = ap (λ x. (x, o.1)) p ∙ ap (λ y. (a, y)) q

module _ (m m' : Memory) (root flags : ℕ) (page : Page) (f : Frame) (valid : IsValid m root)
    (ready : IsPresent flags) where
  filled :
      (frames' : RegionAllocator) (fresh : Fresh m.frames frames' f)
      → map_to (record m { frames = frames' }) root page f flags ≡ (m', ok tt)
      → Filled m m' root page f
  filled frames' fresh h =
      let before = taken m root valid frames' f fresh in
      let h' : map_to before root page (frame_at fresh.n) flags ≡ (m', ok tt) =
        ap (λ x. map_to before root page x flags) (sym fresh.address) ∙ h in
      let (valid', there, others, kept) =
        map_to-get_frame before m' root fresh.n flags page
          (IsValid-taken m root valid frames' f fresh) ready fresh.small h' in
      let addr : f.start_address ≡ fresh.n * 4096 =
        ap (λ (x : Frame). x.start_address) fresh.address in
      record {
        valid = valid';
        there = there ∙ ap some (sym fresh.address);
        others = λ other apart. others other apart ∙ get_frame-frames m frames' root other;
        new =
            subst (IsData m' root) (sym addr)
              (kept _ (IsData-taken m root valid frames' f fresh)).still;
        was_free = ap (state_of m.frames) (omega (arith, addr)) ∙ fresh.was_free;
        kept = λ x d.
            let first = IsUntouched-taken m root valid frames' f fresh x d in
            IsUntouched-trans m before m' root x first (kept x first.still);
      }

  pub map_fresh-Filled : map_fresh m root page flags ≡ (m', ok f) → Filled m m' root page f
  map_fresh-Filled h = elim (Option-cases ((allocate_frame m.frames).1)) [
    | inl none_left ↦ let clash = sym (map_fresh-full m root flags page none_left) ∙ h in cc
    | inr (g, found) ↦ elim (Result-cases (mapping m root flags page g found).1) [
      | inr (e, failed) ↦
          let clash = sym (map_fresh-err m root flags page g found e failed) ∙ h in cc
      | inl (done, worked) ↦
          let eq = sym (map_fresh-ok m root flags page g found done worked) ∙ h in
          let same : g ≡ f =
            ok-injective g f (ap (λ (x : Memory × Result {0, 0} Frame MapToError). x.1) eq) in
          let frames' = (allocate_frame m.frames).0 in
          let fresh = allocate_frame-Fresh m.frames f valid.fits (found ∙ ap some same) in
          filled frames' fresh (
            ap (λ x. map_to (record m { frames = frames' }) root page x flags) (sym same)
            ∙ pair_of (mapping m root flags page g found)
                (ap (λ (x : Memory × Result {0, 0} Frame MapToError). x.0) eq) worked)
    ]
  ]
