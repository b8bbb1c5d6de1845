-- ===== src/Memory/Paging/Step.antt =====
-- `Entry::map` of kernel/src/memory/paging.rs, one level of the walk of `map_to`: the tree of
-- tables and the frames that the pages lead to, before and after.
use native.Mathlib.Decide.{ℕ_discrete}
use mathlib.Core.Path.{subst}
use safa_os.Prelude.{
  ℕ, ◌*◌, ◌^◌, ◌≤◌, ◌≡◌, ◌≢◌, ◌⊎◌, inl, inr, refl, sym, ap, ◌∙◌, Option, some, none, List, ◌∷◌,
  length, arith, Option-cases,
}
use safa_os.Memory.FrameAllocator.{Frame, RegionAllocator}
use safa_os.Memory.Paging.{Memory, write, zeroize, new_entry, frame_of, mapped_to}
use safa_os.Memory.Paging.Entries.{IsPresent, mapped_to-shape, mapped_to-new_entry}
use safa_os.Memory.Paging.Graph.{reach, IsTree, IsTree-same, reach-next_same}
use safa_os.Memory.Paging.Fresh.{IsUsed}

abbrev pub next_table : Memory → ℕ → ℕ → Option ℕ
next_table m t i = mapped_to (m.cells t i)

-- the frame that entry `j` of the table at `path` leads to
abbrev pub leaf : Memory → ℕ → List ℕ → ℕ → Option Frame
leaf m root path j = elim (reach (next_table m) root path) [
  | some t ↦ frame_of (m.cells t j)
  | none ↦ none
]

-- The tables below `root` form a tree of used frames, and every frame has an address of 52 bits.
pub record IsValid (m : Memory) (root : ℕ) : Type 0 where
  pub fits : length m.frames.bitmap * 8 * 4096 ≤ 2 ^ 52
  pub tree : IsTree (next_table m) root (IsUsed m.frames)

-- a used page that is no table below `root`
pub record IsData (m : Memory) (root x : ℕ) : Type 0 where
  pub used : IsUsed m.frames x
  pub apart : (p : List ℕ) → length p ≤ 3 → reach (next_table m) root p ≢ some x

-- a data page stays one, with the same words
pub record IsUntouched (m m' : Memory) (root x : ℕ) : Type 0 where
  pub still : IsData m' root x
  pub words : (j : ℕ) → m'.cells x j ≡ m.cells x j

-- a change that keeps the tree valid, every frame that a page leads to, and the data pages
pub record Keeps (m m' : Memory) (root : ℕ) : Type 0 where
  pub valid : IsValid m' root
  pub others : (x : ℕ) → IsData m root x → IsUntouched m m' root x
  pub leaves : (p : List ℕ) (j : ℕ) → length p ≡ 3 → leaf m' root p j ≡ leaf m root p j

pub leaf_of_reach :
    (m : Memory) (root : ℕ) (p : List ℕ) (j s : ℕ)
    → reach (next_table m) root p ≡ some s
    → leaf m root p j ≡ frame_of (m.cells s j)
leaf_of_reach m root p j s e = rw (leaf, e)

pub leaf-none :
    (m : Memory) (root : ℕ) (p : List ℕ) (j : ℕ)
    → reach (next_table m) root p ≡ none
    → leaf m root p j ≡ none
leaf-none m root p j e = rw (leaf, e)

-- a path leads to the same frame where its table and the entry are the same
pub leaf_same :
    (m m' : Memory) (root root' : ℕ) (p : List ℕ) (j : ℕ)
    → reach (next_table m') root' p ≡ reach (next_table m) root p
    → ((s : ℕ) → reach (next_table m) root p ≡ some s → m'.cells s j ≡ m.cells s j)
    → leaf m' root' p j ≡ leaf m root p j
leaf_same m m' root root' p j same cell = elim (Option-cases (reach (next_table m) root p)) [
  | inl e ↦ leaf-none m' root' p j (same ∙ e) ∙ sym (leaf-none m root p j e)
  | inr (s, e) ↦
      leaf_of_reach m' root' p j s (same ∙ e)
      ∙ ap frame_of (cell s e)
      ∙ sym (leaf_of_reach m root p j s e)
]

pub write_self : (m : Memory) (t i e : ℕ) → (write m t i e).cells t i ≡ e
unfolding write
write_self m t i e = ground arith

pub write_ne :
    (m : Memory) (t i e s j : ℕ) → (s ≢ t) ⊎ (j ≢ i) → (write m t i e).cells s j ≡ m.cells s j
unfolding write
write_ne m t i e s j h = ground (arith, h)

pub write_frames : (m : Memory) (t i e : ℕ) → (write m t i e).frames ≡ m.frames
unfolding write
write_frames m t i e = refl

pub zeroize_self : (m : Memory) (t j : ℕ) → (zeroize m t).cells t j ≡ 0
unfolding zeroize
zeroize_self m t j = ground arith

pub zeroize_ne : (m : Memory) (t s j : ℕ) → s ≢ t → (zeroize m t).cells s j ≡ m.cells s j
unfolding zeroize
zeroize_ne m t s j h = ground (arith, h)

module _ (m : Memory) (root : ℕ) (path : List ℕ) (t i flags : ℕ) (valid : IsValid m root)
    (ready : IsPresent flags) (at : reach (next_table m) root path ≡ some t)
    (short : length path ≤ 2) where
  -- a table three levels down is not the one at `path`
  pub deeper : (p : List ℕ) (s : ℕ) → length p ≡ 3 → reach (next_table m) root p ≡ some s → s ≢ t
  deeper p s three e same =
      let eq =
        valid.tree.unique p path s (omega (arith, three)) (omega (arith, short)) e
          (at ∙ ap some (sym same)) in
      omega (arith, three, short, ap length eq)

  module _ (addr : ℕ) (old : mapped_to (m.cells t i) ≡ some addr) where
    same_next : (s j : ℕ) → next_table (write m t i (new_entry flags addr)) s j ≡ next_table m s j
    same_next s j = elim (ℕ_discrete s t) [
      | no other ↦ ap mapped_to (write_ne m t i _ s j (inl other))
      | yes here ↦ elim (ℕ_discrete j i) [
        | no other ↦ ap mapped_to (write_ne m t i _ s j (inr other))
        | yes here' ↦
            let (n, is, small) = mapped_to-shape (m.cells t i) addr old in
            rw (here, here', write_self, old, is) (mapped_to-new_entry flags n ready small)
      ]
    ]

    same_reach :
        (p : List ℕ)
        → reach (next_table (write m t i (new_entry flags addr))) root p
          ≡ reach (next_table m) root p
    same_reach p = reach-next_same (next_table m) _ root p same_next

    IsValid-rewritten : IsValid (write m t i (new_entry flags addr)) root
    unfolding write
    IsValid-rewritten = record {
      fits = valid.fits;
      tree = IsTree-same (next_table m) _ root _ _ valid.tree (λ p _. same_reach p) (λ s u. u);
    }

    IsUntouched-rewritten :
        (x : ℕ) → IsData m root x → IsUntouched m (write m t i (new_entry flags addr)) root x
    IsUntouched-rewritten x d = record {
      still = record {
        used = subst (λ (r : RegionAllocator). IsUsed r x) (sym (write_frames m t i _)) d.used;
        apart = λ p le e. d.apart p le (sym (same_reach p) ∙ e);
      };
      words = λ j.
          write_ne m t i _ x j
            (inl (λ same. d.apart path (omega (arith, short)) (at ∙ ap some (sym same))));
    }

    pub Keeps-rewritten : Keeps m (write m t i (new_entry flags addr)) root
    Keeps-rewritten = record {
      valid = IsValid-rewritten;
      others = IsUntouched-rewritten;
      leaves = λ p j three.
          leaf_same m (write m t i (new_entry flags addr)) root root p j (same_reach p)
            (λ s e. write_ne m t i _ s j (inl (deeper p s three e)));
    }

    pub reach-rewritten :
        reach (next_table (write m t i (new_entry flags addr))) root (i ∷ path) ≡ some addr
    unfolding reach
    reach-rewritten =
        reach-next_same (next_table m) _ root (i ∷ path) same_next ∙ rw (at, reach) old
