-- ===== src/Memory/Paging/Hang.antt =====
-- `Entry::map` of kernel/src/memory/paging.rs on an entry that is not present: a new table.
use mathlib.Core.Option.{some-injective}
use safa_os.Prelude.{
  ℕ, ◌*◌, ◌≤◌, ◌≡◌, ◌≢◌, ◌⊎◌, inl, inr, sym, ap, ◌∙◌, some, none, List, ◌∷◌, length, arith,
}
use safa_os.Memory.FrameAllocator.{Frame, RegionAllocator}
use safa_os.Memory.Paging.{Memory, write, zeroize, new_entry, frame_of, mapped_to}
use safa_os.Memory.Paging.Entries.{IsPresent, mapped_to-new_entry, mapped_to-zero, frame_of-zero}
use safa_os.Memory.Paging.Graph.{reach, Hung, reach-Hung, reach-hung_self, IsTree-Hung}
use safa_os.Memory.Paging.Fresh.{IsUsed, Fresh, used_ne_fresh, used_grows, fresh_used}
use safa_os.Memory.Paging.Step.{
  next_table, leaf, leaf_of_reach, leaf-none, leaf_same, IsValid, IsData, IsUntouched, Keeps,
  write_self, write_ne, zeroize_self, zeroize_ne, deeper,
}

module _ (m : Memory) (root : ℕ) (path : List ℕ) (t i flags : ℕ) (valid : IsValid m root)
    (ready : IsPresent flags) (at : reach (next_table m) root path ≡ some t)
    (short : length path ≤ 2) (frames' : RegionAllocator) (f : Frame)
    (fresh : Fresh m.frames frames' f) (old : mapped_to (m.cells t i) ≡ none) where
  abbrev addr : ℕ
  addr = fresh.n * 4096

  abbrev pub after : Memory
  after = zeroize (write (record m { frames = frames' }) t i (new_entry flags addr)) addr

  not_fresh : (p : List ℕ) (s : ℕ) → length p ≤ 3 → reach (next_table m) root p ≡ some s → s ≢ addr
  not_fresh p s le e = used_ne_fresh fresh s (valid.tree.used p s le e)

  kept_cell : (s j : ℕ) → s ≢ addr → (s ≢ t) ⊎ (j ≢ i) → after.cells s j ≡ m.cells s j
  kept_cell s j far other = zeroize_ne _ addr s j far ∙ write_ne _ t i _ s j other

  hung : Hung (next_table m) (next_table after) t i addr
  hung = record {
    was_free = old;
    hung =
        rw (zeroize_ne _ addr t i (not_fresh path t (omega (arith, short)) at), write_self)
          (mapped_to-new_entry flags fresh.n ready fresh.small);
    empty = λ j. rw zeroize_self mapped_to-zero;
    kept = λ s j far other. ap mapped_to (kept_cell s j far other);
  }

  unreached : reach (next_table m) root (i ∷ path) ≡ none
  unfolding reach
  unreached = rw (at, reach) old

  same_leaf : (p : List ℕ) (j : ℕ) → length p ≡ 3 → leaf after root p j ≡ leaf m root p j
  same_leaf p j three =
      elim (reach-Hung (next_table m) (next_table after) root (IsUsed m.frames) (IsUsed frames')
        path t i addr valid.tree hung at short (used_ne_fresh fresh) p (omega (arith, three))) [
          | inl same ↦ leaf_same m after root root p j same (λ s e.
              kept_cell s j (not_fresh p s (omega (arith, three)) e)
                (inl (deeper m root path t i flags valid ready at short p s three e)))
          | inr (here, e) ↦
              leaf_of_reach after root p j addr e
              ∙ ap frame_of (zeroize_self _ addr j)
              ∙ frame_of-zero
              ∙ sym (leaf-none m root p j (rw here unreached))
        ]

  pub reach-hung_table : reach (next_table after) root (i ∷ path) ≡ some addr
  reach-hung_table =
      reach-hung_self (next_table m) (next_table after) root (IsUsed m.frames) (IsUsed frames') path
        t i addr valid.tree hung at short (used_ne_fresh fresh)

  IsValid-after : IsValid after root
  unfolding zeroize write
  IsValid-after = record {
    fits = omega (arith, valid.fits, fresh.size);
    tree =
        IsTree-Hung (next_table m) _ root _ _ path t i addr valid.tree hung at short
          (used_ne_fresh fresh) (used_grows fresh) (fresh_used fresh);
  }

  untouched : (x : ℕ) → IsData m root x → IsUntouched m after root x
  unfolding zeroize write
  untouched x d =
      let far = used_ne_fresh fresh x d.used in
      record {
        still = record {
          used = used_grows fresh x d.used;
          apart = λ p le e.
              elim (reach-Hung (next_table m) (next_table after) root (IsUsed m.frames)
                (IsUsed frames') path t i addr valid.tree hung at short (used_ne_fresh fresh) p
                le) [
                  | inl same ↦ d.apart p le (sym same ∙ e)
                  | inr (_, there) ↦ far (sym (some-injective addr x (sym there ∙ e)))
                ];
        };
        words = λ j.
            kept_cell x j far
              (inl (λ same. d.apart path (omega (arith, short)) (at ∙ ap some (sym same))));
      }

  pub Keeps-hung : Keeps m after root
  Keeps-hung = record { valid = IsValid-after; others = untouched; leaves = same_leaf }
