-- ===== src/Memory/Buddy/Full.antt =====
-- `coalescence_buddies_full` and `deallocmut` of kernel/src/memory/buddy_allocator.rs.
use mathlib.Core.Path.{subst}
use safa_os.Prelude.{
  ℕ, zero, suc, ◌+◌, ◌-◌, ◌^◌, ◌<◌, ◌≡◌, ◌⊎◌, inl, inr, refl, sym, ◌∙◌, Bool, true, false, Option,
  some, List, [], ◌∷◌, length, arith,
}
use safa_os.Memory.Buddy.{
  Block, BuddyAllocator, coalescence_buddies, coalesce_while, coalescence_buddies_full,
}
use safa_os.Memory.Buddy.Chain.{Chain, allocated, HasNoPairs, Chain-length}
use safa_os.Memory.Buddy.Coalesce.{coalesce-Passed}

-- The heap is a chain of blocks from its head to its end, which fits a word.
pub record IsHeap (this : BuddyAllocator) (blocks : List Block) : Type 0 where
  pub small : this.heap_end < 2 ^ 64
  pub some_block : 0 < length blocks
  pub chain : Chain this.headers this.heap_end this.head blocks

-- a heap with the same blocks in use, with less free ones or without pairs to merge
pub record Merged (this : BuddyAllocator) (blocks : List Block) (this' : BuddyAllocator)
    (again : Bool) : Type 0 where
  pub left : List Block
  pub heap : IsHeap this' left
  pub same_head : this'.head ≡ this.head
  pub same_use : allocated this'.head left ≡ allocated this.head blocks
  pub outcome :
      ((again ≡ true) × (length left < length blocks)) ⊎ ((again ≡ false) × HasNoPairs left)

not_empty :
    (headers : ℕ → Block) (heap_end a : ℕ) (left : List Block)
    → Chain headers heap_end a left
    → a < heap_end
    → 0 < length left
not_empty headers heap_end a [] chain lt = absurd (omega (arith, chain, lt))
not_empty headers heap_end a (b ∷ left) chain lt = omega arith

coalescence_buddies-Merged :
    (this : BuddyAllocator) (blocks : List Block)
    → IsHeap this blocks
    → Merged this blocks (coalescence_buddies this).0 (coalescence_buddies this).1
unfolding coalescence_buddies
coalescence_buddies-Merged this [] heap = absurd (omega (arith, heap.some_block))
coalescence_buddies-Merged this (b ∷ blocks) heap =
    let size = Chain-length this.heap_end this.headers this.head (b ∷ blocks) heap.chain in
    let pass =
      coalesce-Passed this.heap_end heap.small (this.heap_end - this.head) this.headers this.head b
        blocks false heap.chain (omega (arith, size)) in
    record {
      left = pass.left;
      heap = record {
        small = heap.small;
        some_block = not_empty _ this.heap_end this.head pass.left pass.chain (omega (arith, size));
        chain = pass.chain;
      };
      same_head = refl;
      same_use = pass.same_use;
      outcome = elim pass.outcome [
        | inl yes_merged ↦ inl yes_merged
        | inr (kept, same, no_pairs) ↦ inr (kept, subst HasNoPairs (sym same) no_pairs)
      ];
    }

module _ (fuel : ℕ) (this : BuddyAllocator) where
  while-more :
      (coalescence_buddies this).1 ≡ true
      → coalesce_while (suc fuel) this ≡ coalesce_while fuel (coalescence_buddies this).0
  unfolding coalesce_while
  while-more h = rw (coalesce_while, h)

  while-done :
      (coalescence_buddies this).1 ≡ false
      → coalesce_while (suc fuel) this ≡ some (coalescence_buddies this).0
  unfolding coalesce_while
  while-done h = rw (coalesce_while, h)

-- what full passes come to
pub record MergedFully (this : BuddyAllocator) (blocks : List Block) (out : Option BuddyAllocator)
    : Type 0 where
  pub this' : BuddyAllocator
  pub left : List Block
  pub value : out ≡ some this'
  pub heap : IsHeap this' left
  pub same_head : this'.head ≡ this.head
  pub same_use : allocated this'.head left ≡ allocated this.head blocks
  pub no_pairs : HasNoPairs left

coalesce_while-MergedFully :
    (fuel : ℕ) (this : BuddyAllocator) (blocks : List Block)
    → IsHeap this blocks
    → length blocks < fuel
    → MergedFully this blocks (coalesce_while fuel this)
coalesce_while-MergedFully zero this blocks heap le = absurd (omega (arith, le))
coalesce_while-MergedFully (suc fuel) this blocks heap le =
    let pass = coalescence_buddies-Merged this blocks heap in
    elim pass.outcome [
      | inr (stop, no_pairs) ↦ record {
        this' = (coalescence_buddies this).0;
        left = pass.left;
        value = while-done fuel this stop;
        heap = pass.heap;
        same_head = pass.same_head;
        same_use = pass.same_use;
        no_pairs = no_pairs;
      }
      | inl (more, shorter) ↦
          let rest =
            coalesce_while-MergedFully fuel (coalescence_buddies this).0 pass.left pass.heap
              (omega (arith, le, shorter)) in
          record {
            this' = rest.this';
            left = rest.left;
            value = while-more fuel this more ∙ rest.value;
            heap = rest.heap;
            same_head = rest.same_head ∙ pass.same_head;
            same_use = rest.same_use ∙ pass.same_use;
            no_pairs = rest.no_pairs;
          }
    ]

pub coalescence_buddies_full-MergedFully :
    (this : BuddyAllocator) (blocks : List Block)
    → IsHeap this blocks
    → MergedFully this blocks (coalescence_buddies_full this)
unfolding coalescence_buddies_full
coalescence_buddies_full-MergedFully this blocks heap =
    let size = Chain-length this.heap_end this.headers this.head blocks heap.chain in
    coalesce_while-MergedFully (this.heap_end - this.head + 1) this blocks heap
      (omega (arith, size))
