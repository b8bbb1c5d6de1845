-- ===== src/Memory/Buddy/Dealloc.antt =====
-- `deallocmut` of kernel/src/memory/buddy_allocator.rs on a block of the heap.
use safa_os.Prelude.{
  ℕ, ◌+◌, ◌≤◌, ◌≡◌, refl, ap, ◌∙◌, Bool, true, false, if◌then◌else◌, some, List, [], ◌∷◌, ◌++◌,
  length-append, arith,
}
use safa_os.Prelude.Words.{sub_usize}
use safa_os.Memory.Buddy.{
  Block, BuddyAllocator, set_header, coalescence_buddies_full, set_free, data_of, size_of_block,
  deallocmut,
}
use safa_os.Memory.Buddy.Chain.{Chain, allocated, HasNoPairs, Chain-length, Chain-set_header}
use safa_os.Memory.Buddy.Coalesce.{set_header_self, set_header_below}
use safa_os.Memory.Buddy.Full.{IsHeap, coalescence_buddies_full-MergedFully}

-- the address behind some blocks
abbrev pub end_of : ℕ → List Block → ℕ
end_of a [] = a
end_of a (b ∷ blocks) = end_of (a + b.size) blocks

if-append :
    {A : Type 0} (t : Bool) (x : A) (xs ys : List A)
    → (if t then (xs ++ ys) else (x ∷ (xs ++ ys))) ≡ (if t then xs else (x ∷ xs)) ++ ys
if-append true x xs ys = refl
if-append false x xs ys = refl

pub allocated-append :
    (a : ℕ) (pre post : List Block)
    → allocated a (pre ++ post) ≡ allocated a pre ++ allocated (end_of a pre) post
allocated-append a [] post = refl
allocated-append a (b ∷ pre) post =
    rw (allocated-append (a + b.size) pre post)
      (if-append b.free (a, b.size) (allocated (a + b.size) pre) _)

module _ (headers : ℕ → Block) (heap_end : ℕ) where
  pub below_end_of :
      (a : ℕ) (pre post : List Block)
      → Chain headers heap_end a (pre ++ post)
      → (a ≤ end_of a pre) × Chain headers heap_end (end_of a pre) post
  below_end_of a [] post chain = (omega arith, chain)
  below_end_of a (b ∷ pre) post (_, pos, chain) =
      let (le, rest) = below_end_of (a + b.size) pre post chain in (omega (arith, le), rest)

  Chain-changed :
      (a : ℕ) (pre : List Block) (b b' : Block) (post : List Block)
      → b'.size ≡ b.size
      → Chain headers heap_end a (pre ++ b ∷ post)
      → Chain (set_header headers (end_of a pre) b') heap_end a (pre ++ b' ∷ post)
  Chain-changed a [] b b' post same (here, pos, chain) = (
    set_header_self headers a b',
    omega (arith, same, pos),
    rw same (Chain-set_header heap_end headers a b' (a + b.size) post (omega (arith, pos)) chain),
  )
  Chain-changed a (c ∷ pre) b b' post same (here, pos, chain) =
      let (le, _) = below_end_of (a + c.size) pre (b ∷ post) chain in
      (
        set_header_below headers (end_of (a + c.size) pre) a b' (omega (arith, pos, le)) ∙ here,
        pos,
        Chain-changed (a + c.size) pre b b' post same chain,
      )

-- Freeing a block in use, in a heap that is a chain of blocks, does not panic and its loop ends;
-- the heap is a chain of blocks again, of which no two neighbours are free and of one size, and the
-- blocks in use are the others from before, where they were.
pub deallocmut-frees :
    (this : BuddyAllocator) (pre post : List Block) (b : Block)
    → IsHeap this (pre ++ b ∷ post)
    → b.free ≡ false
    → let p = end_of this.head pre in
      (this' : BuddyAllocator) × (left : List Block) × (deallocmut this (data_of p) ≡ some this')
      × IsHeap this' left
      × HasNoPairs left
      × (allocated this.head (pre ++ b ∷ post)
          ≡ allocated this.head pre ++ (p, b.size) ∷ allocated (p + b.size) post)
      × (allocated this'.head left ≡ allocated this.head pre ++ allocated (p + b.size) post)
unfolding deallocmut
deallocmut-frees this pre post b heap used =
    let p = end_of this.head pre in
    let (le, (here, pos, rest)) =
      below_end_of this.headers this.heap_end this.head pre (b ∷ post) heap.chain in
    let room = Chain-length this.heap_end this.headers (p + b.size) post rest in
    let block : sub_usize (data_of p) size_of_block ≡ p = omega (arith, pos, room, heap.small) in
    let freed : Block = record b { free = true } in
    let heap' : IsHeap (set_free this p true) (pre ++ freed ∷ post) = record {
      small = heap.small;
      some_block = omega (arith, length-append pre (freed ∷ post));
      chain =
          rw here
            (Chain-changed this.headers this.heap_end this.head pre b freed post refl heap.chain);
    } in
    let full =
      coalescence_buddies_full-MergedFully (set_free this p true) (pre ++ freed ∷ post) heap' in
    (
      full.this',
      full.left,
      ap (λ x. coalescence_buddies_full (set_free this x true)) block ∙ full.value,
      full.heap,
      full.no_pairs,
      allocated-append this.head pre (b ∷ post) ∙ rw used,
      full.same_use ∙ allocated-append this.head pre (freed ∷ post),
    )
