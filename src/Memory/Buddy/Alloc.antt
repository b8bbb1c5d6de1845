-- ===== src/Memory/Buddy/Alloc.antt =====
-- `find_free_block` of kernel/src/memory/buddy_allocator.rs on a heap of two blocks or more, whose
-- sizes are powers of two.
use mathlib.Core.Path.{subst}
use safa_os.Prelude.{
  ℕ, ◌+◌, ◌-◌, ◌≤◌, ◌<◌, ◌≡◌, ◌⊎◌, inl, inr, sym, ap, ◌∙◌, true, Option, none, some, List, [], ◌∷◌,
  ◌++◌, length-append, arith, Option-cases,
}
use safa_os.Memory.Buddy.{
  Block, BuddyAllocator, next, find_best, spilt_block, spilt_to_fit, find_free_block,
}
use safa_os.Memory.Buddy.Chain.{Chain, allocated, Chain-length, next-more}
use safa_os.Memory.Buddy.Full.{IsHeap}
use safa_os.Memory.Buddy.Dealloc.{end_of, allocated-append, below_end_of}
use safa_os.Memory.Buddy.Split.{AllPowers, Split, spilt_block-Split}
use safa_os.Memory.Buddy.Find.{Fits, NoneFits, find_best-Searched}

-- the blocks up to an address stay, and others follow
Chain-follow :
    (headers headers' : ℕ → Block) (heap_end a : ℕ) (pre post post' : List Block)
    → Chain headers heap_end a (pre ++ post)
    → ((y : ℕ) → y < end_of a pre → headers' y ≡ headers y)
    → Chain headers' heap_end (end_of a pre) post'
    → Chain headers' heap_end a (pre ++ post')
Chain-follow headers headers' heap_end a [] post post' chain same behind = behind
Chain-follow headers headers' heap_end a (b ∷ pre) post post' (here, pos, chain) same behind =
    let (le, _) = below_end_of headers heap_end (a + b.size) pre post chain in
    (
      same a (omega (arith, le, pos)) ∙ here,
      pos,
      Chain-follow headers headers' heap_end (a + b.size) pre post post' chain same behind,
    )

AllPowers-behind : (pre post : List Block) → AllPowers (pre ++ post) → AllPowers post
AllPowers-behind [] post h = h
AllPowers-behind (b ∷ pre) post (_, h) = AllPowers-behind pre post h

AllPowers-follow :
    (pre post post' : List Block)
    → AllPowers (pre ++ post)
    → AllPowers post'
    → AllPowers (pre ++ post')
AllPowers-follow [] post post' h h' = h'
AllPowers-follow (b ∷ pre) post post' (power, h) h' = (power, AllPowers-follow pre post post' h h')

-- `spilt_to_fit` changes headers and the tail only
module _ (this : BuddyAllocator) (block size : ℕ) where
  spilt_to_fit-headers :
      (spilt_to_fit this block size).0.headers ≡ (spilt_block 64 this.headers block size none).0
  unfolding spilt_to_fit
  spilt_to_fit-headers = elim (Option-cases (spilt_block 64 this.headers block size none).1) [
    | inl e ↦ rw (spilt_to_fit, e)
    | inr (used, e) ↦ rw (spilt_to_fit, e)
  ]

  spilt_to_fit-head : (spilt_to_fit this block size).0.head ≡ this.head
  unfolding spilt_to_fit
  spilt_to_fit-head = elim (Option-cases (spilt_block 64 this.headers block size none).1) [
    | inl e ↦ rw (spilt_to_fit, e)
    | inr (used, e) ↦ rw (spilt_to_fit, e)
  ]

  spilt_to_fit-heap_end : (spilt_to_fit this block size).0.heap_end ≡ this.heap_end
  unfolding spilt_to_fit
  spilt_to_fit-heap_end = elim (Option-cases (spilt_block 64 this.headers block size none).1) [
    | inl e ↦ rw (spilt_to_fit, e)
    | inr (used, e) ↦ rw (spilt_to_fit, e)
  ]

module _ (this : BuddyAllocator) (size buddy : ℕ)
    (more : next this.heap_end this.headers this.head ≡ some buddy) where
  abbrev searched : Option ℕ
  searched =
      find_best (this.heap_end - this.head) this.heap_end this.headers size this.head buddy none

  find_free_block-none : searched ≡ none → find_free_block this size ≡ (this, none)
  unfolding find_free_block
  find_free_block-none h = rw (find_free_block, more, h)

  find_free_block-some :
      (x : ℕ)
      → searched ≡ some x
      → find_free_block this size ≡ ((spilt_to_fit this x size).0, some x)
  unfolding find_free_block
  find_free_block-some x h = rw (find_free_block, more, h)

-- the heap with a free block taken out of one that has room
pub record Taken (this : BuddyAllocator) (blocks : List Block) (size x : ℕ) (this' : BuddyAllocator)
    : Type 0 where
  pub pre : List Block
  pub block : Block
  pub post : List Block
  pub heap : IsHeap this' (pre ++ block ∷ post)
  pub powers : AllPowers (pre ++ block ∷ post)
  pub same_head : this'.head ≡ this.head
  pub at : x ≡ end_of this'.head pre
  pub free : block.free ≡ true
  pub room : size ≤ block.size
  pub same_use : allocated this'.head (pre ++ block ∷ post) ≡ allocated this.head blocks

allocated-free :
    (a : ℕ) (b : Block) (blocks : List Block)
    → b.free ≡ true
    → allocated a (b ∷ blocks) ≡ allocated (a + b.size) blocks
allocated-free a b blocks free = rw free

module _ (this : BuddyAllocator) (size : ℕ) (pre : List Block) (b : Block) (post : List Block)
    (heap : IsHeap this (pre ++ b ∷ post)) (powers : AllPowers (pre ++ b ∷ post))
    (free : b.free ≡ true) (room : size ≤ b.size) where
  abbrev place : ℕ
  place = end_of this.head pre

  place-Split :
      Split this.heap_end this.headers place b post size
        (spilt_block 64 this.headers place size none).0
  place-Split =
      spilt_block-Split this.heap_end heap.small 64 this.headers place b post size none
        (below_end_of this.headers this.heap_end this.head pre (b ∷ post) heap.chain).1 free room
        (AllPowers-behind pre (b ∷ post) powers)

  Taken-split : Taken this (pre ++ b ∷ post) size place (spilt_to_fit this place size).0
  Taken-split =
      let s = place-Split in
      let head = spilt_to_fit-head this place size in
      let after : Chain (spilt_block 64 this.headers place size none).0 this.heap_end this.head
          (pre ++ s.first ∷ s.behind) =
        Chain-follow this.headers _ this.heap_end this.head pre (b ∷ post) (s.first ∷ s.behind)
          heap.chain s.below s.chain in
      record {
        pre = pre;
        block = s.first;
        post = s.behind;
        heap = record {
          small = rw spilt_to_fit-heap_end heap.small;
          some_block = omega (arith, length-append pre (s.first ∷ s.behind));
          chain = rw (spilt_to_fit-headers, spilt_to_fit-heap_end, spilt_to_fit-head) after;
        };
        powers = AllPowers-follow pre (b ∷ post) (s.first ∷ s.behind) powers s.powers;
        same_head = head;
        at = ap (λ a. end_of a pre) (sym head);
        free = s.free;
        room = s.enough;
        same_use =
            ap (λ a. allocated a (pre ++ s.first ∷ s.behind)) head
            ∙ allocated-append this.head pre (s.first ∷ s.behind)
            ∙ ap (λ l. allocated this.head pre ++ l)
                (allocated-free place s.first s.behind s.free
                  ∙ s.same_use
                  ∙ sym (allocated-free place b post free))
            ∙ sym (allocated-append this.head pre (b ∷ post));
      }

spilt_to_fit-Taken :
    (this : BuddyAllocator) (blocks : List Block) (size x : ℕ)
    → IsHeap this blocks
    → AllPowers blocks
    → Fits size this.head blocks x
    → Taken this blocks size x (spilt_to_fit this x size).0
spilt_to_fit-Taken this blocks size x heap powers f =
    let taken =
      Taken-split this size f.pre f.block f.post (subst (IsHeap this) f.split heap)
        (subst AllPowers f.split powers) f.free f.room in
    rw (f.at, f.split) taken

-- In a heap of two blocks or more whose sizes are powers of two, either no block is free and has
-- room, and `find_free_block` returns nothing and changes nothing, or it returns the address of a
-- block that is free and has room, in a heap that is a chain of such blocks again, with the same
-- blocks in use as before.
pub find_free_block-takes :
    (this : BuddyAllocator) (b c : Block) (blocks : List Block) (size : ℕ)
    → IsHeap this (b ∷ c ∷ blocks)
    → AllPowers (b ∷ c ∷ blocks)
    → ((find_free_block this size ≡ (this, none)) × NoneFits size (b ∷ c ∷ blocks))
      ⊎ ((x : ℕ) × (this' : BuddyAllocator) × (find_free_block this size ≡ (this', some x))
          × Taken this (b ∷ c ∷ blocks) size x this')
find_free_block-takes this b c blocks size heap powers =
    let more = next-more this.heap_end this.headers this.head b c blocks heap.small heap.chain in
    let count = Chain-length this.heap_end this.headers this.head (b ∷ c ∷ blocks) heap.chain in
    let search =
      find_best-Searched this.heap_end heap.small this.headers size (this.heap_end - this.head)
        this.head b c blocks none heap.chain (omega (arith, count)) in
    elim (Option-cases (searched this size (this.head + b.size) more)) [
      | inl nothing ↦ inl (
        find_free_block-none this size (this.head + b.size) more nothing,
        (search.missing nothing).1,
      )
      | inr (x, found) ↦ elim (search.found x found) [
        | inl clash ↦ cc
        | inr f ↦ inr (
          x,
          (spilt_to_fit this x size).0,
          find_free_block-some this size (this.head + b.size) more x found,
          spilt_to_fit-Taken this (b ∷ c ∷ blocks) size x heap powers f,
        )
      ]
    ]
