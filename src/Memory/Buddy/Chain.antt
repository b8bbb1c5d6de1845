-- ===== src/Memory/Buddy/Chain.antt =====
-- The heap of kernel/src/memory/buddy_allocator.rs as a list of blocks, from an address to the end.
use safa_os.Prelude.{
  ℕ, ◌+◌, ◌^◌, ◌≤◌, ◌<◌, ◌≡◌, false, if◌then◌else◌, none, some, List, [], ◌∷◌, length, arith,
}
use safa_os.Memory.Buddy.{Block, set_header, mergeable, next}

-- the blocks that lie one behind the other from `a` to the end of the heap
abbrev pub Chain : (ℕ → Block) → ℕ → ℕ → List Block → Type 0
Chain headers heap_end a [] = a ≡ heap_end
Chain headers heap_end a (b ∷ blocks) =
    (headers a ≡ b) × (0 < b.size) × Chain headers heap_end (a + b.size) blocks

-- the blocks in use, with their addresses
abbrev pub allocated : ℕ → List Block → List (ℕ × ℕ)
allocated a [] = []
allocated a (b ∷ blocks) =
    let rest = allocated (a + b.size) blocks in if b.free then rest else (a, b.size) ∷ rest

-- no two neighbours are free and of one size
abbrev pub HasNoPairs : List Block → Type 0
HasNoPairs [] = Unit
HasNoPairs (b ∷ []) = Unit
HasNoPairs (b ∷ c ∷ blocks) = (mergeable b c ≡ false) × HasNoPairs (c ∷ blocks)

module _ (heap_end : ℕ) where
  pub Chain-length :
      (headers : ℕ → Block) (a : ℕ) (blocks : List Block)
      → Chain headers heap_end a blocks
      → a + length blocks ≤ heap_end
  Chain-length headers a [] chain = omega (arith, chain)
  Chain-length headers a (b ∷ blocks) (here, pos, chain) =
      omega (arith, pos, Chain-length headers (a + b.size) blocks chain)

  -- a header below is not seen
  pub Chain-set_header :
      (headers : ℕ → Block) (x : ℕ) (v : Block) (a : ℕ) (blocks : List Block)
      → x < a
      → Chain headers heap_end a blocks
      → Chain (set_header headers x v) heap_end a blocks
  Chain-set_header headers x v a [] lt chain = chain
  Chain-set_header headers x v a (b ∷ blocks) lt (here, pos, chain) = (
    ground (arith, lt, here),
    pos,
    Chain-set_header headers x v (a + b.size) blocks (omega (arith, lt)) chain,
  )

  pub next-last :
      (headers : ℕ → Block) (a : ℕ) (b : Block)
      → heap_end < 2 ^ 64
      → Chain headers heap_end a (b ∷ [])
      → next heap_end headers a ≡ none
  unfolding next
  next-last headers a b small (here, pos, at_end) = rw here (ground (arith, at_end, small))

  pub next-more :
      (headers : ℕ → Block) (a : ℕ) (b c : Block) (blocks : List Block)
      → heap_end < 2 ^ 64
      → Chain headers heap_end a (b ∷ c ∷ blocks)
      → next heap_end headers a ≡ some (a + b.size)
  unfolding next
  next-more headers a b c blocks small (here, pos, (_, pos', chain)) =
      let far = Chain-length headers (a + b.size + c.size) blocks chain in
      rw here (ground (arith, pos', far, small))
