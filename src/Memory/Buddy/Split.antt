-- ===== src/Memory/Buddy/Split.antt =====
-- `spilt_to_fit` of kernel/src/memory/buddy_allocator.rs on a free block whose size is a power of
-- two.
use native.Mathlib.Nat.{pow-suc}
use safa_os.Prelude.{
  ℕ, zero, suc, ◌+◌, ◌/◌, ◌^◌, ◌≤◌, ◌<◌, ◌≡◌, refl, ap, ◌∙◌, true, false, ◌&&◌, leb, ltb, inl, inr,
  Option, some, List, [], ◌∷◌, arith, Bool-cases,
}
use safa_os.Prelude.Words.{add_usize}
use safa_os.Prelude.Bits.{half-two_pow}
use safa_os.Memory.Buddy.{Block, set_header, divide, spilt_block, size_of_block}
use safa_os.Memory.Buddy.Chain.{Chain, allocated, Chain-length, Chain-set_header}
use safa_os.Memory.Buddy.Coalesce.{set_header_self, set_header_below}

abbrev pub IsPower : ℕ → Type 0
IsPower size = (k : ℕ) × (size ≡ 2 ^ k)

abbrev pub AllPowers : List Block → Type 0
AllPowers [] = Unit
AllPowers (b ∷ blocks) = IsPower b.size × AllPowers blocks

-- a block at `x` that took the place of `b`, with what is left of `b` behind it
pub record Split (heap_end : ℕ) (headers : ℕ → Block) (x : ℕ) (b : Block) (post : List Block)
    (size : ℕ) (headers' : ℕ → Block) : Type 0 where
  pub first : Block
  pub behind : List Block
  pub chain : Chain headers' heap_end x (first ∷ behind)
  pub free : first.free ≡ true
  pub enough : size ≤ first.size
  pub powers : AllPowers (first ∷ behind)
  pub same_use : allocated (x + first.size) behind ≡ allocated (x + b.size) post
  pub below : (y : ℕ) → y < x → headers' y ≡ headers y

halves :
    (size : ℕ) → IsPower size → 16 < size / 2 → IsPower (size / 2) × (size ≡ size / 2 + size / 2)
halves size (zero, e) big = absurd (omega (arith, e, big))
halves size (suc k, e) big =
    let half : size / 2 ≡ 2 ^ k = ap (λ t. t / 2) e ∙ half-two_pow k in
    ((k, half), omega (arith, e, half, pow-suc 2 k))

-- a block that is not divided
kept :
    {heap_end : ℕ} (headers : ℕ → Block) (x : ℕ) (b : Block) (post : List Block) (size : ℕ)
    → Chain headers heap_end x (b ∷ post)
    → b.free ≡ true
    → size ≤ b.size
    → AllPowers (b ∷ post)
    → Split heap_end headers x b post size headers
kept headers x b post size chain free enough powers = record {
  first = b;
  behind = post;
  chain = chain;
  free = free;
  enough = enough;
  powers = powers;
  same_use = refl;
  below = λ y lt. refl;
}

module _ (heap_end : ℕ) (small : heap_end < 2 ^ 64) where
  abbrev half_of : Block → Block
  half_of b = record { free = true; size = b.size / 2 }

  module _ (headers : ℕ → Block) (x : ℕ) (b : Block) (post : List Block)
      (chain : Chain headers heap_end x (b ∷ post)) (power : IsPower b.size)
      (big : 16 < b.size / 2) where
    abbrev divided : ℕ → Block
    divided = set_header (set_header headers x (half_of b)) (x + b.size / 2) (half_of b)

    divide_value : divide headers x ≡ (divided, x + b.size / 2)
    unfolding divide
    divide_value =
        let (here, _, rest) = chain in
        let fit = Chain-length heap_end headers (x + b.size) post rest in
        let at : add_usize x (b.size / 2) ≡ x + b.size / 2 = omega (arith, fit, small) in
        rw (here, at)

    Chain-divided : Chain divided heap_end x (half_of b ∷ half_of b ∷ post)
    Chain-divided =
        let (_, _, rest) = chain in
        let (_, twice) = halves b.size power big in
        let there : x + b.size / 2 + b.size / 2 ≡ x + b.size = omega (arith, twice) in
        let one =
          Chain-set_header heap_end headers x (half_of b) (x + b.size) post (omega (arith, big))
            rest in
        let two =
          Chain-set_header heap_end (set_header headers x (half_of b)) (x + b.size / 2) (half_of b)
            (x + b.size) post (omega (arith, big, twice)) one in
        (
          set_header_below (set_header headers x (half_of b)) (x + b.size / 2) x (half_of b)
                (omega (arith, big))
              ∙ set_header_self headers x (half_of b),
          omega (arith, big),
          (
            set_header_self (set_header headers x (half_of b)) (x + b.size / 2) (half_of b),
            omega (arith, big),
            rw there two,
          ),
        )

    spilt_block-divide :
        (fuel size : ℕ) (buddy : Option ℕ)
        → (leb size (b.size / 2) && ltb size_of_block (b.size / 2)) ≡ true
        → spilt_block (suc fuel) headers x size buddy
          ≡ spilt_block fuel divided x size (some (x + b.size / 2))
    unfolding spilt_block
    spilt_block-divide fuel size buddy h =
        let (here, _, _) = chain in rw (spilt_block, divide_value, here, h)

  spilt_block-fits :
      (fuel : ℕ) (headers : ℕ → Block) (x : ℕ) (b : Block) (size : ℕ) (buddy : Option ℕ)
      → headers x ≡ b
      → (leb size (b.size / 2) && ltb size_of_block (b.size / 2)) ≡ false
      → spilt_block (suc fuel) headers x size buddy ≡ (headers, buddy)
  unfolding spilt_block
  spilt_block-fits fuel headers x b size buddy here h = rw (spilt_block, here, h)

  pub spilt_block-Split :
      (fuel : ℕ) (headers : ℕ → Block) (x : ℕ) (b : Block) (post : List Block) (size : ℕ)
      (buddy : Option ℕ)
      → Chain headers heap_end x (b ∷ post)
      → b.free ≡ true
      → size ≤ b.size
      → AllPowers (b ∷ post)
      → Split heap_end headers x b post size (spilt_block fuel headers x size buddy).0
  unfolding spilt_block
  spilt_block-Split zero headers x b post size buddy chain free enough powers =
      kept headers x b post size chain free enough powers
  spilt_block-Split (suc fuel) headers x b post size buddy chain free enough (power, powers) =
      elim (Bool-cases (leb size (b.size / 2) && ltb size_of_block (b.size / 2))) [
        | inr fits ↦
            rw (spilt_block-fits fuel headers x b size buddy chain.0 fits)
              (kept headers x b post size chain free enough (power, powers))
        | inl more ↦
            let big : 16 < b.size / 2 = ground (arith, more) in
            let room : size ≤ b.size / 2 = ground (arith, more) in
            let (half, twice) = halves b.size power big in
            let rest =
              spilt_block-Split fuel (divided headers x b post chain power big) x (half_of b)
                (half_of b ∷ post) size (some (x + b.size / 2))
                (Chain-divided headers x b post chain power big) refl room (half, (half, powers)) in
            let there : x + b.size / 2 + b.size / 2 ≡ x + b.size = omega (arith, twice) in
            rw (spilt_block-divide headers x b post chain power big fuel size buddy more) (record {
              first = rest.first;
              behind = rest.behind;
              chain = rest.chain;
              free = rest.free;
              enough = rest.enough;
              powers = rest.powers;
              same_use = rest.same_use ∙ ap (λ (y : ℕ). allocated y post) there;
              below = λ y lt.
                  rest.below y lt
                  ∙ set_header_below (set_header headers x (half_of b)) (x + b.size / 2) y
                      (half_of b) (omega (arith, lt))
                  ∙ set_header_below headers x y (half_of b) lt;
            })
      ]
