-- ===== src/Memory/Buddy/Coalesce.antt =====
-- One pass of `coalescence_buddies` of kernel/src/memory/buddy_allocator.rs over the blocks.
use safa_os.Prelude.{
  ℕ, zero, suc, ◌+◌, ◌^◌, ◌≤◌, ◌<◌, ◌≡◌, ◌⊎◌, inl, inr, refl, ap, ◌∙◌, Bool, true, false, none,
  some, List, [], ◌∷◌, length, arith, Bool-cases,
}
use safa_os.Prelude.Words.{mul_usize}
use safa_os.Memory.Buddy.{Block, set_header, mergeable, next, coalesce}
use safa_os.Memory.Buddy.Chain.{
  Chain, allocated, HasNoPairs, Chain-length, Chain-set_header, next-last, next-more,
}

-- what a pass from the block at `a` has done
pub record Passed (heap_end : ℕ) (headers : ℕ → Block) (a : ℕ) (blocks : List Block)
    (results : Bool) (out : (ℕ → Block) × Bool) : Type 0 where
  pub left : List Block
  pub chain : Chain out.0 heap_end a left
  pub same_use : allocated a left ≡ allocated a blocks
  pub below : (x : ℕ) → x < a → out.0 x ≡ headers x
  pub outcome :
      ((out.1 ≡ true) × (length left < length blocks))
      ⊎ ((out.1 ≡ results) × (left ≡ blocks) × HasNoPairs blocks)

abbrev doubled : Block → Block
doubled b = record b { size = mul_usize b.size 2 }

module _ (heap_end fuel : ℕ) (headers : ℕ → Block) (a : ℕ) (results : Bool) where
  coalesce-last :
      next heap_end headers a ≡ none
      → coalesce (suc fuel) heap_end headers a results ≡ (headers, results)
  unfolding coalesce
  coalesce-last h = rw (coalesce, h)

  module _ (buddy : ℕ) (more : next heap_end headers a ≡ some buddy) where
    coalesce-merge :
        mergeable (headers a) (headers buddy) ≡ true
        → coalesce (suc fuel) heap_end headers a results
          ≡ coalesce fuel heap_end (set_header headers a (doubled (headers a))) a true
    unfolding coalesce
    coalesce-merge h = rw (coalesce, more, h)

    coalesce-go :
        mergeable (headers a) (headers buddy) ≡ false
        → coalesce (suc fuel) heap_end headers a results
          ≡ coalesce fuel heap_end headers buddy results
    unfolding coalesce
    coalesce-go h = rw (coalesce, more, h)

pub set_header_self : (headers : ℕ → Block) (a : ℕ) (v : Block) → set_header headers a v a ≡ v
set_header_self headers a v = ground arith

pub set_header_below :
    (headers : ℕ → Block) (a x : ℕ) (v : Block) → x < a → set_header headers a v x ≡ headers x
set_header_below headers a x v lt = ground (arith, lt)

module _ (b c : Block) (e : mergeable b c ≡ true) where
  mergeable-free : b.free ≡ true
  mergeable-free = ground (arith, e)

  mergeable-free_buddy : c.free ≡ true
  mergeable-free_buddy = ground (arith, e)

  mergeable-size : b.size ≡ c.size
  mergeable-size = ground (arith, e)

module _ (heap_end : ℕ) (small : heap_end < 2 ^ 64) where
  -- a merged pair in place of its two blocks
  module _ (headers : ℕ → Block) (a : ℕ) (b c : Block) (blocks : List Block)
      (chain : Chain headers heap_end a (b ∷ c ∷ blocks)) (e : mergeable b c ≡ true) where
    doubled_size : (doubled b).size ≡ b.size + c.size
    doubled_size =
        let (_, _, (_, _, rest)) = chain in
        let fit = Chain-length heap_end headers (a + b.size + c.size) blocks rest in
        omega (arith, mergeable-size b c e, fit, small)

    behind : a + (doubled b).size ≡ a + b.size + c.size
    behind = omega (arith, doubled_size)

    Chain-merged : Chain (set_header headers a (doubled b)) heap_end a (doubled b ∷ blocks)
    Chain-merged =
        let (_, pos, (_, pos', rest)) = chain in
        (
          set_header_self headers a (doubled b),
          omega (arith, doubled_size, pos),
          rw behind
              (Chain-set_header heap_end headers a (doubled b) _ blocks (omega (arith, pos)) rest),
        )

    allocated-merged : allocated a (doubled b ∷ blocks) ≡ allocated a (b ∷ c ∷ blocks)
    allocated-merged = rw (mergeable-free b c e, mergeable-free_buddy b c e, behind)

  coalesce_at_last :
      (fuel : ℕ) (headers : ℕ → Block) (a : ℕ) (b : Block) (results : Bool)
      → Chain headers heap_end a (b ∷ [])
      → coalesce fuel heap_end headers a results ≡ (headers, results)
  unfolding coalesce
  coalesce_at_last zero headers a b results chain = refl
  coalesce_at_last (suc fuel) headers a b results chain =
      coalesce-last heap_end fuel headers a results (next-last heap_end headers a b small chain)

  Passed-last :
      (fuel : ℕ) (headers : ℕ → Block) (a : ℕ) (b : Block) (results : Bool)
      → Chain headers heap_end a (b ∷ [])
      → Passed heap_end headers a (b ∷ []) results (coalesce fuel heap_end headers a results)
  Passed-last fuel headers a b results chain =
      rw (coalesce_at_last fuel headers a b results chain) (record {
        left = b ∷ [];
        chain = chain;
        same_use = refl;
        below = λ x lt. refl;
        outcome = inr (refl, refl, tt);
      })

  module _ (headers : ℕ → Block) (a : ℕ) (b c : Block) (blocks : List Block) (results : Bool)
      (chain : Chain headers heap_end a (b ∷ c ∷ blocks)) (out : (ℕ → Block) × Bool) where
    Passed-merge :
        mergeable b c ≡ true
        → Passed heap_end (set_header headers a (doubled b)) a (doubled b ∷ blocks) true out
        → Passed heap_end headers a (b ∷ c ∷ blocks) results out
    Passed-merge e rest = record {
      left = rest.left;
      chain = rest.chain;
      same_use = rest.same_use ∙ allocated-merged headers a b c blocks chain e;
      below = λ x lt. rest.below x lt ∙ set_header_below headers a x _ lt;
      outcome = elim rest.outcome [
        | inl (merged, shorter) ↦ inl (merged, omega (arith, shorter))
        | inr (kept, same, _) ↦ inl (kept, omega (arith, ap length same))
      ];
    }

    Passed-go :
        mergeable b c ≡ false
        → Passed heap_end headers (a + b.size) (c ∷ blocks) results out
        → Passed heap_end headers a (b ∷ c ∷ blocks) results out
    Passed-go e rest =
        let (here, pos, _) = chain in
        record {
          left = b ∷ rest.left;
          chain = (rest.below a (omega (arith, pos)) ∙ here, pos, rest.chain);
          same_use = rw rest.same_use;
          below = λ x lt. rest.below x (omega (arith, lt));
          outcome = elim rest.outcome [
            | inl (merged, shorter) ↦ inl (merged, omega (arith, shorter))
            | inr (kept, same, no_pairs) ↦ inr (kept, ap (λ l. b ∷ l) same, (e, no_pairs))
          ];
        }

  pub coalesce-Passed :
      (fuel : ℕ) (headers : ℕ → Block) (a : ℕ) (b : Block) (blocks : List Block) (results : Bool)
      → Chain headers heap_end a (b ∷ blocks)
      → length blocks ≤ fuel
      → Passed heap_end headers a (b ∷ blocks) results (coalesce fuel heap_end headers a results)
  coalesce-Passed fuel headers a b [] results chain le = Passed-last fuel headers a b results chain
  coalesce-Passed zero headers a b (c ∷ blocks) results chain le = absurd (omega (arith, le))
  coalesce-Passed (suc fuel) headers a b (c ∷ blocks) results chain le =
      let more = next-more heap_end headers a b c blocks small chain in
      let (here, pos, (there, pos', rest)) = chain in
      elim (Bool-cases (mergeable b c)) [
        | inl e ↦
            let pair : mergeable (headers a) (headers (a + b.size)) ≡ true = rw (here, there) e in
            let out =
              coalesce-Passed fuel (set_header headers a (doubled b)) a (doubled b) blocks true
                (Chain-merged headers a b c blocks chain e) (omega (arith, le)) in
            rw (coalesce-merge heap_end fuel headers a results (a + b.size) more pair, here)
              (Passed-merge headers a b c blocks results chain _ e out)
        | inr e ↦
            let pair : mergeable (headers a) (headers (a + b.size)) ≡ false = rw (here, there) e in
            let out =
              coalesce-Passed fuel headers (a + b.size) c blocks results (there, pos', rest)
                (omega (arith, le)) in
            rw (coalesce-go heap_end fuel headers a results (a + b.size) more pair)
              (Passed-go headers a b c blocks results chain _ e out)
      ]
