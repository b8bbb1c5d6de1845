-- ===== src/Memory/Buddy/Find.antt =====
-- The search of `find_free_block` of kernel/src/memory/buddy_allocator.rs over two blocks or more.
use safa_os.Prelude.{
  ℕ, zero, suc, ◌+◌, ◌^◌, ◌≤◌, ◌<◌, ◌≡◌, ◌≢◌, ◌⊎◌, inl, inr, refl, sym, ap, ◌∙◌, Bool, true, false,
  ◌&&◌, leb, if◌then◌else◌, Option, none, some, List, [], ◌∷◌, ◌++◌, length, arith,
}
use mathlib.Core.Option.{some-injective}
use mathlib.Core.List.{append_assoc}
use safa_os.Memory.Buddy.{Block, better, find_best, next}
use safa_os.Memory.Buddy.Chain.{Chain, next-last, next-more}
use safa_os.Memory.Buddy.Dealloc.{end_of}

-- a free block with room, at `x` among the blocks from `a`
pub record Fits (size a : ℕ) (blocks : List Block) (x : ℕ) : Type 0 where
  pub pre : List Block
  pub block : Block
  pub post : List Block
  pub split : blocks ≡ pre ++ block ∷ post
  pub at : x ≡ end_of a pre
  pub free : block.free ≡ true
  pub room : size ≤ block.size

abbrev pub fits : ℕ → Block → Bool
fits size b = b.free && leb size b.size

-- no block is free and has room
abbrev pub NoneFits : ℕ → List Block → Type 0
NoneFits size [] = Unit
NoneFits size (b ∷ blocks) = (fits size b ≡ false) × NoneFits size blocks

Fits-later :
    (size a x : ℕ) (b : Block) (blocks : List Block)
    → Fits size (a + b.size) blocks x
    → Fits size a (b ∷ blocks) x
Fits-later size a x b blocks f = record {
  pre = b ∷ f.pre;
  block = f.block;
  post = f.post;
  split = ap (λ l. b ∷ l) f.split;
  at = f.at;
  free = f.free;
  room = f.room;
}

Fits-first :
    (size a : ℕ) (b : Block) (blocks : List Block) → fits size b ≡ true → Fits size a (b ∷ blocks) a
Fits-first size a b blocks h = record {
  pre = [];
  block = b;
  post = blocks;
  split = refl;
  at = refl;
  free = ground (arith, h);
  room = ground (arith, h);
}

-- what a search from `a` adds to the best block so far
pub record Searched (size a : ℕ) (blocks : List Block) (best out : Option ℕ) : Type 0 where
  pub found : (x : ℕ) → out ≡ some x → (best ≡ some x) ⊎ Fits size a blocks x
  pub missing : out ≡ none → (best ≡ none) × NoneFits size blocks

abbrev improves : (ℕ → Block) → Block → Option ℕ → Bool
improves headers b none = true
improves headers b (some x) = leb b.size (headers x).size

better_value :
    (headers : ℕ → Block) (size : ℕ) (best : Option ℕ) (a : ℕ)
    → better headers size best a ≡ (
        if (headers a).free && leb size (headers a).size && improves headers (headers a) best
        then some a
        else best)
unfolding better
better_value headers size none a = refl
better_value headers size (some x) a = refl

pick-found :
    (free room improved : Bool) (best : Option ℕ) (a x : ℕ)
    → (if free && room && improved then some a else best) ≡ some x
    → (best ≡ some x) ⊎ ((x ≡ a) × ((free && room) ≡ true))
pick-found true true true best a x h = inr (sym (some-injective a x h), refl)
pick-found true true false best a x h = inl h
pick-found true false improved best a x h = inl h
pick-found false room improved best a x h = inl h

pick-missing :
    (free room : Bool) (a : ℕ)
    → (if free && room && true then some a else none) ≡ none
    → (free && room) ≡ false
pick-missing true true a h = cc
pick-missing true false a h = refl
pick-missing false room a h = refl

pick-some : (test : Bool) (a x : ℕ) → (if test then some a else some x) ≢ none
pick-some true a x h = cc
pick-some false a x h = cc

better-found :
    (headers : ℕ → Block) (size : ℕ) (best : Option ℕ) (a x : ℕ)
    → better headers size best a ≡ some x
    → (best ≡ some x) ⊎ ((x ≡ a) × (fits size (headers a) ≡ true))
better-found headers size best a x h =
    pick-found (headers a).free (leb size (headers a).size) (improves headers (headers a) best) best
      a x (sym (better_value headers size best a) ∙ h)

better-missing :
    (headers : ℕ → Block) (size : ℕ) (best : Option ℕ) (a : ℕ)
    → better headers size best a ≡ none
    → (best ≡ none) × (fits size (headers a) ≡ false)
better-missing headers size none a h = (
  refl,
  pick-missing (headers a).free (leb size (headers a).size) a
      (sym (better_value headers size none a) ∙ h),
)
better-missing headers size (some x) a h =
    absurd (pick-some _ a x (sym (better_value headers size (some x) a) ∙ h))

-- one block is looked at
Searched-one :
    (headers : ℕ → Block) (size a : ℕ) (b : Block) (best : Option ℕ)
    → headers a ≡ b
    → Searched size a (b ∷ []) best (better headers size best a)
Searched-one headers size a b best here = record {
  found = λ x h. elim (better-found headers size best a x h) [
    | inl old ↦ inl old
    | inr (is, good) ↦ inr (rw is (Fits-first size a b [] (ap (fits size) (sym here) ∙ good)))
  ];
  missing = λ h.
      let (nothing, bad) = better-missing headers size best a h in
      (nothing, (ap (fits size) (sym here) ∙ bad, tt));
}

Fits-append :
    (size a x : ℕ) (blocks more : List Block)
    → Fits size a blocks x
    → Fits size a (blocks ++ more) x
Fits-append size a x blocks more f = record {
  pre = f.pre;
  block = f.block;
  post = f.post ++ more;
  split = ap (λ l. l ++ more) f.split ∙ append_assoc f.pre (f.block ∷ f.post) more;
  at = f.at;
  free = f.free;
  room = f.room;
}

-- a block, and then the blocks behind it
Searched-more :
    (size a : ℕ) (b : Block) (blocks : List Block) (best mid out : Option ℕ)
    → Searched size a (b ∷ []) best mid
    → Searched size (a + b.size) blocks mid out
    → Searched size a (b ∷ blocks) best out
Searched-more size a b blocks best mid out one rest = record {
  found = λ x h. elim (rest.found x h) [
    | inr later ↦ inr (Fits-later size a x b blocks later)
    | inl at_mid ↦ elim (one.found x at_mid) [
      | inl old ↦ inl old
      | inr f ↦ inr (Fits-append size a x (b ∷ []) blocks f)
    ]
  ];
  missing = λ h.
      let (mid_none, others) = rest.missing h in
      let (best_none, (bad, _)) = one.missing mid_none in (best_none, (bad, others));
}

-- a block that is looked at twice
Searched-again :
    (size a : ℕ) (b : Block) (blocks : List Block) (best mid out : Option ℕ)
    → Searched size a (b ∷ []) best mid
    → Searched size a (b ∷ blocks) mid out
    → Searched size a (b ∷ blocks) best out
Searched-again size a b blocks best mid out one rest = record {
  found = λ x h. elim (rest.found x h) [
    | inr later ↦ inr later
    | inl at_mid ↦ elim (one.found x at_mid) [
      | inl old ↦ inl old
      | inr f ↦ inr (Fits-append size a x (b ∷ []) blocks f)
    ]
  ];
  missing = λ h. let (mid_none, others) = rest.missing h in ((one.missing mid_none).0, others);
}

module _ (heap_end : ℕ) (small : heap_end < 2 ^ 64) (headers : ℕ → Block) (size : ℕ) where
  module _ (fuel a a' : ℕ) (best : Option ℕ) where
    abbrev looked : Option ℕ
    looked = better headers size (better headers size best a) a'

    find_best-last :
        next heap_end headers a' ≡ none
        → find_best (suc fuel) heap_end headers size a a' best ≡ looked
    unfolding find_best
    find_best-last h = rw (find_best, h)

    find_best-more :
        (a'' : ℕ)
        → next heap_end headers a' ≡ some a''
        → find_best (suc fuel) heap_end headers size a a' best
          ≡ find_best fuel heap_end headers size a' a'' looked
    unfolding find_best
    find_best-more a'' h = rw (find_best, h)

  pub find_best-Searched :
      (fuel a : ℕ) (b c : Block) (blocks : List Block) (best : Option ℕ)
      → Chain headers heap_end a (b ∷ c ∷ blocks)
      → length blocks < fuel
      → Searched size a
          (b ∷ c ∷ blocks)
          best
          (find_best fuel heap_end headers size a (a + b.size) best)
  find_best-Searched zero a b c blocks best chain le = absurd (omega (arith, le))
  find_best-Searched (suc fuel) a b c [] best (here, pos, chain) le =
      rw (find_best-last fuel a (a + b.size) best (next-last heap_end headers _ c small chain)) (
        Searched-more size a b (c ∷ []) best _ _ (Searched-one headers size a b best here)
          (Searched-one headers size (a + b.size) c _ chain.0))
  find_best-Searched (suc fuel) a b c (d ∷ blocks) best (here, pos, chain) le =
      let rest =
        find_best-Searched fuel (a + b.size) c d blocks (looked fuel a (a + b.size) best) chain
          (omega (arith, le)) in
      rw
        (find_best-more fuel a (a + b.size) best _
          (next-more heap_end headers _ c d blocks small chain))
        (Searched-more size a b (c ∷ d ∷ blocks) best _ _ (Searched-one headers size a b best here)
          (Searched-again size (a + b.size) c (d ∷ blocks) _ _ _
            (Searched-one headers size (a + b.size) c _ chain.0) rest))
