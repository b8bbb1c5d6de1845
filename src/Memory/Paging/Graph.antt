-- ===== src/Memory/Paging/Graph.antt =====
-- The tables below a root as a graph: `next t i` is the table that entry `i` of table `t` leads to.
-- A path lists the entries from the lowest level up to the root.
use native.Mathlib.Decide.{ℕ_discrete}
use mathlib.Core.Path.{subst}
use mathlib.Core.Option.{some-injective}
use safa_os.Prelude.{
  ℕ, ◌≤◌, ◌≡◌, ◌≢◌, refl, sym, ap, ◌∙◌, ◌⊎◌, inl, inr, Option, some, none, List, [], ◌∷◌, length,
  arith, Option-cases,
}

abbrev pub step : (ℕ → ℕ → Option ℕ) → Option ℕ → ℕ → Option ℕ
step next (some t) i = next t i
step next none i = none

unfoldable pub reach : (ℕ → ℕ → Option ℕ) → ℕ → List ℕ → Option ℕ
reach next root [] = some root
reach next root (i ∷ path) = step next (reach next root path) i

-- Up to three levels below the root, a table stands at one path only, and satisfies `Used`.
pub record IsTree (next : ℕ → ℕ → Option ℕ) (root : ℕ) (Used : ℕ → Type 0) : Type 0 where
  pub unique :
      (p q : List ℕ) (t : ℕ)
      → length p ≤ 3
      → length q ≤ 3
      → reach next root p ≡ some t
      → reach next root q ≡ some t
      → p ≡ q
  pub used : (p : List ℕ) (t : ℕ) → length p ≤ 3 → reach next root p ≡ some t → Used t

pub reach-next_same :
    (next next' : ℕ → ℕ → Option ℕ) (root : ℕ) (path : List ℕ)
    → ((t i : ℕ) → next' t i ≡ next t i)
    → reach next' root path ≡ reach next root path
unfolding reach
reach-next_same next next' root [] same = refl
reach-next_same next next' root (i ∷ path) same = elim (Option-cases (reach next root path)) [
  | inl e ↦ rw (reach-next_same next next' root path same, e, reach)
  | inr (t, e) ↦ rw (reach-next_same next next' root path same, e, reach) (same t i)
]

-- a new table `fresh`, with no entries yet, hung under the free entry `i` of the table at `path`
pub record Hung (next next' : ℕ → ℕ → Option ℕ) (t i fresh : ℕ) : Type 0 where
  pub was_free : next t i ≡ none
  pub hung : next' t i ≡ some fresh
  pub empty : (j : ℕ) → next' fresh j ≡ none
  pub kept : (s j : ℕ) → s ≢ fresh → (s ≢ t) ⊎ (j ≢ i) → next' s j ≡ next s j

module _ (next next' : ℕ → ℕ → Option ℕ) (root : ℕ) (Used Used' : ℕ → Type 0) (path : List ℕ)
    (t i fresh : ℕ) (tree : IsTree next root Used) (h : Hung next next' t i fresh)
    (at : reach next root path ≡ some t) (short : length path ≤ 2)
    (new : (s : ℕ) → Used s → s ≢ fresh) where
  step-Hung :
      (p : List ℕ) (j s : ℕ)
      → length p ≤ 2
      → reach next root p ≡ some s
      → (next' s j ≡ next s j) ⊎ ((j ∷ p ≡ i ∷ path) × (next' s j ≡ some fresh))
  step-Hung p j s le e =
      let far : s ≢ fresh = new s (tree.used p s (omega (arith, le)) e) in
      elim (ℕ_discrete s t) [
        | no other ↦ inl (h.kept s j far (inl other))
        | yes same ↦ elim (ℕ_discrete j i) [
          | no other ↦ inl (h.kept s j far (inr other))
          | yes same' ↦
              let there : reach next root path ≡ some s = at ∙ ap some (sym same) in
              let eq = tree.unique p path s (omega (arith, le)) (omega (arith, short)) e there in
              inr (rw (same', eq), rw (same, same') h.hung)
        ]
      ]

  -- every path leads where it led, but the one to the new table
  pub reach-Hung :
      (p : List ℕ)
      → length p ≤ 3
      → (reach next' root p ≡ reach next root p)
        ⊎ ((p ≡ i ∷ path) × (reach next' root p ≡ some fresh))
  unfolding reach
  reach-Hung [] le = inl refl
  reach-Hung (j ∷ p) le = elim (reach-Hung p (omega (arith, le))) [
    | inr (here, e) ↦ inl (rw (e, here, at, h.was_free, h.empty j, reach))
    | inl same ↦ elim (Option-cases (reach next root p)) [
      | inl e ↦ inl (rw (same, e, reach))
      | inr (s, e) ↦ elim (step-Hung p j s (omega (arith, le)) e) [
        | inl kept ↦ inl (rw (same, e, reach) kept)
        | inr (here, there) ↦ inr (here, rw (same, e, reach) there)
      ]
    ]
  ]

  pub reach-hung_self : reach next' root (i ∷ path) ≡ some fresh
  unfolding reach
  reach-hung_self = elim (reach-Hung path (omega (arith, short))) [
    | inl same ↦ rw (same, at, reach) h.hung
    | inr (here, there) ↦ absurd (longer path i here)
  ]
    where
      longer : (l : List ℕ) (x : ℕ) → l ≢ x ∷ l
      longer l x e = omega (arith, ap length e)

  old_ne_fresh :
      (p q : List ℕ) (s : ℕ)
      → length p ≤ 3
      → reach next' root p ≡ reach next root p
      → reach next' root p ≡ some s
      → reach next' root q ≡ some fresh
      → reach next' root q ≡ some s
      → p ≡ q
  old_ne_fresh p q s le same e there e' =
      let eq : s ≡ fresh = some-injective s fresh (sym e' ∙ there) in
      absurd (new s (tree.used p s le (sym same ∙ e)) eq)

  unique_after :
      (p q : List ℕ) (s : ℕ)
      → length p ≤ 3
      → length q ≤ 3
      → reach next' root p ≡ some s
      → reach next' root q ≡ some s
      → p ≡ q
  unique_after p q s lp lq ep eq = elim (reach-Hung p lp) [
    | inl a ↦ elim (reach-Hung q lq) [
      | inl b ↦ tree.unique p q s lp lq (sym a ∙ ep) (sym b ∙ eq)
      | inr (_, b) ↦ old_ne_fresh p q s lp a ep b eq
    ]
    | inr (here, a) ↦ elim (reach-Hung q lq) [
      | inl b ↦ sym (old_ne_fresh q p s lq b eq a ep)
      | inr (here', _) ↦ here ∙ sym here'
    ]
  ]

  pub IsTree-Hung : ((s : ℕ) → Used s → Used' s) → Used' fresh → IsTree next' root Used'
  IsTree-Hung grow marked = record {
    unique = unique_after;
    used = λ p s le e. elim (reach-Hung p le) [
      | inl same ↦ grow s (tree.used p s le (sym same ∙ e))
      | inr (_, there) ↦ subst Used' (some-injective fresh s (sym there ∙ e)) marked
    ];
  }

-- a tree whose tables lead where they led
pub IsTree-same :
    (next next' : ℕ → ℕ → Option ℕ) (root : ℕ) (Used Used' : ℕ → Type 0)
    → IsTree next root Used
    → ((p : List ℕ) → length p ≤ 3 → reach next' root p ≡ reach next root p)
    → ((s : ℕ) → Used s → Used' s)
    → IsTree next' root Used'
IsTree-same next next' root Used Used' tree same grow = record {
  unique =
      λ p q s lp lq ep eq. tree.unique p q s lp lq (sym (same p lp) ∙ ep) (sym (same q lq) ∙ eq);
  used = λ p s le e. grow s (tree.used p s le (sym (same p le) ∙ e));
}

-- a change of the entries of a table at the third level does not show above
pub reach-leaf :
    (next next' : ℕ → ℕ → Option ℕ) (root : ℕ) (Used : ℕ → Type 0) (path : List ℕ) (t : ℕ)
    → IsTree next root Used
    → length path ≡ 3
    → reach next root path ≡ some t
    → ((s j : ℕ) → s ≢ t → next' s j ≡ next s j)
    → (p : List ℕ) → length p ≤ 3
    → reach next' root p ≡ reach next root p
unfolding reach
reach-leaf next next' root Used path t tree long at kept [] le = refl
reach-leaf next next' root Used path t tree long at kept (j ∷ p) le =
    let above = reach-leaf next next' root Used path t tree long at kept p (omega (arith, le)) in
    elim (Option-cases (reach next root p)) [
      | inl e ↦ rw (above, e, reach)
      | inr (s, e) ↦ rw (above, e, reach) (kept s j (apart s e))
    ]
  where
    apart : (s : ℕ) → reach next root p ≡ some s → s ≢ t
    apart s e same =
        let eq =
          tree.unique p path s (omega (arith, le)) (omega (arith, long)) e
            (at ∙ ap some (sym same)) in
        omega (arith, le, long, ap length eq)

-- a change of entries of no used table does not show
pub reach-used_same :
    (next next' : ℕ → ℕ → Option ℕ) (root : ℕ) (Used : ℕ → Type 0)
    → IsTree next root Used
    → ((s j : ℕ) → Used s → next' s j ≡ next s j)
    → (p : List ℕ) → length p ≤ 3
    → reach next' root p ≡ reach next root p
unfolding reach
reach-used_same next next' root Used tree kept [] le = refl
reach-used_same next next' root Used tree kept (j ∷ p) le =
    let above = reach-used_same next next' root Used tree kept p (omega (arith, le)) in
    elim (Option-cases (reach next root p)) [
      | inl e ↦ rw (above, e, reach)
      | inr (s, e) ↦ rw (above, e, reach) (kept s j (tree.used p s (omega (arith, le)) e))
    ]
