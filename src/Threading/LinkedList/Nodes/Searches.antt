-- ===== src/Threading/LinkedList/Nodes/Searches.antt =====
-- `remove_where` on the nodes is `remove_where` on the list: the walk along the `next` pointers
-- ends and stops at the first element that satisfies the condition.
use mathlib.Core.Option.{some-injective}
use safa_os.Prelude.{
  ℕ, zero, suc, ◌+◌, ◌≤◌, ◌≡◌, refl, sym, ap, ◌∙◌, Bool, none, some, List, [], ◌∷◌, ◌⊎◌, length,
  get_elem?, get_elem?-none_of_le, get_elem?-some_of_lt, Bool-cases, inl, inr, arith,
}
use safa_os.Threading.LinkedList.{LinkedList, find_index}
use safa_os.Threading.LinkedList
use safa_os.Threading.LinkedList.Nodes.{
  Ptr, Store, PointerList, find_node, removed_at, remove_where,
}
use safa_os.Threading.LinkedList.Nodes.Refines.{Holds, StandsFor}
use safa_os.Threading.LinkedList.Nodes.Removes.{remove_node-StandsFor}

module _ {A : Type 0} (store : Store A) (ptrs : List Ptr) (items : List A) (condition : A → Bool)
    (size : length ptrs ≡ length items) (holds : Holds store ptrs items) where
  -- the walk from position `k` on, and the search in the elements `xs` from there on
  abbrev SameSearch : ℕ → List A → ℕ → Type 0
  SameSearch k xs steps =
      ((find_index condition xs k ≡ none)
        × (find_node steps store condition (get_elem? ptrs k) ≡ some none))
      ⊎ ((i : ℕ) × (x : A) × (p : Ptr) × (find_index condition xs k ≡ some (i, x))
          × (find_node steps store condition (get_elem? ptrs k) ≡ some (some p))
          × (get_elem? ptrs i ≡ some p)
          × (get_elem? items i ≡ some x))

  find_none : (steps : ℕ) → find_node steps store condition none ≡ some none
  unfolding find_node
  find_none zero = refl
  find_none (suc steps) = refl

  same_search :
      (xs : List A) (k steps : ℕ)
      → length items ≡ k + length xs
      → length xs ≤ steps
      → ((j : ℕ) → get_elem? items (k + j) ≡ get_elem? xs j)
      → SameSearch k xs steps
  unfolding find_node find_index
  same_search [] k steps total enough same =
      let out : get_elem? ptrs k ≡ none = get_elem?-none_of_le ptrs k (omega arith) in
      inl (refl, rw out (find_none steps))
  same_search (x ∷ xs) k zero total enough same = ground arith
  same_search (x ∷ xs) k (suc steps) total enough same =
      let (p, at) = get_elem?-some_of_lt ptrs k (omega arith) in
      let (v, of, node) = holds k p at in
      let k_0 : k + 0 ≡ k = omega arith in
      let value : v ≡ x = some-injective _ _ (sym of ∙ ap (get_elem? items) (sym k_0) ∙ same 0) in
      elim (Bool-cases (condition x)) [
        | inl hit ↦
            inr (k, x, p, rw hit refl, rw (at, node, value, hit) refl, at, of ∙ ap some value)
        | inr miss ↦
            let k_1 : k + 1 ≡ suc k = omega arith in
            let later = same_search xs (k + 1) steps (omega arith) (omega arith) (λ j.
              let next : k + 1 + j ≡ k + suc j = omega arith in
              ap (get_elem? items) next ∙ same (suc j)) in
            elim later [
              | inl (gone, walked) ↦
                  inl (rw miss gone, rw (at, node, value, miss) (rw k_1 at walked))
              | inr (i, y, q, found, walked, at_i, of_i) ↦ inr (
                i,
                y,
                q,
                rw miss found,
                rw (at, node, value, miss) (rw k_1 at walked),
                at_i,
                of_i,
              )
            ]
      ]

-- `remove_where`, on a chain of nodes that stands for a list with a cursor, returns with the
-- element that it returns on the list, if any, and the chain that it leaves stands for the list
-- that it leaves there; with one step for each node the walk comes to its end.
pub remove_where-StandsFor :
    {A : Type 0} (store : Store A) (this : PointerList) (ptrs : List Ptr) (list : LinkedList A)
    (condition : A → Bool)
    → StandsFor store this ptrs list
    → (store' : Store A) × (this' : PointerList) × (ptrs' : List Ptr) × (remove_where store this
          condition
        ≡ some (store', this', (LinkedList.remove_where list condition).1))
      × StandsFor store' this' ptrs' (LinkedList.remove_where list condition).0
unfolding remove_where removed_at LinkedList.remove_where
remove_where-StandsFor store this ptrs list condition stands =
    let chain = stands.chain in
    let found =
      same_search store ptrs list.items condition chain.size chain.holds list.items 0 this.len
        (omega arith) (let a = chain.size in let b = chain.len in omega arith)
        (λ j. let start : 0 + j ≡ j = omega arith in ap (get_elem? list.items) start) in
    let from_head = ap (find_node this.len store condition) chain.head in
    elim found [
      | inl (gone, walked) ↦ (
        store,
        this,
        ptrs,
        rw (LinkedList.remove_where, from_head ∙ walked, gone) refl,
        rw (LinkedList.remove_where, gone) stands,
      )
      | inr (i, x, p, first, walked, at, of) ↦
          let (store', this', value, of', removed, rest) =
            remove_node-StandsFor store this ptrs list i p at stands in
          let same : value ≡ x = some-injective _ _ (sym of' ∙ of) in
          (
            store',
            this',
            LinkedList.remove_index ptrs i,
            rw (LinkedList.remove_where, from_head ∙ walked, first, removed, same) refl,
            rw (LinkedList.remove_where, first) rest,
          )
    ]
