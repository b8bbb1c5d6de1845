-- ===== src/Threading/LinkedList/Nodes/Iterates.antt =====
-- The iterator of `clone_iter` over a chain of nodes.
use mathlib.Core.Option.{some-injective}
use safa_os.Prelude.{
  ℕ, zero, suc, ◌+◌, ◌≡◌, refl, sym, ap, ◌∙◌, Option, none, some, List, [], ◌∷◌, length, get_elem?,
  get_elem?-none_of_le, get_elem?-some_of_lt, Option-cases, inl, inr, arith,
}
use safa_os.Prelude.Options.{◌>>=◌}
use safa_os.Threading.LinkedList.{LinkedList}
use safa_os.Threading.LinkedList.Nodes.{Ptr, Store, PointerList, next, clone_iter, clone_iter_next}
use safa_os.Threading.LinkedList.Nodes.Refines.{Holds, StandsFor}

module _ {A : Type 0} where
  -- what a loop over the iterator yields, with a step for each element and one for the end
  abbrev pub yielded : ℕ → Store A → PointerList → Option (List A)
  yielded zero store list = none
  yielded (suc steps) store list = clone_iter_next store list >>= λ moved.
      let rest = yielded steps store moved.0 in
      elim moved.1 [ none ↦ some [] | some x ↦ rest >>= λ xs. some (x ∷ xs) ]

  module _ (store : Store A) (ptrs : List Ptr) (items : List A) (size : length ptrs ≡ length items)
      (holds : Holds store ptrs items) where
    clone_iter_next-moves :
        (list : PointerList) (k : ℕ) (p : Ptr) (x : A)
        → get_elem? ptrs k ≡ some p
        → get_elem? items k ≡ some x
        → list.current ≡ some p
        → clone_iter_next store list
          ≡ some (record list { current = get_elem? ptrs (suc k) }, some x)
    unfolding clone_iter_next next
    clone_iter_next-moves list k p x at of here =
        let (v, of', node) = holds k p at in
        let same : v ≡ x = some-injective _ _ (sym of' ∙ of) in
        elim (Option-cases (get_elem? ptrs (suc k))) [
          | inl last ↦ rw (here, node, last, same) refl
          | inr (q, behind) ↦
              let (w, _, node') = holds (suc k) q behind in
              rw (here, node, behind, node', same) refl
        ]

    yielded_from :
        (xs : List A) (list : PointerList) (k : ℕ)
        → length items ≡ k + length xs
        → ((j : ℕ) → get_elem? items (k + j) ≡ get_elem? xs j)
        → list.current ≡ get_elem? ptrs k
        → yielded (suc (length xs)) store list ≡ some xs
    unfolding clone_iter_next
    yielded_from [] list k total same here =
        let out : get_elem? ptrs k ≡ none = get_elem?-none_of_le ptrs k (omega arith) in
        rw (here, out) refl
    yielded_from (x ∷ xs) list k total same here =
        let (p, at) = get_elem?-some_of_lt ptrs k (omega arith) in
        let k_0 : k ≡ k + 0 = omega arith in
        let of : get_elem? items k ≡ some x = ap (get_elem? items) k_0 ∙ same 0 in
        let moved = clone_iter_next-moves list k p x at of (here ∙ at) in
        let rest =
          yielded_from xs (record list { current = get_elem? ptrs (suc k) }) (suc k) (omega arith)
            (λ j.
              let next : suc k + j ≡ k + suc j = omega arith in
              ap (get_elem? items) next ∙ same (suc j))
            refl in
        rw (moved, rest) refl

-- A loop over `clone_iter`, on a chain of nodes that stands for a list with a cursor, yields the
-- elements of the list from its head to its tail, wherever the cursor is, and ends.
pub clone_iter-yields :
    {A : Type 0} (store : Store A) (this : PointerList) (ptrs : List Ptr) (list : LinkedList A)
    → StandsFor store this ptrs list
    → yielded (suc (length list.items)) store (clone_iter this) ≡ some list.items
clone_iter-yields store this ptrs list stands =
    let chain = stands.chain in
    yielded_from store ptrs list.items chain.size chain.holds list.items (clone_iter this) 0
      (omega arith) (λ j. let start : 0 + j ≡ j = omega arith in ap (get_elem? list.items) start)
      chain.head
