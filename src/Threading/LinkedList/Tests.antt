-- ===== src/Threading/LinkedList/Tests.antt =====
-- A chain of two nodes, with the cursor on the second.
use mathlib.Core.Option.{some-injective}
use safa_os.Prelude.{
  ℕ, zero, suc, ◌≡◌, refl, sym, ◌∙◌, ◌==◌, if◌then◌else◌, none, some, List, [], ◌∷◌, ◌++◌,
  get_elem?, arith,
}
use safa_os.Threading.LinkedList.{LinkedList, current_of}
use safa_os.Threading.LinkedList
use safa_os.Threading.LinkedList.Nodes.{
  Ptr, Store, PointerList, push, remove_where, next_wrap, clone_iter,
}
use safa_os.Threading.LinkedList.Nodes.Refines.{node_at, Holds, StandsFor, next_wrap-StandsFor}
use safa_os.Threading.LinkedList.Nodes.Pushes.{push-StandsFor}
use safa_os.Threading.LinkedList.Nodes.Searches.{remove_where-StandsFor}
use safa_os.Threading.LinkedList.Nodes.Iterates.{yielded, clone_iter-yields}

abbrev ptrs : List Ptr
ptrs = 16 ∷ 32 ∷ []

abbrev list : LinkedList ℕ
list = record { items = 5 ∷ 7 ∷ []; current = some 1 }

abbrev store : Store ℕ
store p =
    if p == 16 then some (node_at ptrs 0 5) else if p == 32 then some (node_at ptrs 1 7) else none

abbrev this : PointerList
this = record { head = some 16; tail = some 32; current = some 32; len = 2 }

index_of : (i : ℕ) (p : Ptr) → get_elem? ptrs i ≡ some p → i ≡ (if p == 16 then 0 else 1)
index_of zero p h = let at = some-injective _ _ h in ground arith
index_of (suc zero) p h = let at = some-injective _ _ h in ground arith
index_of (suc (suc i)) p h = cc

store-Holds : Holds store ptrs list.items
store-Holds zero p h = (5, refl, rw (← some-injective _ _ h) refl)
store-Holds (suc zero) p h = (7, refl, rw (← some-injective _ _ h) refl)
store-Holds (suc (suc i)) p h = cc

inside : (i : ℕ) → list.current ≡ some i → suc i ≡ 2
inside i h = let at = some-injective _ _ h in omega arith

stands : StandsFor store this ptrs list
stands = record {
  chain = record {
    size = refl;
    distinct = λ i j p h k. index_of i p h ∙ sym (index_of j p k);
    holds = store-Holds;
    head = refl;
    tail = refl;
    len = refl;
  };
  current = refl;
  in_range = λ i h. let at = inside i h in omega arith;
}

push-StandsFor_example :
    (store' : Store ℕ) × (this' : PointerList) × (push store this 9 48 ≡ some (store', this'))
    × StandsFor store' this' (ptrs ++ 48 ∷ []) (LinkedList.push list 9)
push-StandsFor_example = push-StandsFor store this ptrs list 48 9 refl stands

remove_where-StandsFor_example :
    (store' : Store ℕ) × (this' : PointerList) × (ptrs' : List Ptr) × (remove_where store this
        (λ x. x == 7)
      ≡ some (store', this', (LinkedList.remove_where list (λ x. x == 7)).1))
    × StandsFor store' this' ptrs' (LinkedList.remove_where list (λ x. x == 7)).0
remove_where-StandsFor_example = remove_where-StandsFor store this ptrs list (λ x. x == 7) stands

abbrev moved : LinkedList ℕ
moved = record list { current = some 0 }

wraps : LinkedList.next_wrap list ≡ some moved
unfolding LinkedList.next_wrap
wraps = refl

next_wrap-StandsFor_example :
    (this' : PointerList) × (next_wrap store this ≡ some (this', current_of list))
    × StandsFor store this' ptrs moved
next_wrap-StandsFor_example = next_wrap-StandsFor store this ptrs list moved stands wraps

clone_iter-yields_example : yielded 3 store (clone_iter this) ≡ some (5 ∷ 7 ∷ [])
clone_iter-yields_example = clone_iter-yields store this ptrs list stands
