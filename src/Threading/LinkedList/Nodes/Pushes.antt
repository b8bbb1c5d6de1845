-- ===== src/Threading/LinkedList/Nodes/Pushes.antt =====
-- `push` on the nodes is `push` on the list.
use mathlib.Core.Option.{some-injective}
use safa_os.Prelude.{
  ℕ, zero, suc, ◌+◌, ◌<◌, ◌≡◌, ◌≢◌, refl, sym, ap, ◌∙◌, ==-refl, Option, none, some, List, [], ◌∷◌,
  ◌++◌, length, length-append, get_elem?, get_elem?-append_lt, arith,
}
use safa_os.Threading.LinkedList.{LinkedList}
use safa_os.Threading.LinkedList
use safa_os.Threading.LinkedList.Nodes.{Ptr, Store, PointerList, write, push_node, push}
use safa_os.Threading.LinkedList.Nodes.Refines.{
  ptr_before, ptr_at, node_at, Holds, Chain, StandsFor, node_of,
}
use safa_os.Threading.LinkedList.Nodes.Appends.{pushed, push-pushed, fresh-ne, append-Chain}

lt-ne : (a b : ℕ) → a < b → a ≢ b
lt-ne a b h = omega arith

ptr_at-append :
    (ptrs : List Ptr) (at : Ptr) (c : Option ℕ)
    → ((i : ℕ) → c ≡ some i → i < length ptrs)
    → ptr_at ptrs c ≡ ptr_at (ptrs ++ at ∷ []) c
ptr_at-append ptrs at none h = refl
ptr_at-append ptrs at (some i) h = sym (get_elem?-append_lt ptrs _ i (h i refl))

module _ {A : Type 0} where
  abbrev list_of : List A → Option ℕ → LinkedList A
  list_of items current = record { items = items; current = current }

  push_first :
      (items : List A) (c : Option ℕ) (value : A)
      → 0 ≡ length items
      → LinkedList.push (list_of items c) value ≡ list_of (value ∷ []) (some 0)
  unfolding LinkedList.push
  push_first [] c value h = refl
  push_first (x ∷ xs) c value h =
      let never : 0 ≢ suc (length xs) = omega arith in elim (never h) [ ]

  push_later :
      (items : List A) (c : Option ℕ) (value : A)
      → 0 < length items
      → LinkedList.push (list_of items c) value ≡ list_of (items ++ value ∷ []) c
  unfolding LinkedList.push
  push_later [] c value h = elim (lt-ne 0 0 h refl) [ ]
  push_later (x ∷ xs) c value h = refl

  single-Chain :
      (store : Store A) (at : Ptr) (value : A)
      → Chain
          (write store at (some (record { inner = value; next = none; prev = none })))
          (record { head = some at; tail = some at; current = some at; len = 1 })
          (at ∷ [])
          (value ∷ [])
  single-Chain store at value = record {
    size = refl;
    distinct = λ i j p h k. first i p h ∙ sym (first j p k);
    holds = holds_first;
    head = refl;
    tail = refl;
    len = refl;
  }
    where
      first : (i : ℕ) (p : Ptr) → get_elem? (at ∷ []) i ≡ some p → i ≡ 0
      first zero p h = refl
      first (suc i) p h = cc

      holds_first :
          Holds
            (write store at (some (record { inner = value; next = none; prev = none })))
            (at ∷ [])
            (value ∷ [])
      holds_first zero p h = (value, refl, rw (some-injective _ _ h, ==-refl p) refl)
      holds_first (suc i) p h = cc

  push_empty-StandsFor :
      (store : Store A) (this : PointerList) (list : LinkedList A) (at : Ptr) (value : A)
      → StandsFor store this [] list
      → (store' : Store A) × (this' : PointerList) × (push store this value at
          ≡ some (store', this'))
        × StandsFor store' this' (at ∷ []) (LinkedList.push list value)
  unfolding push push_node
  push_empty-StandsFor store this list at value stands = (
    write store at (some (record { inner = value; next = none; prev = none })),
    record { head = some at; tail = some at; current = some at; len = 1 },
    rw (stands.chain.tail, stands.chain.len) refl,
    rw (push_first list.items list.current value stands.chain.size) (record {
      chain = single-Chain store at value;
      current = refl;
      in_range = λ i h. rw (← some-injective _ _ h) (omega arith);
    }),
  )

  push_chain-StandsFor :
      (store : Store A) (this : PointerList) (ptrs : List Ptr) (list : LinkedList A) (at : Ptr)
      (value : A) (m : ℕ)
      → length ptrs ≡ suc m
      → store at ≡ none
      → StandsFor store this ptrs list
      → (store' : Store A) × (this' : PointerList) × (push store this value at
          ≡ some (store', this'))
        × StandsFor store' this' (ptrs ++ at ∷ []) (LinkedList.push list value)
  push_chain-StandsFor store this ptrs list at value m size fresh stands =
      let chain = stands.chain in
      let items = list.items in
      let (tail, last, e, found, node) =
        node_of store this ptrs items m chain (rw size (omega arith)) in
      let is_tail : this.tail ≡ some tail = chain.tail ∙ ap (ptr_before ptrs) size ∙ e in
      let built =
        append-Chain store this ptrs items at value fresh chain m tail last size e found in
      (
        pushed store at tail (node_at ptrs m last) value,
        record this { tail = some at; len = this.len + 1 },
        push-pushed store at tail (node_at ptrs m last) value
            (fresh-ne store this ptrs items at value fresh chain m tail e) this is_tail node,
        rw (push_later items list.current value (rw (← chain.size, size) (omega arith))) (record {
          chain = built;
          current = stands.current ∙ ptr_at-append ptrs at list.current stands.in_range;
          in_range = λ i h.
              rw (length-append ptrs (at ∷ [])) (let inside = stands.in_range i h in omega arith);
        }),
      )

-- A push of a value, in a new box, on a chain of nodes that stands for a list with a cursor
-- returns, and the chain with the new node behind its last one stands for the list that the push on
-- the list gives.
pub push-StandsFor :
    {A : Type 0} (store : Store A) (this : PointerList) (ptrs : List Ptr) (list : LinkedList A)
    (at : Ptr) (value : A)
    → store at ≡ none
    → StandsFor store this ptrs list
    → (store' : Store A) × (this' : PointerList) × (push store this value at ≡ some (store', this'))
      × StandsFor store' this' (ptrs ++ at ∷ []) (LinkedList.push list value)
push-StandsFor store this [] list at value fresh stands =
    push_empty-StandsFor store this list at value stands
push-StandsFor store this (p ∷ ps) list at value fresh stands =
    push_chain-StandsFor store this (p ∷ ps) list at value (length ps) refl fresh stands
