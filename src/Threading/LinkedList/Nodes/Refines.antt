-- ===== src/Threading/LinkedList/Nodes/Refines.antt =====
-- A chain of nodes stands for a list with a cursor.
use mathlib.Core.Option.{some-injective}
use safa_os.Prelude.{
  ℕ, zero, suc, ◌+◌, ◌<◌, ◌≡◌, refl, sym, ap, ◌∙◌, ltb, Option, none, some, List, length, get_elem?,
  get_elem?-none_of_le, get_elem?-some_of_lt, Bool-cases, Option-cases, inl, inr, arith,
}
use safa_os.Threading.LinkedList.{LinkedList, next_position, current_of}
use safa_os.Threading.LinkedList
use safa_os.Threading.LinkedList.Nodes.{Ptr, Node, Store, PointerList, or_head, next_wrap}

-- the pointer before position `i`
abbrev pub ptr_before : List Ptr → ℕ → Option Ptr
ptr_before ptrs zero = none
ptr_before ptrs (suc i) = get_elem? ptrs i

-- the pointer at the cursor
abbrev pub ptr_at : List Ptr → Option ℕ → Option Ptr
ptr_at ptrs none = none
ptr_at ptrs (some i) = get_elem? ptrs i

or_head-next_position :
    (ptrs : List Ptr) (i : ℕ)
    → i < length ptrs
    → or_head (get_elem? ptrs (suc i)) (get_elem? ptrs 0)
      ≡ get_elem? ptrs (next_position (length ptrs) i)
or_head-next_position ptrs i h =
    let one : i + 1 ≡ suc i = omega arith in
    elim (Bool-cases (ltb (suc i) (length ptrs))) [
      | inl inside ↦
          let (p, e) = get_elem?-some_of_lt ptrs (suc i) (ground arith) in rw (one, inside, e) refl
      | inr end ↦ rw (one, end, get_elem?-none_of_le ptrs (suc i) (ground arith)) refl
    ]

next_position-lt : (size i : ℕ) → i < size → next_position size i < size
next_position-lt size i h = ground arith

module _ {A : Type 0} where
  abbrev pub node_at : List Ptr → ℕ → A → Node A
  node_at ptrs i value = record {
    inner = value;
    next = get_elem? ptrs (suc i);
    prev = ptr_before ptrs i;
  }

  -- The node at each pointer holds the element of its position and the pointers beside it.
  abbrev pub Holds : Store A → List Ptr → List A → Type 0
  Holds store ptrs items =
      (i : ℕ) (p : Ptr)
      → get_elem? ptrs i ≡ some p
      → (value : A) × (get_elem? items i ≡ some value) × (store p ≡ some (node_at ptrs i value))

  -- The chain of nodes from the head to the tail is that of the pointers, which all differ.
  pub record Chain (store : Store A) (this : PointerList) (ptrs : List Ptr) (items : List A)
      : Type 0 where
    pub size : length ptrs ≡ length items
    pub distinct :
        (i j : ℕ) (p : Ptr) → get_elem? ptrs i ≡ some p → get_elem? ptrs j ≡ some p → i ≡ j
    pub holds : Holds store ptrs items
    pub head : this.head ≡ get_elem? ptrs 0
    pub tail : this.tail ≡ ptr_before ptrs (length ptrs)
    pub len : this.len ≡ length ptrs

  -- Such a chain stands for the list with its cursor.
  pub record StandsFor (store : Store A) (this : PointerList) (ptrs : List Ptr)
      (list : LinkedList A) : Type 0 where
    pub chain : Chain store this ptrs list.items
    pub current : this.current ≡ ptr_at ptrs list.current
    pub in_range : (i : ℕ) → list.current ≡ some i → i < length ptrs

  -- what the node of a position in the chain holds
  pub node_of :
      (store : Store A) (this : PointerList) (ptrs : List Ptr) (items : List A) (i : ℕ)
      → Chain store this ptrs items
      → i < length ptrs
      → (p : Ptr) × (value : A) × (get_elem? ptrs i ≡ some p)
        × (get_elem? items i ≡ some value)
        × (store p ≡ some (node_at ptrs i value))
  node_of store this ptrs items i chain h =
      let (p, e) = get_elem?-some_of_lt ptrs i h in
      let (value, at, node) = chain.holds i p e in (p, value, e, at, node)

  abbrev at_cursor : List A → ℕ → LinkedList A
  at_cursor items i = record { items = items; current = some i }

  with_cursor-Chain :
      {store : Store A} {this : PointerList} {ptrs : List Ptr} {items : List A} (c : Option Ptr)
      → Chain store this ptrs items
      → Chain store (record this { current = c }) ptrs items
  with_cursor-Chain c chain = record {
    size = chain.size;
    distinct = chain.distinct;
    holds = chain.holds;
    head = chain.head;
    tail = chain.tail;
    len = chain.len;
  }

  -- `next_wrap` on the nodes moves the cursor as it does on the list, and yields the element that
  -- it leaves.
  pub next_wrap-StandsFor :
      (store : Store A) (this : PointerList) (ptrs : List Ptr) (list moved : LinkedList A)
      → StandsFor store this ptrs list
      → LinkedList.next_wrap list ≡ some moved
      → (this' : PointerList) × (next_wrap store this ≡ some (this', current_of list))
        × StandsFor store this' ptrs moved
  unfolding next_wrap LinkedList.next_wrap current_of
  next_wrap-StandsFor store this ptrs list moved stands h = elim (Option-cases list.current) [
    | inl no_cursor ↦ let stuck : LinkedList.next_wrap list ≡ none = rw no_cursor refl in cc
    | inr (i, at) ↦
        let items = list.items in
        let inside : i < length ptrs = stands.in_range i at in
        let (p, value, e, found, node) = node_of store this ptrs items i stands.chain inside in
        let here : this.current ≡ some p = stands.current ∙ ap (ptr_at ptrs) at ∙ e in
        let goes : LinkedList.next_wrap list
            ≡ some (at_cursor items (next_position (length items) i)) =
          rw at refl in
        let same : at_cursor items (next_position (length items) i) ≡ moved =
          some-injective _ _ (sym goes ∙ h) in
        (
          record this { current = or_head (get_elem? ptrs (suc i)) this.head },
          rw (here, node, at, found) refl,
          rw (← same) (record {
            chain = with_cursor-Chain _ stands.chain;
            current =
                rw (stands.chain.head, ← stands.chain.size) (or_head-next_position ptrs i inside);
            in_range = λ j h.
                rw (← some-injective _ _ h, ← stands.chain.size)
                  (next_position-lt (length ptrs) i inside);
          }),
        )
  ]
