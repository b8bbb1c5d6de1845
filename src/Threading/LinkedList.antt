-- ===== src/Threading/LinkedList.antt =====
-- `LinkedList` of kernel/src/utils/alloc.rs, with its cursor. The nodes are listed in the order of
-- their `next` links, and a pointer to a node is its position: `head` is position 0, `tail` the
-- last one, and a node's `prev` and `next` are its neighbours.
pub mod Nodes
mod Tests
use safa_os.Prelude.{
  ℕ, zero, suc, ◌+◌, ◌-◌, ◌==◌, ltb, Bool, if◌then◌else◌, Option, none, some, List, [], ◌∷◌, ◌++◌,
  length, get_elem?, set,
}

pub record LinkedList {ℓ} (A : Type ℓ) : Type ℓ where
  pub items : List A
  pub current : Option ℕ

-- the position before, which is none at the head
abbrev pub prev : ℕ → Option ℕ
prev zero = none
prev (suc i) = some i

-- the position that the current node has when node `i` is gone; the current node itself gives way
-- to the one before it
abbrev pub current_without : ℕ → Option ℕ → Option ℕ
current_without i none = none
current_without i (some c) = if c == i then prev c else some (if ltb i c then c - 1 else c)

-- the position behind `i`, around the end
abbrev pub next_position : ℕ → ℕ → ℕ
next_position size i = if ltb (i + 1) size then i + 1 else 0

module _ {ℓ} {A : Type ℓ} where
  abbrev pub new : LinkedList A
  new = record { items = []; current = none }

  -- `push` and `push_node`: the first node becomes the current one
  unfoldable pub push : LinkedList A → A → LinkedList A
  push this value = record {
    items = this.items ++ value ∷ [];
    current = elim this.items [ [] ↦ some 0 | _ ∷ _ ↦ this.current ];
  }

  abbrev pub remove_index : List A → ℕ → List A
  remove_index [] i = []
  remove_index (x ∷ xs) zero = xs
  remove_index (x ∷ xs) (suc i) = x ∷ remove_index xs i

  pub remove_node : LinkedList A → ℕ → LinkedList A
  remove_node this i = record {
    items = remove_index this.items i;
    current = current_without i this.current;
  }

  -- the first position from `i` on that satisfies the condition
  pub find_index : (A → Bool) → List A → ℕ → Option (ℕ × A)
  find_index condition [] i = none
  find_index condition (x ∷ xs) i =
      let later = find_index condition xs (i + 1) in if condition x then some (i, x) else later

  pub remove_where : LinkedList A → (A → Bool) → LinkedList A × Option A
  remove_where this condition = elim (find_index condition this.items 0) [
    | some (i, x) ↦ (remove_node this i, some x)
    | none ↦ (this, none)
  ]

  -- the list with its cursor moved on, whose new element the iterator yields; `none` when there is
  -- no current element
  unfoldable pub next_wrap : LinkedList A → Option (LinkedList A)
  next_wrap this = elim this.current [
    | none ↦ none
    | some c ↦ some (record this { current = some (next_position (length this.items) c) })
  ]

  -- the current element, and a write of it
  unfoldable pub current_of : LinkedList A → Option A
  current_of this = elim this.current [ none ↦ none | some c ↦ get_elem? this.items c ]

  unfoldable pub set_current : LinkedList A → A → LinkedList A
  set_current this value = elim this.current [
    | none ↦ this
    | some c ↦ record this { items = set this.items c value }
  ]
