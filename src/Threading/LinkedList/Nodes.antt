-- ===== src/Threading/LinkedList/Nodes.antt =====
-- The nodes of `LinkedList` in kernel/src/utils/alloc.rs, with their pointers: a store gives the
-- node at an address, and `none` is a pointer that dangles or a loop that does not end. The field
-- `prev` of the list, which nothing reads or writes, is left out.
use safa_os.Prelude.{
  ℕ, zero, suc, ◌+◌, ◌-◌, ◌==◌, Bool, true, false, if◌then◌else◌, Option, none, some,
}
use safa_os.Prelude.Options.{◌>>=◌, ◌>>◌}
pub mod Refines
pub mod Appends
pub mod Skips
pub mod Unlinks
pub mod Pushes
pub mod Removes
pub mod Searches
pub mod Iterates

abbrev pub Ptr : Type 0
Ptr = ℕ

pub record Node {ℓ} (A : Type ℓ) : Type ℓ where
  pub inner : A
  pub next : Option Ptr
  pub prev : Option Ptr

abbrev pub Store {ℓ} : Type ℓ → Type ℓ
Store A = Ptr → Option (Node A)

pub record PointerList : Type 0 where
  pub head : Option Ptr
  pub tail : Option Ptr
  pub current : Option Ptr
  pub len : ℕ

abbrev pub new : PointerList
new = record { head = none; tail = none; current = none; len = 0 }

-- `ptr.is_some_and(|p| p == node)`
abbrev pub points_to : Option Ptr → Ptr → Bool
points_to none node = false
points_to (some p) node = p == node

abbrev or_head : Option Ptr → Option Ptr → Option Ptr
or_head none head = head
or_head (some node) head = some node

-- the iterator of `clone_iter`: it starts at the head, and its current node is none at its end
abbrev pub clone_iter : PointerList → PointerList
clone_iter this = record this { current = this.head }

module _ {ℓ} {A : Type ℓ} where
  abbrev pub write : Store A → Ptr → Option (Node A) → Store A
  write store p node q = if q == p then node else store q

  -- the writes through a pointer
  abbrev pub set_next : Store A → Ptr → Option Ptr → Option (Store A)
  set_next store p next =
      store p >>= λ node. some (write store p (some (record node { next = next })))

  abbrev pub set_prev : Store A → Ptr → Option Ptr → Option (Store A)
  set_prev store p prev =
      store p >>= λ node. some (write store p (some (record node { prev = prev })))

  unfoldable pub push_node : Store A → PointerList → Ptr → Option (Store A × PointerList)
  push_node store this node = elim this.tail [
    | some tail ↦ set_next store tail (some node) >>= λ linked.
        set_prev linked node (some tail) >>= λ linked_back.
        some (linked_back, record this { tail = some node; len = this.len + 1 })
    | none ↦ some (
      store,
      record { head = some node; tail = some node; current = some node; len = this.len + 1 },
    )
  ]

  -- `at` is the address of the new box
  unfoldable pub push : Store A → PointerList → A → Ptr → Option (Store A × PointerList)
  push store this value at =
      push_node (write store at (some (record { inner = value; next = none; prev = none }))) this at

  abbrev pub link_next : Store A → Option Ptr → Option Ptr → Option (Store A)
  link_next store none prev = some store
  link_next store (some next) prev = set_prev store next prev

  abbrev pub link_prev : Store A → Option Ptr → Option Ptr → Option (Store A)
  link_prev store none next = some store
  link_prev store (some prev) next = set_next store prev next

  abbrev pub without : PointerList → Ptr → Node A → PointerList
  without this node removed = record {
    head = if points_to this.head node then removed.next else this.head;
    tail = if points_to this.tail node then removed.prev else this.tail;
    current = if points_to this.current node then removed.prev else this.current;
    len = this.len - 1;
  }

  unfoldable pub remove_node : Store A → PointerList → Ptr → Option (Store A × PointerList × A)
  remove_node store this node = store node >>= λ removed.
      link_next store removed.next removed.prev >>= λ linked.
      link_prev linked removed.prev removed.next >>= λ linked_back.
      some (write linked_back node none, without this node removed, removed.inner)

  -- the loop of `remove_where`
  unfoldable pub find_node : ℕ → Store A → (A → Bool) → Option Ptr → Option (Option Ptr)
  find_node steps store condition none = some none
  find_node zero store condition (some node) = none
  find_node (suc steps) store condition (some node) = store node >>= λ at.
      let later = find_node steps store condition at.next in
      if condition at.inner then some (some node) else later

  pub removed_at : Store A → PointerList → Option Ptr → Option (Store A × PointerList × Option A)
  removed_at store this none = some (store, this, none)
  removed_at store this (some node) =
      remove_node store this node >>= λ removed. some (removed.0, removed.1, some removed.2)

  -- with a step for each node
  unfoldable pub remove_where :
      Store A → PointerList → (A → Bool) → Option (Store A × PointerList × Option A)
  remove_where store this condition =
      find_node this.len store condition this.head >>= removed_at store this

  -- `next`, whose result is none at the end
  unfoldable pub next : Store A → PointerList → Option (PointerList × Option A)
  next store this = elim this.current [
    | none ↦ some (this, none)
    | some current ↦ store current >>= λ at. elim at.next [
      | some node ↦
          store node >>= λ found. some (record this { current = some node }, some found.inner)
      | none ↦ some (this, none)
    ]
  ]

  -- `next_wrap`, with the element that it leaves
  unfoldable pub next_wrap : Store A → PointerList → Option (PointerList × Option A)
  next_wrap store this = elim this.current [
    | none ↦ some (this, none)
    | some current ↦ store current >>= λ at.
        some (record this { current = or_head at.next this.head }, some at.inner)
  ]

  unfoldable pub clone_iter_next : Store A → PointerList → Option (PointerList × Option A)
  clone_iter_next store list = elim list.current [
    | none ↦ some (list, none)
    | some it ↦ next store list >>= λ moved. store it >>= λ at. elim moved.1 [
      | some _ ↦ some (moved.0, some at.inner)
      | none ↦ some (record moved.0 { current = none }, some at.inner)
    ]
  ]
