-- ===== src/Threading/LinkedList/Nodes/Removes.antt =====
-- `remove_node` on the nodes is `remove_node` on the list.
use mathlib.Core.Option.{some-injective}
use safa_os.Prelude.{
  ne→==_false, ==_false→ne, ℕ, zero, suc, ◌-◌, ◌<◌, ◌≤◌, ◌≡◌, ◌≢◌, refl, sym, ap, ◌∙◌, false, ltb,
  ◌==◌, ==-refl, if◌then◌else◌, Option, none, some, List, length, get_elem?, get_elem?-lt,
  Bool-cases, Option-cases, inl, inr, arith,
}
use safa_os.Threading.LinkedList.{LinkedList, remove_index, current_without, prev}
use safa_os.Threading.LinkedList
use safa_os.Threading.LinkedList.Nodes.{
  Ptr, Store, PointerList, write, points_to, without, remove_node,
}
use safa_os.Threading.LinkedList.Nodes.Refines.{
  ptr_before, ptr_at, node_at, Holds, Chain, StandsFor, node_of,
}
use safa_os.Threading.LinkedList.Nodes.Skips.{
  skip, skip-ne, skip-injective, get_elem?-skip, length-remove_index, ptr_before-skip, ptr_at-prev,
  get_elem?-cursor,
}
use safa_os.Threading.LinkedList.Nodes.Unlinks.{
  Distinct, HoldsAs, node_both, node_both-skip, link_next-HoldsAs, link_prev-HoldsAs,
}

-- whether a position's pointer is that of node `i`
points_to-index :
    (ptrs : List Ptr) (i k : ℕ) (p : Ptr)
    → Distinct ptrs
    → get_elem? ptrs i ≡ some p
    → points_to (get_elem? ptrs k) p ≡ (k == i)
points_to-index ptrs i k p distinct e = elim (Option-cases (get_elem? ptrs k)) [
  | inl out ↦
      let apart : (k == i) ≡ false =
        ne→==_false k i (λ same. let gone : get_elem? ptrs i ≡ none = rw (← same) out in cc) in
      rw (out, apart) refl
  | inr (q, at) ↦ elim (Bool-cases (k == i)) [
    | inl h ↦
        let same : k ≡ i = ground arith in
        let here : q ≡ p = some-injective _ _ (sym at ∙ rw same e) in
        rw (at, h, here, ==-refl p) refl
    | inr h ↦
        let apart : q ≢ p = λ same.
          let never : k ≢ i = ground arith in never (distinct k i q at (e ∙ ap some (sym same))) in
        rw (at, h, ne→==_false q p apart) refl
  ]
]

prev-suc : (c j : ℕ) → prev c ≡ some j → suc j ≡ c
prev-suc zero j h = cc
prev-suc (suc c) j h = ap suc (sym (some-injective _ _ h))

module _ (ptrs : List Ptr) (i : ℕ) (p : Ptr) (distinct : Distinct ptrs)
    (at : get_elem? ptrs i ≡ some p) where
  head_rest :
      (if points_to (get_elem? ptrs 0) p then get_elem? ptrs (suc i) else get_elem? ptrs 0)
      ≡ get_elem? (remove_index ptrs i) 0
  head_rest = elim (Bool-cases (0 == i)) [
    | inl h ↦
        let first : skip i 0 ≡ suc i = ground arith in
        rw (points_to-index ptrs i 0 p distinct at, h, get_elem?-skip ptrs i 0, first) refl
    | inr h ↦
        let first : skip i 0 ≡ 0 = ground arith in
        rw (points_to-index ptrs i 0 p distinct at, h, get_elem?-skip ptrs i 0, first) refl
  ]

  tail_rest :
      (m : ℕ)
      → i ≤ m
      → (if points_to (get_elem? ptrs m) p then ptr_before ptrs i else get_elem? ptrs m)
        ≡ ptr_before (remove_index ptrs i) m
  tail_rest m h =
      let last : skip i m ≡ suc m = ground arith in
      let same : (suc m == suc i) ≡ (m == i) = ground arith in
      rw (points_to-index ptrs i m p distinct at, ptr_before-skip ptrs i m, last, same) refl

  current_rest :
      (c : Option ℕ)
      → (if points_to (ptr_at ptrs c) p then ptr_before ptrs i else ptr_at ptrs c)
        ≡ ptr_at (remove_index ptrs i) (current_without i c)
  current_rest none = refl
  current_rest (some c) = elim (Bool-cases (c == i)) [
    | inl h ↦
        let same : c ≡ i = ground arith in
        rw (points_to-index ptrs i c p distinct at, h, same) (sym (ptr_at-prev ptrs i))
    | inr h ↦
        rw (points_to-index ptrs i c p distinct at, h)
          (sym (get_elem?-cursor ptrs i c (==_false→ne c i h)))
  ]

  current_rest-lt :
      (c : Option ℕ) (j : ℕ)
      → ((k : ℕ) → c ≡ some k → k < length ptrs)
      → current_without i c ≡ some j
      → j < length (remove_index ptrs i)
  current_rest-lt none j inside h = cc
  current_rest-lt (some c) j inside h =
      let shorter = length-remove_index ptrs i (get_elem?-lt ptrs i p at) in
      let within = get_elem?-lt ptrs i p at in
      let old = inside c refl in
      elim (Bool-cases (c == i)) [
        | inl same ↦ let before = prev-suc c j (rw same at h) in omega arith
        | inr apart ↦
            let here : (if ltb i c then c - 1 else c) ≡ j = some-injective _ _ (rw apart at h) in
            ground arith
      ]

module _ {A : Type 0} (store : Store A) (this : PointerList) (ptrs : List Ptr) (items : List A)
    (i : ℕ) (p : Ptr) (value : A) (chain : Chain store this ptrs items)
    (at : get_elem? ptrs i ≡ some p) (found : get_elem? items i ≡ some value) where
  abbrev rest : PointerList
  rest = without this p (node_at ptrs i value)

  -- the store behind the three writes
  unlinked :
      (both : Store A) × HoldsAs ptrs items both (node_both ptrs items i)
      × (remove_node store this p ≡ some (write both p none, rest, value))
  unfolding remove_node
  unlinked =
      let holds : HoldsAs ptrs items store (node_at ptrs) = λ k x v e f.
        let (w, g, node) = chain.holds k x e in
        let same : w ≡ v = some-injective _ _ (sym g ∙ f) in rw (← same) node in
      let (linked, next_done, back) =
        link_next-HoldsAs ptrs items chain.distinct store i
          (λ k x e. let (w, g, _) = chain.holds k x e in (w, g)) holds in
      let (both, prev_done, done) =
        link_prev-HoldsAs ptrs items chain.distinct linked i
          (λ k h.
            let inside : k < length ptrs = let bound = get_elem?-lt ptrs i p at in omega arith in
            let (x, v, e, f, _) = node_of store this ptrs items k chain inside in (x, v, e, f))
          back in
      (both, done, rw (holds i p value at found, next_done, prev_done) refl)

  rest-Holds :
      (both : Store A)
      → HoldsAs ptrs items both (node_both ptrs items i)
      → Holds (write both p none) (remove_index ptrs i) (remove_index items i)
  rest-Holds both done j x e =
      let from : get_elem? ptrs (skip i j) ≡ some x = sym (get_elem?-skip ptrs i j) ∙ e in
      let (v, f, _) = chain.holds (skip i j) x from in
      let apart : x ≢ p =
        λ same. skip-ne i j (chain.distinct (skip i j) i x from (at ∙ ap some (sym same))) in
      (
        v,
        get_elem?-skip items i j ∙ f,
        rw (ne→==_false x p apart)
            (done (skip i j) x v from f ∙ ap some (node_both-skip ptrs items i j v)),
      )

  rest-Chain :
      (both : Store A)
      → HoldsAs ptrs items both (node_both ptrs items i)
      → Chain (write both p none) rest (remove_index ptrs i) (remove_index items i)
  rest-Chain both done = record {
    size =
        let a = length-remove_index ptrs i (get_elem?-lt ptrs i p at) in
        let b = length-remove_index items i (get_elem?-lt items i value found) in
        let c = chain.size in omega arith;
    distinct = λ j k x e f. skip-injective i j k (
        chain.distinct (skip i j) (skip i k) x (sym (get_elem?-skip ptrs i j) ∙ e)
          (sym (get_elem?-skip ptrs i k) ∙ f));
    holds = rest-Holds both done;
    head = rw chain.head (head_rest ptrs i p chain.distinct at);
    tail =
        let longer = length-remove_index ptrs i (get_elem?-lt ptrs i p at) in
        let last : this.tail ≡ get_elem? ptrs (length (remove_index ptrs i)) =
          chain.tail ∙ ap (ptr_before ptrs) (sym longer) in
        let inside : i ≤ length (remove_index ptrs i) =
          let bound = get_elem?-lt ptrs i p at in omega arith in
        rw last (tail_rest ptrs i p chain.distinct at _ inside);
    len =
        let a = length-remove_index ptrs i (get_elem?-lt ptrs i p at) in
        let c = chain.len in omega arith;
  }

-- The removal of the node at a position, on a chain of nodes that stands for a list with a cursor,
-- returns with the element of the position, and the chain without the node stands for the list
-- that `remove_node` on the list gives.
pub remove_node-StandsFor :
    {A : Type 0} (store : Store A) (this : PointerList) (ptrs : List Ptr) (list : LinkedList A)
    (i : ℕ) (p : Ptr)
    → get_elem? ptrs i ≡ some p
    → StandsFor store this ptrs list
    → (store' : Store A) × (this' : PointerList) × (value : A) × (get_elem? list.items i
        ≡ some value)
      × (remove_node store this p ≡ some (store', this', value))
      × StandsFor store' this' (remove_index ptrs i) (LinkedList.remove_node list i)
unfolding LinkedList.remove_node
remove_node-StandsFor store this ptrs list i p at stands =
    let chain = stands.chain in
    let (value, found, _) = chain.holds i p at in
    let (both, done, removed) = unlinked store this ptrs list.items i p value chain at found in
    (
      write both p none,
      without this p (node_at ptrs i value),
      value,
      found,
      removed,
      record {
        chain = rest-Chain store this ptrs list.items i p value chain at found both done;
        current = rw stands.current (current_rest ptrs i p chain.distinct at list.current);
        in_range =
            λ j h. current_rest-lt ptrs i p chain.distinct at list.current j stands.in_range h;
      },
    )
