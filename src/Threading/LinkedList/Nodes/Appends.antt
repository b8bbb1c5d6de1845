-- ===== src/Threading/LinkedList/Nodes/Appends.antt =====
-- A push behind the last node: the store that the writes leave, and its chain with the new node at
-- its end.
use mathlib.Core.Option.{some-injective}
use safa_os.Prelude.{
  ne→==_false, ℕ, zero, suc, ◌+◌, ◌<◌, ◌≤◌, ◌≡◌, ◌≢◌, refl, sym, ap, ◌∙◌, ◌==◌, ==-refl, none, some,
  List, [], ◌∷◌, ◌++◌, length, length-append, get_elem?, get_elem?-lt, get_elem?-none_of_le,
  get_elem?-append_lt, get_elem?-append_length, get_elem?-append_last, Bool-cases, inl, inr, arith,
}
use safa_os.Threading.LinkedList.Nodes.{Ptr, Node, Store, PointerList, write, push_node, push}
use safa_os.Threading.LinkedList.Nodes.Refines.{ptr_before, node_at, Holds, Chain}

module _ {A : Type 0} (store : Store A) (at tail : Ptr) (node : Node A) (value : A) where
  -- the store behind `push`, when `tail` is the last node
  abbrev pub pushed : Store A
  pushed =
      write
        (write (write store at (some (record { inner = value; next = none; prev = none }))) tail
          (some (record node { next = some at })))
        at (some (record { inner = value; next = none; prev = some tail }))

  module _ (apart : at ≢ tail) where
    pushed-at : pushed at ≡ some (record { inner = value; next = none; prev = some tail })
    pushed-at = rw (==-refl at) refl

    pushed-tail : pushed tail ≡ some (record node { next = some at })
    pushed-tail = rw (ne→==_false tail at (λ e. apart (sym e)), ==-refl tail) refl

    pushed-ne : (q : Ptr) → q ≢ at → q ≢ tail → pushed q ≡ store q
    pushed-ne q h k = rw (ne→==_false q at h, ne→==_false q tail k) refl

    pub push-pushed :
        (this : PointerList)
        → this.tail ≡ some tail
        → store tail ≡ some node
        → push store this value at
          ≡ some (pushed, record this { tail = some at; len = this.len + 1 })
    unfolding push push_node
    push-pushed this is_tail found =
        rw
          (
            is_tail,
            ne→==_false tail at (λ e. apart (sym e)),
            found,
            ne→==_false at tail apart,
            ==-refl at,
          )
          refl

module _ {A : Type 0} (store : Store A) (this : PointerList) (ptrs : List Ptr) (items : List A)
    (at : Ptr) (value : A) (fresh : store at ≡ none) (chain : Chain store this ptrs items) where
  pub fresh-ne : (i : ℕ) (p : Ptr) → get_elem? ptrs i ≡ some p → at ≢ p
  fresh-ne i p e same =
      let (v, _, node) = chain.holds i p e in let gone : store p ≡ none = rw (← same) fresh in cc

  append-distinct :
      (i j : ℕ) (p : Ptr)
      → get_elem? (ptrs ++ at ∷ []) i ≡ some p
      → get_elem? (ptrs ++ at ∷ []) j ≡ some p
      → i ≡ j
  append-distinct i j p h k = elim (get_elem?-append_last ptrs at i p h) [
    | inl a ↦ elim (get_elem?-append_last ptrs at j p k) [
      | inl b ↦ chain.distinct i j p a b
      | inr (_, same) ↦ elim (fresh-ne i p a same) [ ]
    ]
    | inr (e, same) ↦ elim (get_elem?-append_last ptrs at j p k) [
      | inl b ↦ elim (fresh-ne j p b same) [ ]
      | inr (f, _) ↦ e ∙ sym f
    ]
  ]

  append-size : length (ptrs ++ at ∷ []) ≡ length (items ++ value ∷ [])
  append-size = length-append ptrs _ ∙ ap (λ n. n + 1) chain.size ∙ sym (length-append items _)

  append-longer : length (ptrs ++ at ∷ []) ≡ suc (length ptrs)
  append-longer = rw (length-append ptrs (at ∷ [])) (omega arith)

  ptr_before-append : (i : ℕ) → i ≤ length ptrs → ptr_before (ptrs ++ at ∷ []) i ≡ ptr_before ptrs i
  ptr_before-append zero h = refl
  ptr_before-append (suc i) h = get_elem?-append_lt ptrs _ i (omega arith)

  -- `tail` is the last pointer, and `last` its element
  module _ (m : ℕ) (tail : Ptr) (last : A) (size : length ptrs ≡ suc m)
      (at_tail : get_elem? ptrs m ≡ some tail) (of_tail : get_elem? items m ≡ some last) where
    abbrev behind : Store A
    behind = pushed store at tail (node_at ptrs m last) value

    behind-before :
        (i : ℕ) (p : Ptr) (v : A)
        → get_elem? ptrs i ≡ some p
        → i ≢ m
        → store p ≡ some (node_at ptrs i v)
        → behind p ≡ some (node_at (ptrs ++ at ∷ []) i v)
    behind-before i p v e before node =
        let in_list : i < suc m = rw (← size) (get_elem?-lt ptrs i p e) in
        let inside : suc i < length ptrs = rw size (ground arith) in
        let apart : p ≢ tail =
          λ same. before (chain.distinct i m p e (at_tail ∙ ap some (sym same))) in
        pushed-ne store at tail (node_at ptrs m last) value (fresh-ne m tail at_tail) p
          (λ same. fresh-ne i p e (sym same)) apart
        ∙ node
        ∙ rw (get_elem?-append_lt ptrs (at ∷ []) (suc i) inside, ptr_before-append i (omega arith))
            refl

    behind-tail : behind tail ≡ some (node_at (ptrs ++ at ∷ []) m last)
    behind-tail =
        let next : get_elem? (ptrs ++ at ∷ []) (suc m) ≡ some at =
          rw (← size) (get_elem?-append_length ptrs at) in
        pushed-tail store at tail (node_at ptrs m last) value (fresh-ne m tail at_tail)
        ∙ rw (next, ptr_before-append m (omega arith)) refl

    behind-new : behind at ≡ some (node_at (ptrs ++ at ∷ []) (length ptrs) value)
    behind-new =
        let prev : get_elem? (ptrs ++ at ∷ []) m ≡ some tail =
          get_elem?-append_lt ptrs _ m (omega arith) ∙ at_tail in
        let end : get_elem? (ptrs ++ at ∷ []) (suc (suc m)) ≡ none =
          get_elem?-none_of_le (ptrs ++ at ∷ []) (suc (suc m))
            (rw (length-append ptrs (at ∷ []), size) (omega arith)) in
        pushed-at store at tail (node_at ptrs m last) value (fresh-ne m tail at_tail)
        ∙ rw (size, prev, end) refl

    -- the nodes of the chain with one more behind the last
    append-Holds : Holds behind (ptrs ++ at ∷ []) (items ++ value ∷ [])
    append-Holds i p h = elim (get_elem?-append_last ptrs at i p h) [
      | inl old ↦
          let (v, found, node) = chain.holds i p old in
          let kept : get_elem? (items ++ value ∷ []) i ≡ some v =
            get_elem?-append_lt items (value ∷ []) i (get_elem?-lt items i v found) ∙ found in
          elim (Bool-cases (i == m)) [
            | inl same ↦
                let e : i ≡ m = ground arith in
                let is_tail : tail ≡ p = some-injective _ _ (sym at_tail ∙ rw (← e) old) in
                let found : get_elem? (items ++ value ∷ []) m ≡ some last =
                  get_elem?-append_lt items _ m (get_elem?-lt items m last of_tail) ∙ of_tail in
                (last, rw e found, rw (← is_tail, e) behind-tail)
            | inr before ↦ (v, kept, behind-before i p v old (ground arith) node)
          ]
      | inr (at_end, same) ↦ (
        value,
        rw (at_end, chain.size) (get_elem?-append_length items value),
        rw (← same, at_end) behind-new,
      )
    ]

    pub append-Chain :
        Chain behind
          (record this { tail = some at; len = this.len + 1 })
          (ptrs ++ at ∷ [])
          (items ++ value ∷ [])
    append-Chain = record {
      size = append-size;
      distinct = append-distinct;
      holds = append-Holds;
      head = chain.head ∙ sym (get_elem?-append_lt ptrs _ 0 (omega arith));
      tail = rw append-longer (sym (get_elem?-append_length ptrs at));
      len = rw (length-append ptrs (at ∷ [])) (ap (λ n. n + 1) chain.len);
    }
