-- ===== src/Threading/LinkedList/Nodes/Unlinks.antt =====
-- The writes of `remove_node` through the pointers of the removed node: what the nodes of the chain
-- hold behind each of them.
use mathlib.Core.Option.{some-injective}
use safa_os.Prelude.{
  ne→==_false, ==_false→ne, ℕ, zero, suc, ◌<◌, ◌≡◌, ◌≢◌, refl, sym, ap, ◌∙◌, Bool, true, false,
  ◌==◌, ==-refl, if◌then◌else◌, Option, none, some, List, get_elem?, Bool-cases, Option-cases, inl,
  inr, arith,
}
use safa_os.Threading.LinkedList.{remove_index}
use safa_os.Threading.LinkedList.Nodes.{Ptr, Node, Store, write, link_next, link_prev}
use safa_os.Threading.LinkedList.Nodes.Refines.{ptr_before, node_at}
use safa_os.Threading.LinkedList.Nodes.Skips.{skip, skip-suc, get_elem?-skip, ptr_before-skip}

==-suc : (a b : ℕ) → (suc a == suc b) ≡ (a == b)
==-suc a b = ground arith

abbrev pub Distinct : List Ptr → Type 0
Distinct ptrs = (i j : ℕ) (p : Ptr) → get_elem? ptrs i ≡ some p → get_elem? ptrs j ≡ some p → i ≡ j

get_elem?-if :
    (ptrs : List Ptr) (b : Bool) (m n : ℕ)
    → get_elem? ptrs (if b then m else n) ≡ (if b then get_elem? ptrs m else get_elem? ptrs n)
get_elem?-if ptrs true m n = refl
get_elem?-if ptrs false m n = refl

module _ {A : Type 0} where
  abbrev one_link : Bool → A → Option Ptr → Option Ptr → Option Ptr → Node A
  one_link c v next prev prev' =
      if c
      then record { inner = v; next = next; prev = prev' }
      else record { inner = v; next = next; prev = prev }

  both_links :
      (b c : Bool) (v : A) (next next' prev prev' : Option Ptr)
      → (if b
          then record (one_link c v next prev prev') { next = next' }
          else one_link c v next prev prev')
        ≡ record { inner = v; next = if b then next' else next; prev = if c then prev' else prev }
  both_links true true v next next' prev prev' = refl
  both_links true false v next next' prev prev' = refl
  both_links false true v next next' prev prev' = refl
  both_links false false v next next' prev prev' = refl

module _ {A : Type 0} (ptrs : List Ptr) (items : List A) where
  -- the node of each position is that of `node`
  abbrev pub HoldsAs : Store A → (ℕ → A → Node A) → Type 0
  HoldsAs store node =
      (k : ℕ) (x : Ptr) (v : A)
      → get_elem? ptrs k ≡ some x
      → get_elem? items k ≡ some v
      → store x ≡ some (node k v)

  abbrev pub node_back : ℕ → ℕ → A → Node A
  node_back i k v =
      if k == suc i
      then record (node_at ptrs k v) { prev = ptr_before ptrs i }
      else node_at ptrs k v

  abbrev pub node_both : ℕ → ℕ → A → Node A
  node_both i k v =
      if suc k == i
      then record (node_back i k v) { next = get_elem? ptrs (suc i) }
      else node_back i k v

  -- the nodes behind both writes are those of the chain without node `i`
  pub node_both-skip :
      (i j : ℕ) (v : A) → node_both i (skip i j) v ≡ node_at (remove_index ptrs i) j v
  node_both-skip i j v =
      let next : get_elem? (remove_index ptrs i) (suc j) ≡ (
          if suc (skip i j) == i then get_elem? ptrs (suc i) else get_elem? ptrs (suc (skip i j))) =
        get_elem?-skip ptrs i (suc j)
        ∙ ap (get_elem? ptrs) (skip-suc i j)
        ∙ get_elem?-if ptrs (suc (skip i j) == i) (suc i) (suc (skip i j)) in
      rw (next, ptr_before-skip ptrs i j)
        (both_links (suc (skip i j) == i) (skip i j == suc i) v (get_elem? ptrs (suc (skip i j))) _
          (ptr_before ptrs (skip i j)) _)

  module _ (distinct : Distinct ptrs) where
    write-HoldsAs :
        (store : Store A) (node : ℕ → A → Node A) (change : Node A → Node A) (n : ℕ) (q : Ptr)
        (w : A)
        → get_elem? ptrs n ≡ some q
        → get_elem? items n ≡ some w
        → HoldsAs store node
        → HoldsAs
            (write store q (some (change (node n w))))
            (λ k v. if k == n then change (node k v) else node k v)
    write-HoldsAs store node change n q w at of holds k x v e f = elim (Bool-cases (k == n)) [
      | inl h ↦
          let same : k ≡ n = ground arith in
          let here : q ≡ x = some-injective _ _ (sym at ∙ rw (← same) e) in
          let value : w ≡ v = some-injective _ _ (sym of ∙ rw (← same) f) in
          rw (h, ← here, ==-refl q, value, same) refl
      | inr h ↦
          let apart : x ≢ q =
            λ same. ==_false→ne k n h (distinct k n x e (at ∙ ap some (sym same))) in
          rw (h, ne→==_false x q apart) (holds k x v e f)
    ]

    pub link_next-HoldsAs :
        (store : Store A) (i : ℕ)
        → ((k : ℕ) (x : Ptr) → get_elem? ptrs k ≡ some x → (v : A) × (get_elem? items k ≡ some v))
        → HoldsAs store (node_at ptrs)
        → (linked : Store A) × (link_next store (get_elem? ptrs (suc i)) (ptr_before ptrs i)
            ≡ some linked)
          × HoldsAs linked (node_back i)
    link_next-HoldsAs store i full holds = elim (Option-cases (get_elem? ptrs (suc i))) [
      | inl last ↦ (
        store,
        rw last refl,
        λ k x v e f.
            let apart : (k == suc i) ≡ false =
              ne→==_false k (suc i)
                (λ same. let gone : get_elem? ptrs k ≡ none = rw same last in cc) in
            rw apart (holds k x v e f),
      )
      | inr (q, at) ↦
          let (w, of) = full (suc i) q at in
          let back = λ (node : Node A). record node { prev = ptr_before ptrs i } in
          (
            write store q (some (record (node_at ptrs (suc i) w) { prev = ptr_before ptrs i })),
            rw (at, holds (suc i) q w at of) refl,
            write-HoldsAs store (node_at ptrs) back (suc i) q w at of holds,
          )
    ]

    pub link_prev-HoldsAs :
        (linked : Store A) (i : ℕ)
        → ((k : ℕ)
            → k < i
            → (x : Ptr) × (v : A) × (get_elem? ptrs k ≡ some x) × (get_elem? items k ≡ some v))
        → HoldsAs linked (node_back i)
        → (both : Store A) × (link_prev linked (ptr_before ptrs i) (get_elem? ptrs (suc i))
            ≡ some both)
          × HoldsAs both (node_both i)
    link_prev-HoldsAs linked zero full holds =
        (linked, refl, λ k x v e f. rw (ne→==_false (suc k) 0 (omega arith)) (holds k x v e f))
    link_prev-HoldsAs linked (suc i) full holds =
        let (r, w, at, of) = full i (omega arith) in
        let forth = λ (node : Node A). record node { next = get_elem? ptrs (suc (suc i)) } in
        (
          write linked r
              (some (record (node_back (suc i) i w) { next = get_elem? ptrs (suc (suc i)) })),
          ap (λ prev. link_prev linked prev (get_elem? ptrs (suc (suc i)))) at
              ∙ rw (holds i r w at of) refl,
          λ k x v e f.
              rw (==-suc k i)
                (write-HoldsAs linked (node_back (suc i)) forth i r w at of holds k x v e f),
        )
