-- ===== src/Threading/Resources/Table.antt =====
-- Adding to and removing from the table of kernel/src/threading/resources.rs.
use safa_os.Prelude.{
  ℕ, zero, suc, ◌+◌, ◌-◌, ◌≤◌, ◌<◌, ◌≡◌, ◌≢◌, refl, sym, ◌∙◌, ltb, if◌then◌else◌, true, false, none,
  some, List, [], ◌∷◌, ◌++◌, length, get_elem?, set, drop, arith, inl, inr, Option-cases, ok,
  get_elem?-set_self, get_elem?-set_ne, get_elem?-append_lt, get_elem?-append_length,
  get_elem?-none_of_le, length-set, length-drop, length-append,
}
use mathlib.Core.Option.{some-injective}
use native.Mathlib.Decide.{dec_lt}
use safa_os.Threading.Resources.{
  Resource, null, file, dir_iter, ResourceManager, find_null, add_resource, remove_resource, get,
  in_use, IsPacked,
}

in_use-suc :
    (x : Resource) (rs : List Resource) (k : ℕ)
    → in_use (x ∷ []) 0 ≡ true
    → ((j : ℕ) → j < k → in_use rs j ≡ true)
    → (j : ℕ) → j < suc k
    → in_use (x ∷ rs) j ≡ true
in_use-suc x rs k live below zero lt = live
in_use-suc x rs k live below (suc j) lt = below j (omega arith)

-- where `find_null` stops: at the first empty place
find_null-first :
    (rs : List Resource) (base ri : ℕ)
    → find_null rs base ≡ some ri
    → (k : ℕ) × (ri ≡ base + k)
      × (k < length rs)
      × (in_use rs k ≡ false)
      × ((j : ℕ) → j < k → in_use rs j ≡ true)
unfolding find_null
find_null-first [] base ri h = cc
find_null-first (null ∷ rs) base ri h =
    (0, omega (arith, some-injective base ri h), omega arith, refl, λ j lt. ground (arith, lt))
find_null-first (file fd ∷ rs) base ri h =
    let (k, e, lt, free, below) = find_null-first rs (base + 1) ri h in
    (suc k, omega (arith, e), omega (arith, lt), free, in_use-suc (file fd) rs k refl below)
find_null-first (dir_iter it ∷ rs) base ri h =
    let (k, e, lt, free, below) = find_null-first rs (base + 1) ri h in
    (suc k, omega (arith, e), omega (arith, lt), free, in_use-suc (dir_iter it) rs k refl below)

find_null-none :
    (rs : List Resource) (base : ℕ)
    → find_null rs base ≡ none
    → (j : ℕ) → j < length rs
    → in_use rs j ≡ true
unfolding find_null
find_null-none [] base h j lt = ground (arith, lt)
find_null-none (null ∷ rs) base h j lt = cc
find_null-none (file fd ∷ rs) base h zero lt = refl
find_null-none (file fd ∷ rs) base h (suc j) lt = find_null-none rs (base + 1) h j (omega arith)
find_null-none (dir_iter it ∷ rs) base h zero lt = refl
find_null-none (dir_iter it ∷ rs) base h (suc j) lt = find_null-none rs (base + 1) h j (omega arith)

in_use-drop : (n : ℕ) (rs : List Resource) (j : ℕ) → in_use (drop n rs) j ≡ in_use rs (n + j)
in_use-drop zero rs j = let z : 0 + j ≡ j = omega arith in rw z refl
in_use-drop (suc n) [] j = refl
in_use-drop (suc n) (x ∷ rs) j =
    let z : suc n + j ≡ suc (n + j) = omega arith in rw z (in_use-drop n rs j)

-- below the end of a run of used places that starts at `n`
used_up_to :
    (n k : ℕ) (rs : List Resource)
    → ((j : ℕ) → j < n → in_use rs j ≡ true)
    → ((j : ℕ) → j < k → in_use (drop n rs) j ≡ true)
    → (j : ℕ) → j < n + k
    → in_use rs j ≡ true
used_up_to n k rs low high j lt = elim (dec_lt j n) [
  | yes small ↦ low j small
  | no big ↦
      let z : n + (j - n) ≡ j = omega arith in
      rw (← z) (sym (in_use-drop n rs (j - n)) ∙ high (j - n) (omega arith))
]

-- what `add_resource` promises about the table before, the table after and the index
pub record Added (this after : ResourceManager) (resource : Resource) (ri : ℕ) : Type 0 where
  pub found : get after ri ≡ some resource
  pub free : in_use this.resources ri ≡ false
  pub lowest : (j : ℕ) → j < ri → in_use this.resources j ≡ true
  pub others : (j : ℕ) → j ≢ ri → get_elem? after.resources j ≡ get_elem? this.resources j
  pub packed : IsPacked after

get_of_elem :
    (this : ResourceManager) (ri : ℕ) (r : Resource)
    → get_elem? this.resources ri ≡ some r
    → get this ri ≡ some r
unfolding get
get_of_elem this ri r e = ground (arith, e, get_elem?-none_of_le this.resources ri)

in_use_eq :
    (rs rs' : List Resource) (j : ℕ)
    → get_elem? rs' j ≡ get_elem? rs j
    → in_use rs j ≡ true
    → in_use rs' j ≡ true
in_use_eq rs rs' j e h = rw (e, in_use) h

filled-Added :
    (this : ResourceManager) (resource : Resource) (ri : ℕ)
    → ri < length this.resources
    → in_use this.resources ri ≡ false
    → ((j : ℕ) → j < ri → in_use this.resources j ≡ true)
    → Added this (record { resources = set this.resources ri resource; next_ri = ri }) resource ri
filled-Added this resource ri lt free lowest =
    let after : ResourceManager = record {
      resources = set this.resources ri resource;
      next_ri = ri;
    } in
    let others : (j : ℕ)
        → j ≢ ri
        → get_elem? (set this.resources ri resource) j ≡ get_elem? this.resources j =
      λ j ne. get_elem?-set_ne this.resources ri j resource (λ e. ne (sym e)) in
    record {
      found = get_of_elem after ri resource (get_elem?-set_self this.resources ri resource lt);
      free = free;
      lowest = lowest;
      others = others;
      packed = record {
        bound = omega (arith, lt, length-set this.resources ri resource);
        used = λ j below. in_use_eq this.resources _ j (others j (omega arith)) (lowest j below);
      };
    }

appended-Added :
    (this : ResourceManager) (resource : Resource)
    → ((j : ℕ) → j < length this.resources → in_use this.resources j ≡ true)
    → Added this
        (record { resources = this.resources ++ resource ∷ []; next_ri = length this.resources })
        resource
        (length this.resources)
appended-Added this resource all =
    let n = length this.resources in
    let after : ResourceManager = record {
      resources = this.resources ++ resource ∷ [];
      next_ri = n;
    } in
    record {
      found = get_of_elem after n resource (get_elem?-append_length this.resources resource);
      free = ground (arith, get_elem?-none_of_le this.resources n);
      lowest = all;
      others = λ j ne. elim (dec_lt j n) [
        | yes lt ↦ get_elem?-append_lt this.resources (resource ∷ []) j lt
        | no le ↦
            get_elem?-none_of_le (this.resources ++ resource ∷ []) j
              (omega (arith, length-append this.resources (resource ∷ []), le, ne))
            ∙ sym (get_elem?-none_of_le this.resources j (omega arith))
      ];
      packed = record {
        bound = omega (arith, length-append this.resources (resource ∷ []));
        used = λ j below.
            in_use_eq this.resources _ j
              (get_elem?-append_lt this.resources (resource ∷ []) j below) (all j below);
      };
    }

-- On a table whose places below `next_ri` are all in use, `add_resource` does not panic. It returns
-- the lowest index that was free, `get` of that index is the resource, no other index that was in
-- use changes, and the places below the new `next_ri` are in use again.
pub add_resource-lowest :
    (this : ResourceManager) (resource : Resource)
    → IsPacked this
    → (after : ResourceManager) × (ri : ℕ) × (add_resource this resource ≡ some (after, ri))
      × Added this after resource ri
unfolding add_resource
add_resource-lowest this resource p =
    let rest = drop this.next_ri this.resources in
    let n = length this.resources in
    elim (Option-cases (find_null rest this.next_ri)) [
      | inr (ri, e) ↦
          let (k, at, lt, free, below) = find_null-first rest this.next_ri ri e in
          let low = used_up_to this.next_ri k this.resources p.used below in
          let here : in_use this.resources ri ≡ false =
            rw at (sym (in_use-drop this.next_ri this.resources k) ∙ free) in
          let short : ri < n = omega (arith, at, lt, length-drop this.next_ri this.resources) in
          (
            record { resources = set this.resources ri resource; next_ri = ri },
            ri,
            ground (arith, e, p.bound),
            filled-Added this resource ri short here (λ j less. low j (omega (arith, at, less))),
          )
      | inl e ↦
          let low = used_up_to this.next_ri (n - this.next_ri) this.resources p.used (λ j lt.
            find_null-none rest this.next_ri e j
              (omega (arith, lt, length-drop this.next_ri this.resources))) in
          (
            record { resources = this.resources ++ resource ∷ []; next_ri = n },
            n,
            ground (arith, e, p.bound),
            appended-Added this resource (λ j less. low j (omega (arith, p.bound, less))),
          )
    ]

-- `remove_resource` of an index in range succeeds, leaves that index free and every other index as
-- it was, and keeps the places below `next_ri` in use.
pub remove_resource-IsPacked :
    (this : ResourceManager) (ri : ℕ)
    → IsPacked this
    → ri < length this.resources
    → (after : ResourceManager) × (remove_resource this ri ≡ ok after)
      × IsPacked after
      × (in_use after.resources ri ≡ false)
      × ((j : ℕ) → j ≢ ri → get_elem? after.resources j ≡ get_elem? this.resources j)
unfolding remove_resource
remove_resource-IsPacked this ri p lt =
    let hint = if ltb ri this.next_ri then ri else this.next_ri in
    let small : (hint ≤ ri) × (hint ≤ this.next_ri) = ground arith in
    (
      record { resources = set this.resources ri null; next_ri = hint },
      ground (arith, lt),
      record {
        bound = omega (arith, small.1, p.bound, length-set this.resources ri null);
        used = λ j below.
            in_use_eq this.resources _ j
              (get_elem?-set_ne this.resources ri j null (omega (arith, small.0, below)))
              (p.used j (omega (arith, small.1, below)));
      },
      rw (get_elem?-set_self this.resources ri null lt, in_use) refl,
      λ j ne. get_elem?-set_ne this.resources ri j null (λ e. ne (sym e)),
    )
