-- ===== src/Threading/LinkedList/Nodes/Skips.antt =====
-- A list without the element of a position: element `j` of it is element `skip i j` of the list.
use safa_os.Prelude.{
  ℕ, zero, suc, ◌-◌, ◌<◌, ◌≤◌, ◌≡◌, ◌≢◌, refl, ap, ◌∙◌, false, ltb, ◌==◌, if◌then◌else◌, List, [],
  ◌∷◌, length, get_elem?, Bool-cases, inl, inr, arith,
}
use safa_os.Threading.LinkedList.{remove_index, prev}
use safa_os.Threading.LinkedList.Nodes.{Ptr}
use safa_os.Threading.LinkedList.Nodes.Refines.{ptr_before, ptr_at}

abbrev pub skip : ℕ → ℕ → ℕ
skip i j = if ltb j i then j else suc j

pub skip-ne : (i j : ℕ) → skip i j ≢ i
skip-ne i j h = ground arith

pub skip-injective : (i j k : ℕ) → skip i j ≡ skip i k → j ≡ k
skip-injective i j k h = ground arith

pub skip-suc : (i j : ℕ) → skip i (suc j) ≡ (if suc (skip i j) == i then suc i else suc (skip i j))
skip-suc i j = ground arith

module _ {ℓ} {A : Type ℓ} where
  get_elem?-before :
      (xs : List A) (i j : ℕ) → j < i → get_elem? (remove_index xs i) j ≡ get_elem? xs j
  get_elem?-before [] i j h = refl
  get_elem?-before (x ∷ xs) zero j h = ground arith
  get_elem?-before (x ∷ xs) (suc i) zero h = refl
  get_elem?-before (x ∷ xs) (suc i) (suc j) h = get_elem?-before xs i j (omega arith)

  get_elem?-behind :
      (xs : List A) (i j : ℕ) → i ≤ j → get_elem? (remove_index xs i) j ≡ get_elem? xs (suc j)
  get_elem?-behind [] i j h = refl
  get_elem?-behind (x ∷ xs) zero j h = refl
  get_elem?-behind (x ∷ xs) (suc i) zero h = ground arith
  get_elem?-behind (x ∷ xs) (suc i) (suc j) h = get_elem?-behind xs i j (omega arith)

  pub get_elem?-skip :
      (xs : List A) (i j : ℕ) → get_elem? (remove_index xs i) j ≡ get_elem? xs (skip i j)
  get_elem?-skip xs i j = elim (Bool-cases (ltb j i)) [
    | inl h ↦ rw h (get_elem?-before xs i j (ground arith))
    | inr h ↦ rw h (get_elem?-behind xs i j (ground arith))
  ]

  pub length-remove_index :
      (xs : List A) (i : ℕ) → i < length xs → suc (length (remove_index xs i)) ≡ length xs
  length-remove_index [] i h = ground arith
  length-remove_index (x ∷ xs) zero h = refl
  length-remove_index (x ∷ xs) (suc i) h = ap suc (length-remove_index xs i (omega arith))

-- the pointer before a node of the list without node `i`
pub ptr_before-skip :
    (ptrs : List Ptr) (i j : ℕ)
    → ptr_before (remove_index ptrs i) j
      ≡ (if skip i j == suc i then ptr_before ptrs i else ptr_before ptrs (skip i j))
ptr_before-skip ptrs zero zero = refl
ptr_before-skip ptrs (suc i) zero =
    let first : skip (suc i) 0 ≡ 0 = ground arith in
    let apart : (0 == suc (suc i)) ≡ false = ground arith in rw (first, apart) refl
ptr_before-skip ptrs i (suc j) = elim (Bool-cases (skip i (suc j) == suc i)) [
  | inl h ↦
      let e : i ≡ suc j = ground arith in
      let here : skip (suc j) j ≡ j = ground arith in
      rw (h, get_elem?-skip ptrs i j, e) (ap (get_elem? ptrs) here)
  | inr h ↦
      let next : skip i (suc j) ≡ suc (skip i j) = ground arith in
      rw (h, get_elem?-skip ptrs i j, next) refl
]

-- the pointer at the cursor of the list without node `i`
pub ptr_at-prev :
    (ptrs : List Ptr) (i : ℕ) → ptr_at (remove_index ptrs i) (prev i) ≡ ptr_before ptrs i
ptr_at-prev ptrs zero = refl
ptr_at-prev ptrs (suc i) = get_elem?-before ptrs (suc i) i (omega arith)

pub get_elem?-cursor :
    (ptrs : List Ptr) (i c : ℕ)
    → c ≢ i
    → get_elem? (remove_index ptrs i) (if ltb i c then c - 1 else c) ≡ get_elem? ptrs c
get_elem?-cursor ptrs i c h =
    let back : skip i (if ltb i c then c - 1 else c) ≡ c = ground arith in
    get_elem?-skip ptrs i _ ∙ ap (get_elem? ptrs) back
