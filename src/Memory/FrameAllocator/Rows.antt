-- ===== src/Memory/FrameAllocator/Rows.antt =====
-- The scan of the rows of the bitmap: the first row with a bit that is 0.
use safa_os.Prelude.{
  ℕ, zero, suc, ◌+◌, ◌*◌, ◌^◌, ◌<◌, ◌≡◌, refl, sym, ap, ◌∙◌, bit_or, Option, none, some, List, [],
  ◌∷◌, Option-cases, inl, inr, get_elem?, set, arith,
}
use safa_os.Prelude.Bits.{bit}
use safa_os.Prelude.Words.{mul_usize}
use safa_os.Memory.Align.{page_size}
use safa_os.Memory.FrameAllocator.{Frame, find_col, allocate_rows}
use safa_os.Memory.FrameAllocator.Columns.{find_col-some, find_col-none}

-- every bit of a byte is 1
abbrev pub IsFull : ℕ → Type 0
IsFull byte = (j : ℕ) → j < 8 → bit j byte ≡ 1

-- what the loop over the rows has done when it found a frame, `r` rows after the first
pub record Taken (rows : List ℕ) (row : ℕ) (rows' : List ℕ) (f : Frame) : Type 0 where
  pub r : ℕ
  pub c : ℕ
  pub byte : ℕ
  pub at : get_elem? rows r ≡ some byte
  pub col : c < 8
  pub free : bit c byte ≡ 0
  pub address : f.start_address ≡ mul_usize ((row + r) * 8 + c) page_size
  pub after : rows' ≡ set rows r (bit_or byte (2 ^ c))
  pub rows_before : (i b : ℕ) → i < r → get_elem? rows i ≡ some b → IsFull b
  pub cols_before : (j : ℕ) → j < c → bit j byte ≡ 1

allocate_rows-hit :
    (byte : ℕ) (rows : List ℕ) (row c : ℕ)
    → find_col 8 0 byte ≡ some c
    → allocate_rows (byte ∷ rows) row ≡ (
      bit_or byte (2 ^ c) ∷ rows,
      some (record { start_address = mul_usize (row * 8 + c) page_size }),
    )
unfolding allocate_rows
allocate_rows-hit byte rows row c h = rw (h, allocate_rows)

allocate_rows-full :
    (byte : ℕ) (rows : List ℕ) (row : ℕ)
    → find_col 8 0 byte ≡ none
    → allocate_rows (byte ∷ rows) row
      ≡ (byte ∷ (allocate_rows rows (row + 1)).0, (allocate_rows rows (row + 1)).1)
unfolding allocate_rows
allocate_rows-full byte rows row h = rw (h, allocate_rows)

allocate_rows-nil : (row : ℕ) → allocate_rows [] row ≡ ([], none)
unfolding allocate_rows
allocate_rows-nil row = refl

address_of_some :
    (f : Frame) (n : ℕ)
    → ◌≡◌ {A = Option Frame} (some (record { start_address = mul_usize n page_size })) (some f)
    → f.start_address ≡ mul_usize n page_size
address_of_some f n h = cc

find_col-IsFull : (byte : ℕ) → find_col 8 0 byte ≡ none → IsFull byte
find_col-IsFull byte h j lt = find_col-none 8 0 byte h j (omega arith) (omega arith)

IsFull-cons :
    (byte : ℕ) (rows : List ℕ) (n : ℕ)
    → IsFull byte
    → ((i b : ℕ) → i < n → get_elem? rows i ≡ some b → IsFull b)
    → (i b : ℕ) → i < suc n
    → get_elem? (byte ∷ rows) i ≡ some b
    → IsFull b
IsFull-cons byte rows n h k zero b lt e = λ j lt'. let q : byte ≡ b = cc in rw (← q) (h j lt')
IsFull-cons byte rows n h k (suc i) b lt e = k i b (omega arith) e

IsFull-cons_all :
    (byte : ℕ) (rows : List ℕ)
    → IsFull byte
    → ((i b : ℕ) → get_elem? rows i ≡ some b → IsFull b)
    → (i b : ℕ) → get_elem? (byte ∷ rows) i ≡ some b
    → IsFull b
IsFull-cons_all byte rows h k zero b e = λ j lt'. let q : byte ≡ b = cc in rw (← q) (h j lt')
IsFull-cons_all byte rows h k (suc i) b e = k i b e

pub allocate_rows-some :
    (rows : List ℕ) (row : ℕ) (f : Frame)
    → (allocate_rows rows row).1 ≡ some f
    → Taken rows row (allocate_rows rows row).0 f
allocate_rows-some [] row f h = cc (allocate_rows-nil row)
allocate_rows-some (byte ∷ rows) row f h = elim (Option-cases (find_col 8 0 byte)) [
  | inl full ↦
      let step = allocate_rows-full byte rows row full in
      let t = allocate_rows-some rows (row + 1) f (rw step at h) in
      record {
        r = suc t.r;
        c = t.c;
        byte = t.byte;
        at = t.at;
        col = t.col;
        free = t.free;
        address = t.address ∙ ap (λ k. mul_usize (k * 8 + t.c) page_size) (omega arith);
        after = rw step (ap (λ l. byte ∷ l) t.after);
        rows_before = IsFull-cons byte rows t.r (find_col-IsFull byte full) t.rows_before;
        cols_before = t.cols_before;
      }
  | inr (c, hit) ↦
      let step = allocate_rows-hit byte rows row c hit in
      let found = find_col-some 8 0 byte c hit in
      record {
        r = 0;
        c = c;
        byte = byte;
        at = refl;
        col = omega (arith, found.within);
        free = found.free;
        address =
            address_of_some f (row * 8 + c) (sym (ap (λ (p : List ℕ × Option Frame). p.1) step) ∙ h)
            ∙ ap (λ k. mul_usize (k * 8 + c) page_size) (omega arith);
        after = rw step;
        rows_before = λ i b lt e. elim lt [ ];
        cols_before = λ j lt. found.before j (omega arith) lt;
      }
]

pub allocate_rows-none :
    (rows : List ℕ) (row : ℕ)
    → (allocate_rows rows row).1 ≡ none
    → ((allocate_rows rows row).0 ≡ rows) × ((i b : ℕ) → get_elem? rows i ≡ some b → IsFull b)
allocate_rows-none [] row h = (rw (allocate_rows-nil row), λ i b e. cc)
allocate_rows-none (byte ∷ rows) row h = elim (Option-cases (find_col 8 0 byte)) [
  | inl full ↦
      let step = allocate_rows-full byte rows row full in
      let rest = allocate_rows-none rows (row + 1) (rw step at h) in
      (
        rw step (ap (λ l. byte ∷ l) rest.0),
        λ i b e. IsFull-cons_all byte rows (find_col-IsFull byte full) rest.1 i b e,
      )
  | inr (c, hit) ↦ cc (allocate_rows-hit byte rows row c hit)
]
