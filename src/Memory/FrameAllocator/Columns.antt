-- ===== src/Memory/FrameAllocator/Columns.antt =====
-- The scan of the columns of one row of the bitmap: the first bit that is 0.
use safa_os.Prelude.{
  ℕ, zero, suc, ◌+◌, ◌/◌, ◌^◌, ◌≤◌, ◌<◌, ◌≡◌, bit_and, none, some, true, false, ◌==◌, Bool-cases,
  inl, inr, arith,
}
use safa_os.Prelude.Bits.{bit, bit_shift, bit-lt}
use native.Mathlib.Decide.{ℕ_discrete}
use safa_os.Memory.FrameAllocator.{find_col}

-- what a found column means: its bit is 0, and the columns scanned before it hold 1
pub record Found (n col byte c : ℕ) : Type 0 where
  pub from : col ≤ c
  pub within : c < col + n
  pub free : bit c byte ≡ 0
  pub before : (j : ℕ) → col ≤ j → j < c → bit j byte ≡ 1

bit-one_of_ne : (c byte : ℕ) → (bit_and (byte / 2 ^ c) 1 == 0) ≡ false → bit c byte ≡ 1
bit-one_of_ne c byte h =
    let g : (bit c byte == 0) ≡ false = rw (← bit_shift c byte) h in
    ground (arith, g, bit-lt c byte)

bit-zero_of_eq : (c byte : ℕ) → (bit_and (byte / 2 ^ c) 1 == 0) ≡ true → bit c byte ≡ 0
bit-zero_of_eq c byte h =
    let g : (bit c byte == 0) ≡ true = rw (← bit_shift c byte) h in ground (arith, g)

pub find_col-some : (n col byte c : ℕ) → find_col n col byte ≡ some c → Found n col byte c
unfolding find_col
find_col-some zero col byte c h = cc
find_col-some (suc n) col byte c h = elim (Bool-cases (bit_and (byte / 2 ^ col) 1 == 0)) [
  | inl hit ↦
      let e : col ≡ c = ground (arith, hit, h) in
      record {
        from = omega arith;
        within = omega arith;
        free = rw (← e) (bit-zero_of_eq col byte hit);
        before = λ j p q. absurd (omega arith);
      }
  | inr miss ↦
      let f = find_col-some n (col + 1) byte c (rw miss at h) in
      record {
        from = omega (arith, f.from);
        within = omega (arith, f.within);
        free = f.free;
        before = λ j p q. elim (ℕ_discrete col j) [
          | yes e ↦ rw (← e) (bit-one_of_ne col byte miss)
          | no ne ↦ f.before j (omega arith) q
        ];
      }
]

pub find_col-none :
    (n col byte : ℕ) → find_col n col byte ≡ none → (j : ℕ) → col ≤ j → j < col + n → bit j byte ≡ 1
unfolding find_col
find_col-none zero col byte h j p q = absurd (omega arith)
find_col-none (suc n) col byte h j p q = elim (Bool-cases (bit_and (byte / 2 ^ col) 1 == 0)) [
  | inl hit ↦ cc (rw hit at h)
  | inr miss ↦ elim (ℕ_discrete col j) [
    | yes e ↦ rw (← e) (bit-one_of_ne col byte miss)
    | no ne ↦ find_col-none n (col + 1) byte (rw miss at h) j (omega arith) (omega arith)
  ]
]
