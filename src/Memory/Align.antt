-- ===== src/Memory/Align.antt =====
-- `align_up`, `align_down` and `translate` of kernel/src/memory/mod.rs.
use safa_os.Prelude.{
  ℕ, zero, suc, ◌+◌, ◌-◌, ◌*◌, ◌/◌, ◌%◌, ◌^◌, ◌≤◌, ◌<◌, ◌≡◌, bit_and, arith, sym, ◌∙◌, ap,
}
use safa_os.Prelude.Bits.{bit_and_shifted, bit_and_mask, two_pow_pos}
use safa_os.Prelude.Words.{add_usize, sub_usize, not_usize, two_pow_split}
use native.Mathlib.Nat.{mod-eq_of_lt, lt-div-mul-add, div-mul-le_self, mul-mod_left}

abbrev pub page_size : ℕ
page_size = 4096

pub align_up : ℕ → ℕ → ℕ
align_up address alignment =
    bit_and (sub_usize (add_usize address alignment) 1) (not_usize (sub_usize alignment 1))

unfoldable pub align_down : ℕ → ℕ → ℕ
align_down x alignment = bit_and x (not_usize (sub_usize alignment 1))

high_mask : (p q : ℕ) → 0 < p → 0 < q → p * q ≡ 2 ^ 64 → not_usize (sub_usize p 1) ≡ (q - 1) * p
high_mask p zero hp hq e = elim hq [ ]
high_mask p (suc q) hp hq e = let less : suc q - 1 ≡ q = omega arith in rw less (omega (arith, e))

quotient-lt : (x p q : ℕ) → 0 < p → x < p * q → x / p < q
quotient-lt x p q hp h = grind arith

-- The mask `!(2 ^ k - 1)` clears the low `k` bits of a word.
clear_low_bits :
    (k w x : ℕ)
    → k + w ≡ 64
    → x < 2 ^ 64
    → bit_and x (not_usize (sub_usize (2 ^ k) 1)) ≡ x / 2 ^ k * 2 ^ k
clear_low_bits k w x e h =
    rw (high_mask (2 ^ k) (2 ^ w) (two_pow_pos k) (two_pow_pos w) split)
      (rw (bit_and_shifted k x (2 ^ w - 1), bit_and_mask w (x / 2 ^ k), small))
  where
    split : 2 ^ k * 2 ^ w ≡ 2 ^ 64
    split = sym (two_pow_split k w 64 e)

    small : x / 2 ^ k % 2 ^ w ≡ x / 2 ^ k
    small = mod-eq_of_lt (quotient-lt x (2 ^ k) (2 ^ w) (two_pow_pos k) (rw split h))

-- Rounding an address of 64 bits down by a power of two gives the greatest multiple of it that is
-- not above the address.
pub align_down-floor : (k x : ℕ) → k ≤ 64 → x < 2 ^ 64 → align_down x (2 ^ k) ≡ x / 2 ^ k * 2 ^ k
unfolding align_down
align_down-floor k x hk hx = clear_low_bits k (64 - k) x (omega arith) hx

pub align_down_page : (x : ℕ) → x < 2 ^ 64 → align_down x page_size ≡ x / 4096 * 4096
align_down_page x h = align_down-floor 12 x (omega arith) h

align_up_value :
    (k x : ℕ) → k ≤ 64 → x + 2 ^ k ≤ 2 ^ 64 → align_up x (2 ^ k) ≡ (x + 2 ^ k - 1) / 2 ^ k * 2 ^ k
unfolding align_up
align_up_value k x hk hx =
    let sum : sub_usize (add_usize x (2 ^ k)) 1 ≡ x + 2 ^ k - 1 = omega (arith, two_pow_pos k) in
    rw sum (clear_low_bits k (64 - k) (x + 2 ^ k - 1) (omega arith) (omega (arith, two_pow_pos k)))

-- Rounding up by a power of two, where the sum does not pass the word, gives the least multiple of
-- it that is not below the address.
pub align_up-ceil :
    (k x : ℕ)
    → k ≤ 64
    → x + 2 ^ k ≤ 2 ^ 64
    → (x ≤ align_up x (2 ^ k)) × (align_up x (2 ^ k) < x + 2 ^ k) × (align_up x (2 ^ k) % 2 ^ k ≡ 0)
align_up-ceil k x hk hx = rw (align_up_value k x hk hx) (
  omega (arith, lt-div-mul-add {a = x + 2 ^ k - 1} {b = 2 ^ k} (two_pow_pos k), two_pow_pos k),
  omega (arith, div-mul-le_self (x + 2 ^ k - 1) (2 ^ k), two_pow_pos k),
  mul-mod_left ((x + 2 ^ k - 1) / 2 ^ k) (2 ^ k),
)

-- kernel/src/memory/mod.rs: p1_index .. p4_index and translate
abbrev pub index_at : ℕ → ℕ → ℕ
index_at shift addr = bit_and (addr / 2 ^ shift) 0x1FF

pub record Indices : Type 0 where
  pub p1 : ℕ
  pub p2 : ℕ
  pub p3 : ℕ
  pub p4 : ℕ

unfoldable pub translate : ℕ → Indices
translate addr = record {
  p1 = index_at 12 addr;
  p2 = index_at 21 addr;
  p3 = index_at 30 addr;
  p4 = index_at 39 addr;
}

pub translate_value :
    (addr : ℕ)
    → translate addr ≡ record {
      p1 = addr / 4096 % 512;
      p2 = addr / 2097152 % 512;
      p3 = addr / 1073741824 % 512;
      p4 = addr / 549755813888 % 512;
    }
unfolding translate
translate_value addr = rw (
  bit_and_mask 9 (addr / 2 ^ 12),
  bit_and_mask 9 (addr / 2 ^ 21),
  bit_and_mask 9 (addr / 2 ^ 30),
  bit_and_mask 9 (addr / 2 ^ 39),
)

-- Below 48 bits the four indices determine the page: two addresses with the same indices lie in
-- the same page.
pub translate-injective :
    (a b : ℕ) → a < 2 ^ 48 → b < 2 ^ 48 → translate a ≡ translate b → a / 4096 ≡ b / 4096
translate-injective a b ha hb e =
    let same = sym (translate_value a) ∙ e ∙ translate_value b in
    let e1 : a / 4096 % 512 ≡ b / 4096 % 512 = ap (λ (t : Indices). t.p1) same in
    let e2 : a / 2097152 % 512 ≡ b / 2097152 % 512 = ap (λ (t : Indices). t.p2) same in
    let e3 : a / 1073741824 % 512 ≡ b / 1073741824 % 512 = ap (λ (t : Indices). t.p3) same in
    let e4 : a / 549755813888 % 512 ≡ b / 549755813888 % 512 = ap (λ (t : Indices). t.p4) same in
    omega (arith, e1, e2, e3, e4)
