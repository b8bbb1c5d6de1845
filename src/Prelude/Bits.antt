-- ===== src/Prelude/Bits.antt =====
-- Laws of `bit_and`, `bit_or` and `bit_xor` at variables, from the digit recursion, for the masks
-- that the kernel uses: low masks, high masks and single bits.
use Prim.Native.Nat.{
  ℕ, zero, suc, ◌+◌, ◌-◌, ◌*◌, ◌/◌, ◌%◌, ◌^◌, ◌≤◌, ◌<◌, min, max, differ, bit_and, bit_or, bit_xor,
  digits, bitwise, bit_and-bitwise, bit_or-bitwise, bit_xor-bitwise,
}
use mathlib.Core.Path.{◌≡◌, refl, sym, ap, ◌∙◌}
use mathlib.Core.Logic.{◌≢◌}
use native.Mathlib.Nat.{pow-suc, pow-succ', one-le-pow, div-div-eq-div-mul}
use native.Mathlib.Omega.{arith}

module _ (rest : ℕ → ℕ) (op : ℕ → ℕ → ℕ) where
  no_digits : (fuel y : ℕ) → digits rest op fuel 0 y ≡ rest y
  no_digits zero y = refl
  no_digits (suc fuel) y = refl

  -- what the digits are does not depend on the fuel, once there is enough
  digits_steady :
      (x y fuel more : ℕ) → x ≤ fuel → x ≤ more → digits rest op fuel x y ≡ digits rest op more x y
  digits_steady zero y fuel more h k = no_digits fuel y ∙ sym (no_digits more y)
  digits_steady (suc x) y zero more h k = absurd (omega (arith, h))
  digits_steady (suc x) y (suc fuel) zero h k = absurd (omega (arith, k))
  digits_steady (suc x) y (suc fuel) (suc more) h k =
      let half =
        digits_steady (suc x / 2) (y / 2) fuel more (omega (arith, h)) (omega (arith, k)) in
      ap (λ t. t * 2 + op (suc x % 2) (y % 2)) half

  -- the lowest digit of a number that is not 0, and the others
  lowest_digit :
      (x y : ℕ)
      → bitwise rest op (suc x) y ≡ bitwise rest op (suc x / 2) (y / 2) * 2 + op (suc x % 2) (y % 2)
  lowest_digit x y =
      ap (λ t. t * 2 + op (suc x % 2) (y % 2))
        (digits_steady (suc x / 2) (y / 2) x (suc x / 2) (omega arith) (omega arith))

-- One equation for the lowest digit of each operation.
pub bit_xor_step : (x y : ℕ) → bit_xor x y ≡ bit_xor (x / 2) (y / 2) * 2 + differ (x % 2) (y % 2)
bit_xor_step zero y = simp bit_xor-bitwise (omega arith)
bit_xor_step (suc x) y = simp bit_xor-bitwise (lowest_digit (λ t. t) differ x y)

pub bit_and_step : (x y : ℕ) → bit_and x y ≡ bit_and (x / 2) (y / 2) * 2 + min (x % 2) (y % 2)
bit_and_step zero y = simp bit_and-bitwise (omega arith)
bit_and_step (suc x) y = simp bit_and-bitwise (lowest_digit (λ _. 0) min x y)

pub bit_or_step : (x y : ℕ) → bit_or x y ≡ bit_or (x / 2) (y / 2) * 2 + max (x % 2) (y % 2)
bit_or_step zero y = simp bit_or-bitwise (omega arith)
bit_or_step (suc x) y = simp bit_or-bitwise (lowest_digit (λ t. t) max x y)

bit_and-zero_below : (x bound : ℕ) → x ≤ bound → bit_and x 0 ≡ 0
bit_and-zero_below zero bound h = refl
bit_and-zero_below (suc x) zero h = absurd (omega (arith, h))
bit_and-zero_below (suc x) (suc bound) h =
    let half = bit_and-zero_below (suc x / 2) bound (omega (arith, h)) in
    omega (arith, half, bit_and_step (suc x) 0)

pub bit_and-zero : (x : ℕ) → bit_and x 0 ≡ 0
bit_and-zero x = bit_and-zero_below x x (omega arith)

bit_or-zero_below : (x bound : ℕ) → x ≤ bound → bit_or x 0 ≡ x
bit_or-zero_below zero bound h = refl
bit_or-zero_below (suc x) zero h = absurd (omega (arith, h))
bit_or-zero_below (suc x) (suc bound) h =
    let half = bit_or-zero_below (suc x / 2) bound (omega (arith, h)) in
    omega (arith, half, bit_or_step (suc x) 0)

pub bit_or-zero : (x : ℕ) → bit_or x 0 ≡ x
bit_or-zero x = bit_or-zero_below x x (omega arith)

pub bit_and-one : (x : ℕ) → bit_and x 1 ≡ x % 2
bit_and-one x = omega (arith, bit_and-zero (x / 2), bit_and_step x 1)

pub two_pow_pos : (k : ℕ) → 0 < 2 ^ k
two_pow_pos k = one-le-pow k 2 (omega arith)

mul-two_pow : (q k : ℕ) → q * 2 ^ suc k ≡ 2 * (q * 2 ^ k)
mul-two_pow q k = omega (arith, ap (λ (t : ℕ). q * t) (pow-suc 2 k))

-- `(high << k) | low` is a sum when `low` fits `k` bits.
pub bit_or_fields : (k high low : ℕ) → low < 2 ^ k → bit_or (high * 2 ^ k) low ≡ high * 2 ^ k + low
bit_or_fields zero high low fits = ground (arith, bit_or-zero high)
bit_or_fields (suc k) high low fits =
    let rest = bit_or_fields k high (low / 2) (omega (arith, pow-suc 2 k)) in
    ground (arith, rest, mul-two_pow high k, bit_or_step (high * 2 ^ suc k) low)

pub div-two_pow-suc : (a k : ℕ) → a / 2 ^ suc k ≡ a / 2 / 2 ^ k
div-two_pow-suc a k = rw (div-div-eq-div-mul, pow-succ') refl

-- A mask that starts at bit `k` selects from the quotient.
pub bit_and_shifted : (k a m : ℕ) → bit_and a (m * 2 ^ k) ≡ bit_and (a / 2 ^ k) m * 2 ^ k
bit_and_shifted zero a m =
    let e : m * 1 ≡ m = omega arith in let f : a / 1 ≡ a = omega arith in rw (e, f) (omega arith)
bit_and_shifted (suc k) a m =
    let half : m * 2 ^ suc k / 2 ≡ m * 2 ^ k = omega (arith, mul-two_pow m k) in
    bit_and_step a (m * 2 ^ suc k)
    ∙ rw (half, bit_and_shifted k (a / 2) m, div-two_pow-suc a k)
        (omega (arith, mul-two_pow m k, mul-two_pow (bit_and (a / 2 / 2 ^ k) m) k))

-- A mask of `k` low bits is the remainder by `2 ^ k`.
bit_and_fields : (k high low : ℕ) → low < 2 ^ k → bit_and (high * 2 ^ k + low) (2 ^ k - 1) ≡ low
bit_and_fields zero high low fits = rw bit_and-zero (omega arith)
bit_and_fields (suc k) high low fits =
    let rest = bit_and_fields k high (low / 2) (omega (arith, pow-suc 2 k)) in
    ground (
      arith,
      rest,
      two_pow_pos k,
      pow-suc 2 k,
      mul-two_pow high k,
      bit_and_step (high * 2 ^ suc k + low) (2 ^ suc k - 1),
    )

pub bit_and_mask : (k a : ℕ) → bit_and a (2 ^ k - 1) ≡ a % 2 ^ k
bit_and_mask k a = ground (arith, two_pow_pos k, bit_and_fields k (a / 2 ^ k) (a % 2 ^ k))

zero_bit_or : (b : ℕ) → bit_or 0 b ≡ b
zero_bit_or b = simp bit_or-bitwise refl

bit_or_comm_below : (n a b : ℕ) → a ≤ n → bit_or a b ≡ bit_or b a
bit_or_comm_below n zero b h = zero_bit_or b ∙ sym (bit_or-zero b)
bit_or_comm_below zero (suc a) b h = absurd (omega arith)
bit_or_comm_below (suc n) (suc a) b h =
    let rest = bit_or_comm_below n (suc a / 2) (b / 2) (omega arith) in
    omega (arith, rest, bit_or_step (suc a) b, bit_or_step b (suc a))

pub bit_or_comm : (a b : ℕ) → bit_or a b ≡ bit_or b a
bit_or_comm a b = bit_or_comm_below a a b (omega arith)

-- Bit `c` of a number.
abbrev pub bit : ℕ → ℕ → ℕ
bit zero a = a % 2
bit (suc c) a = bit c (a / 2)

pub bit-lt : (c a : ℕ) → bit c a < 2
bit-lt zero a = omega arith
bit-lt (suc c) a = bit-lt c (a / 2)

-- `(a >> c) & 1`
pub bit_shift : (c a : ℕ) → bit_and (a / 2 ^ c) 1 ≡ bit c a
bit_shift zero a = bit_and-one (a / 1) ∙ omega arith
bit_shift (suc c) a = rw div-two_pow-suc (bit_shift c (a / 2))

bit-zero : (c : ℕ) → bit c 0 ≡ 0
bit-zero zero = refl
bit-zero (suc c) = bit-zero c

bit_or-half : (a b : ℕ) → bit_or a b / 2 ≡ bit_or (a / 2) (b / 2)
bit_or-half a b = omega (arith, bit_or_step a b)

pub bit_or-shift : (k a b : ℕ) → bit_or a b / 2 ^ k ≡ bit_or (a / 2 ^ k) (b / 2 ^ k)
bit_or-shift zero a b =
    let e : a / 1 ≡ a = omega arith in let f : b / 1 ≡ b = omega arith in rw (e, f) (omega arith)
bit_or-shift (suc k) a b =
    rw (div-two_pow-suc, bit_or-half, div-two_pow-suc a k, div-two_pow-suc b k)
      (bit_or-shift k (a / 2) (b / 2))

pub half-two_pow : (k : ℕ) → 2 ^ suc k / 2 ≡ 2 ^ k
half-two_pow k = omega (arith, pow-suc 2 k)

-- `a | (1 << k)` sets bit `k` and leaves the others.
pub bit-bit_or_self : (k a : ℕ) → bit k (bit_or a (2 ^ k)) ≡ 1
bit-bit_or_self zero a = omega (arith, bit_or_step a 1)
bit-bit_or_self (suc k) a = rw (bit_or-half, half-two_pow) (bit-bit_or_self k (a / 2))

pub bit-bit_or_ne : (c k a : ℕ) → c ≢ k → bit c (bit_or a (2 ^ k)) ≡ bit c a
bit-bit_or_ne zero zero a h = absurd (h refl)
bit-bit_or_ne zero (suc k) a h = omega (arith, bit_or_step a (2 ^ suc k), pow-suc 2 k)
bit-bit_or_ne (suc c) zero a h = rw bit_or-half (rw bit_or-zero)
bit-bit_or_ne (suc c) (suc k) a h =
    rw (bit_or-half, half-two_pow) (bit-bit_or_ne c k (a / 2) (λ e. h (ap suc e)))

differ_parity : (a b : ℕ) → a < 2 → b < 2 → differ a b ≡ (a + b) % 2
differ_parity zero b p q = omega arith
differ_parity (suc zero) zero p q = refl
differ_parity (suc zero) (suc zero) p q = refl
differ_parity (suc zero) (suc (suc b)) p q = absurd (omega arith)
differ_parity (suc (suc a)) b p q = absurd (omega arith)

bit_xor_digit : (a b : ℕ) → bit_xor a b ≡ bit_xor (a / 2) (b / 2) * 2 + (a % 2 + b % 2) % 2
bit_xor_digit a b =
    bit_xor_step a b
    ∙ ap (λ t. bit_xor (a / 2) (b / 2) * 2 + t)
        (differ_parity (a % 2) (b % 2) (omega arith) (omega arith))

bit_xor-half : (a b : ℕ) → bit_xor a b / 2 ≡ bit_xor (a / 2) (b / 2)
bit_xor-half a b = omega (arith, bit_xor_digit a b)

bit_xor-zero_below : (n a : ℕ) → a ≤ n → bit_xor a 0 ≡ a
bit_xor-zero_below n zero h = refl
bit_xor-zero_below zero (suc a) h = absurd (omega arith)
bit_xor-zero_below (suc n) (suc a) h =
    omega (arith, bit_xor_digit (suc a) 0, bit_xor-zero_below n (suc a / 2) (omega arith))

bit_xor-zero : (a : ℕ) → bit_xor a 0 ≡ a
bit_xor-zero a = bit_xor-zero_below a a (omega arith)

-- `a ^ (1 << k)` flips bit `k` and leaves the others.
pub bit-bit_xor_self : (k a : ℕ) → bit k (bit_xor a (2 ^ k)) ≡ 1 - bit k a
bit-bit_xor_self zero a = omega (arith, bit_xor_digit a 1)
bit-bit_xor_self (suc k) a = rw (bit_xor-half, half-two_pow) (bit-bit_xor_self k (a / 2))

pub bit-bit_xor_ne : (c k a : ℕ) → c ≢ k → bit c (bit_xor a (2 ^ k)) ≡ bit c a
bit-bit_xor_ne zero zero a h = absurd (h refl)
bit-bit_xor_ne zero (suc k) a h = omega (arith, bit_xor_digit a (2 ^ suc k), pow-suc 2 k)
bit-bit_xor_ne (suc c) zero a h = rw bit_xor-half (rw bit_xor-zero)
bit-bit_xor_ne (suc c) (suc k) a h =
    rw (bit_xor-half, half-two_pow) (bit-bit_xor_ne c k (a / 2) (λ e. h (ap suc e)))

-- Flipping a bit that was just set over a 0 gives the number back.
pub bit_xor-bit_or_undo : (k a : ℕ) → bit k a ≡ 0 → bit_xor (bit_or a (2 ^ k)) (2 ^ k) ≡ a
bit_xor-bit_or_undo zero a h = omega (
  arith,
  bit_or_step a 1,
  bit_xor_digit (bit_or a 1) 1,
  bit_or-zero (a / 2),
  bit_xor-zero (a / 2),
  ap (λ t. bit_xor t 0) (bit_or-half a 1),
  ap (λ t. bit_xor t 0) (bit_or-zero (a / 2)),
)
bit_xor-bit_or_undo (suc k) a h =
    bit_xor_digit (bit_or a (2 ^ suc k)) (2 ^ suc k)
    ∙ rw (bit_or-half, half-two_pow, bit_xor-bit_or_undo k (a / 2) h)
        (omega (arith, bit_or_step a (2 ^ suc k), pow-suc 2 k))
