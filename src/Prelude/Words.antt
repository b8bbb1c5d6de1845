-- ===== src/Prelude/Words.antt =====
-- `usize` on x86_64: 64-bit words that wrap, as natural numbers below `2 ^ 64`.
use Prim.Native.Nat.{ℕ, zero, suc, ◌+◌, ◌-◌, ◌*◌, ◌%◌, ◌^◌}
use mathlib.Core.Path.{◌≡◌}
use native.Mathlib.Nat.{pow-succ'}
use native.Mathlib.Omega.{arith}

abbrev pub usize_mod : ℕ
usize_mod = 2 ^ 64

abbrev pub add_usize : ℕ → ℕ → ℕ
add_usize a b = (a + b) % 2 ^ 64

-- `-` on ℕ stops at 0, so the modulus is added first.
abbrev pub sub_usize : ℕ → ℕ → ℕ
sub_usize a b = (a + 2 ^ 64 - b) % 2 ^ 64

abbrev pub mul_usize : ℕ → ℕ → ℕ
mul_usize a b = a * b % 2 ^ 64

-- `!a`
abbrev pub not_usize : ℕ → ℕ
not_usize a = 2 ^ 64 - 1 - a

pub two_pow_split : (k w n : ℕ) → k + w ≡ n → 2 ^ n ≡ 2 ^ k * 2 ^ w
two_pow_split zero w n e = let f : w ≡ n = omega arith in rw f (omega arith)
two_pow_split (suc k) w zero e = absurd (omega arith)
two_pow_split (suc k) w (suc n) e =
    rw (pow-succ', pow-succ', two_pow_split k w n (omega arith)) (grind arith)
