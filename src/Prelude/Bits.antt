-- ===== src/Prelude/Bits.antt =====
-- Masking by 2^k - 1 is the remainder by 2^k, at every width.
use Prim.Native.Nat.{
  ℕ, zero, suc, ◌+◌, ◌-◌, ◌*◌, ◌/◌, ◌%◌, ◌^◌, ◌≤◌, ◌<◌, min, bit_and, digits, bit_and-bitwise,
}
use mathlib.Core.Path.{◌≡◌, ap, ◌∙◌, sym}
use native.Mathlib.Nat.{two-pow-succ, div-add-mod, mod-lt, mod-eq_of_lt, mul-add-mod_self_left}
use native.Mathlib.Omega.{arith}

pub two_pow_pos : (k : ℕ) → 0 < 2 ^ k
two_pow_pos zero = omega arith
two_pow_pos (suc k) = omega (arith, two-pow-succ k, two_pow_pos k)

mod_two_pow : (k a : ℕ) → a / 2 % 2 ^ k * 2 + a % 2 ≡ a % 2 ^ suc k
mod_two_pow k a =
    let low = a / 2 % 2 ^ k * 2 + a % 2 in
    let high = a / 2 / 2 ^ k in
    let whole : 2 ^ suc k * high + low ≡ a =
      rw (two-pow-succ k) (omega (arith, div-add-mod (a / 2) (2 ^ k))) in
    let small : low < 2 ^ suc k = omega (arith, two-pow-succ k, mod-lt (a / 2) (two_pow_pos k)) in
    sym (mod-eq_of_lt small)
    ∙ sym (mul-add-mod_self_left (2 ^ suc k) high low)
    ∙ ap (λ n. n % 2 ^ suc k) whole

-- The digits that a mask of k ones lets through; `fuel` counts the digits to go.
masked : (fuel k a : ℕ) → a ≤ fuel → digits (λ _. zero) min fuel a (2 ^ k - 1) ≡ a % 2 ^ k
masked zero k zero h = sym (mod-eq_of_lt (two_pow_pos k))
masked (suc fuel) k zero h = sym (mod-eq_of_lt (two_pow_pos k))
masked zero k (suc a) h = absurd (omega arith)
masked (suc fuel) zero (suc a) h = omega (arith, masked fuel zero (suc a / 2) (omega arith))
masked (suc fuel) (suc k) (suc a) h =
    let ones : 2 ^ suc k - 1 ≡ (2 ^ k - 1) * 2 + 1 = omega (arith, two-pow-succ k, two_pow_pos k) in
    let half : ((2 ^ k - 1) * 2 + 1) / 2 ≡ 2 ^ k - 1 = omega arith in
    rw (ones, half, masked fuel k (suc a / 2) (omega arith)) (omega (arith, mod_two_pow k (suc a)))

-- x & (2^k - 1)
pub bit_and_mask : (k a : ℕ) → bit_and a (2 ^ k - 1) ≡ a % 2 ^ k
bit_and_mask k a = bit_and-bitwise a (2 ^ k - 1) ∙ masked a k a (omega arith)
