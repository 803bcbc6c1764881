-- ===== src/Ring/Valid.antt =====
-- The invariant of a ring's positions, and what its word arithmetic comes to under it.
use native.Mathlib.Nat.{pow-le-pow_right, two-pow-succ, mul-add-mod_self_left}
use native.Mathlib.Decide.{dec_le}
use vmars.Prelude.{
  ℕ, zero, suc, ◌+◌, ◌-◌, ◌*◌, ◌/◌, ◌%◌, ◌^◌, ◌≤◌, ◌<◌, ◌≡◌, refl, ap, ◌∙◌, sym, arith, ltb,
  Bool-cases, inl, inr,
}
use vmars.Prelude.Bits.{bit_and_mask, two_pow_pos}
use vmars.Prelude.Int.{pos, ◌-ℤ◌}
use vmars.Ring.Defs.{Rb, sub_word, sign_extend, tail_index, head_index, available_capacity}

-- The positions of a ring of 2^k bytes. The caches are old values of the positions that they
-- stand for, so they lag behind. 2^62 bytes are more than a run can pass through.
pub record IsValid (k : ℕ) (rb : Rb) : Type 0 where
  pub capacity_is : rb.capacity ≡ 2 ^ k
  pub small : k ≤ 30
  pub head_cached : rb.head_cache_position ≤ rb.head_position
  pub head_le_tail : rb.head_position ≤ rb.tail_position
  pub tail_cached : rb.tail_cache_position ≤ rb.tail_position
  pub fits : rb.tail_position ≤ rb.head_cache_position + rb.capacity
  pub in_range : rb.tail_position < 2 ^ 62

two_pow_split : (k m : ℕ) → k ≤ m → (d : ℕ) × (2 ^ m ≡ 2 ^ k * d)
two_pow_split k zero h = (1, let e : k ≡ 0 = omega arith in rw e refl)
two_pow_split k (suc m) h = elim (dec_le k m) [
  | yes le ↦ let (d, e) = two_pow_split k m le in (d + d, omega (arith, e, two-pow-succ m))
  | no gt ↦ let e : k ≡ suc m = omega arith in (1, rw e (omega arith))
]

-- Below the 32nd bit, multiples of 2^32 do not count.
mod_high : (k a q w : ℕ) → k ≤ 30 → a ≡ 2 ^ 32 * q + w → a % 2 ^ k ≡ w % 2 ^ k
mod_high k a q w small e =
    let (d, split) = two_pow_split k 32 (omega arith) in
    let e' : a ≡ 2 ^ k * (d * q) + w = omega (arith, e, ap (λ (t : ℕ). t * q) split) in
    ap (λ n. n % 2 ^ k) e' ∙ mul-add-mod_self_left (2 ^ k) (d * q) w

sign_extend-mod : (k x : ℕ) → k ≤ 30 → sign_extend x % 2 ^ k ≡ x % 2 ^ k
sign_extend-mod k x small = elim (Bool-cases (ltb (x % 2 ^ 32) (2 ^ 31))) [
  | inl low ↦ rw low (sym (mod_high k x (x / 2 ^ 32) (x % 2 ^ 32) small (omega arith)))
  | inr high ↦ rw high (
      mod_high k (x % 2 ^ 32 + (2 ^ 64 - 2 ^ 32)) (2 ^ 32 - 1) (x % 2 ^ 32) small (omega arith)
      ∙ sym (mod_high k x (x / 2 ^ 32) (x % 2 ^ 32) small (omega arith)))
]

module _ {k : ℕ} {rb : Rb} (v : IsValid k rb) where
  pub capacity_bounds : (0 < rb.capacity) × (rb.capacity ≤ 2 ^ 30)
  capacity_bounds =
      let most : 2 ^ k ≤ 2 ^ 30 = pow-le-pow_right {n = 2} (omega arith) v.small in
      rw v.capacity_is (two_pow_pos k, most)

  mask : sub_word rb.capacity 1 ≡ 2 ^ k - 1
  mask = omega (arith, capacity_bounds, v.capacity_is)

  pub tail_index_lem : tail_index rb ≡ rb.tail_position % rb.capacity
  tail_index_lem = rw (mask, bit_and_mask k rb.tail_position, v.capacity_is)

  pub head_index_lem : head_index rb ≡ rb.head_position % rb.capacity
  head_index_lem = rw (
    mask,
    bit_and_mask k (sign_extend rb.head_position),
    sign_extend-mod k rb.head_position v.small,
    v.capacity_is,
  )

  pub available_capacity_lem :
      available_capacity rb ≡ pos (rb.head_cache_position + rb.capacity - rb.tail_position)
  unfolding available_capacity ◌-ℤ◌
  available_capacity_lem = ground (arith, capacity_bounds)
