-- ===== src/Fix/Found.antt =====
-- Where the pattern does not stand, for concrete bytes.
use native.Mathlib.Decide.{dec_lt}
use vmars.Prelude.{ℕ, zero, suc, ◌+◌, ◌≤◌, ◌<◌, ◌≡◌, Bool, true, ◌&&◌, not, Pointer, ◌==◌, arith}
use vmars.Search.Correct.{Occurs}
use vmars.Fix.Messages.{begin_string}

-- None of the `n` places from `k` on has the first two bytes of the pattern.
abbrev pub is_free : Pointer → ℕ → ℕ → Bool
is_free p k zero = true
is_free p k (suc n) = not (p k == b'8' && p (k + 1) == b'=') && is_free p (k + 1) n

pub is_free-Occurs :
    (p : Pointer) (n k o : ℕ) → is_free p k n ≡ true → k ≤ o → o < k + n → ¬ Occurs begin_string p o
is_free-Occurs p zero k o free a b here = omega arith
is_free-Occurs p (suc n) k o free a b here = elim (dec_lt k o) [
  | yes lt ↦ is_free-Occurs p n (k + 1) o (ground arith) (omega arith) (omega arith) here
  | no ge ↦
      let same : o ≡ k = omega arith in
      let there : Occurs begin_string p k = rw same at here in
      let first = there 0 (omega arith) in
      let second = there 1 (omega arith) in
      let at_k : k + 0 ≡ k = omega arith in
      let first' : p k ≡ b'8' = rw at_k at first in ground arith
]
