-- ===== src/Prelude/Memory.antt =====
-- A `const char*` as the bytes that it points at: offset to value. A byte is its unsigned value.
use Prim.Native.Nat.{ℕ, zero, suc, ◌+◌, ◌≤◌, ◌<◌}
use native.Mathlib.Omega.{arith}
use vmars.Prelude.Tests.{◌==◌, if◌then◌else◌}
use mathlib.Core.Path.{◌≡◌, refl, ap}
use mathlib.Core.List.{List, [], ◌∷◌, ◌++◌}
use vmars.Prelude.Lists.{length, get_or}

abbrev pub Pointer : Type 0
Pointer = ℕ → ℕ

-- `&p[k]`
abbrev pub advance : Pointer → ℕ → Pointer
advance p k i = p (k + i)

-- The memory that starts with the given bytes.
abbrev pub pointer_to : List ℕ → Pointer
pointer_to xs i = get_or xs i 0

-- The `n` bytes from offset `i` on.
unfoldable pub slice : Pointer → ℕ → ℕ → List ℕ
slice p i zero = []
slice p i (suc n) = p i ∷ slice p (i + 1) n

pub length-slice : (p : Pointer) (i n : ℕ) → length (slice p i n) ≡ n
unfolding slice
length-slice p i zero = refl
length-slice p i (suc n) = ap suc (length-slice p (i + 1) n)

pub slice-add : (p : Pointer) (i a b : ℕ) → slice p i (a + b) ≡ slice p i a ++ slice p (i + a) b
unfolding slice
slice-add p i zero b =
    let start : 0 + b ≡ b = omega arith in
    let same : i + 0 ≡ i = omega arith in rw (start, same) refl
slice-add p i (suc a) b =
    let size : suc a + b ≡ suc (a + b) = omega arith in
    let next : i + suc a ≡ i + 1 + a = omega arith in
    rw (size, next) (ap (λ l. p i ∷ l) (slice-add p (i + 1) a b))

pub slice-ext :
    (p q : Pointer) (i n : ℕ)
    → ((k : ℕ) → i ≤ k → k < i + n → p k ≡ q k)
    → slice p i n ≡ slice q i n
unfolding slice
slice-ext p q i zero same = refl
slice-ext p q i (suc n) same =
    rw
      (
        same i (omega arith) (omega arith),
        slice-ext p q (i + 1) n (λ k lo hi. same k (omega arith) (omega arith)),
      )
      refl

-- The bytes are copied to `buf + i`: what stands at each place then.
unfoldable pub copy_to : Pointer → ℕ → List ℕ → Pointer
copy_to buf i [] k = buf k
copy_to buf i (c ∷ cs) k = if k == i then c else copy_to buf (i + 1) cs k

pub copy_to-before : (cs : List ℕ) (buf : Pointer) (i k : ℕ) → k < i → copy_to buf i cs k ≡ buf k
unfolding copy_to
copy_to-before [] buf i k h = refl
copy_to-before (c ∷ cs) buf i k h = ground (arith, copy_to-before cs buf (i + 1) k)

pub copy_to-after :
    (cs : List ℕ) (buf : Pointer) (i k : ℕ) → i + length cs ≤ k → copy_to buf i cs k ≡ buf k
unfolding copy_to
copy_to-after [] buf i k h = refl
copy_to-after (c ∷ cs) buf i k h = ground (arith, copy_to-after cs buf (i + 1) k)
