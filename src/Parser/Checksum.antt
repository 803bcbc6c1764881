-- ===== src/Parser/Checksum.antt =====
-- The checksum by blocks of eight, and its tail of signed characters.
use vmars.Prelude.{ℕ, zero, suc, ◌+◌, ◌-◌, ◌*◌, ◌/◌, ◌%◌, ◌≡◌, ap, ◌∙◌, arith, Pointer}
use native.Mathlib.Nat.{zero-add}
use vmars.Parser.Defs.{add_long, psadbw, char_to_long, sum_blocks, sum_extra, calculate_checksum}

-- The sum of the `n` bytes from `i` on: the checksum that FIX defines is this modulo 256.
unfoldable pub sum_bytes : Pointer → ℕ → ℕ → ℕ
sum_bytes buf i zero = 0
sum_bytes buf i (suc n) = buf i + sum_bytes buf (i + 1) n

sum_bytes-add :
    (buf : Pointer) (i m n : ℕ)
    → sum_bytes buf i (m + n) ≡ sum_bytes buf i m + sum_bytes buf (i + m) n
unfolding sum_bytes
sum_bytes-add buf i zero n = ground arith
sum_bytes-add buf i (suc m) n =
    let there : suc m + n ≡ suc (m + n) = omega arith in
    let here : i + suc m ≡ i + 1 + m = omega arith in
    rw (there, here) (omega (arith, sum_bytes-add buf (i + 1) m n))

sum_bytes_eight :
    (buf : Pointer) (i : ℕ)
    → sum_bytes buf i 8
      ≡ buf i
        + buf (i + 1)
        + buf (i + 2)
        + buf (i + 3)
        + buf (i + 4)
        + buf (i + 5)
        + buf (i + 6)
        + buf (i + 7)
unfolding sum_bytes
sum_bytes_eight buf i = ground arith

sum_blocks-mod :
    (k : ℕ) (buf : Pointer) (i sum : ℕ)
    → sum_blocks k buf i sum % 256 ≡ (sum + sum_bytes buf i (8 * k)) % 256
unfolding sum_blocks
sum_blocks-mod zero buf i sum = unfold sum_bytes in ground arith
sum_blocks-mod (suc k) buf i sum =
    let step : sum_bytes buf i (8 * suc k) ≡ sum_bytes buf i 8 + sum_bytes buf (i + 8) (8 * k) =
      ap (sum_bytes buf i) (omega arith) ∙ sum_bytes-add buf i 8 (8 * k) in
    omega (
      arith,
      sum_blocks-mod k buf (i + 8) (add_long sum (psadbw buf i)),
      step,
      sum_bytes_eight buf i,
    )

sum_extra-mod :
    (n : ℕ) (buf : Pointer) (i sum : ℕ)
    → sum_extra n buf i sum % 256 ≡ (sum + sum_bytes buf i n) % 256
unfolding sum_extra sum_bytes
sum_extra-mod zero buf i sum = omega arith
sum_extra-mod (suc n) buf i sum =
    ground (arith, sum_extra-mod n buf (i + 1) (add_long sum (char_to_long (buf i))))

-- Summing eight bytes at a time in 64 bits, and the tail as signed characters, gives the sum of
-- all `n` bytes, each unsigned, modulo 256: the checksum of the FIX protocol.
pub calculate_checksum-eq-sum :
    (buf : Pointer) (n : ℕ) → calculate_checksum buf n ≡ sum_bytes buf 0 n % 256
unfolding calculate_checksum
calculate_checksum-eq-sum buf n =
    let blocks = n / 8 in
    let split : n ≡ 8 * blocks + n % 8 = omega arith in
    let all : sum_bytes buf 0 n
        ≡ sum_bytes buf 0 (8 * blocks) + sum_bytes buf (8 * blocks) (n % 8) =
      ap (sum_bytes buf 0) split ∙ rw zero-add at (sum_bytes-add buf 0 (8 * blocks) (n % 8)) in
    let start : n - n % 8 ≡ 8 * blocks = omega arith in
    rw (start, all)
      (omega (
        arith,
        sum_extra-mod (n % 8) buf (8 * blocks) (sum_blocks blocks buf 0 0),
        sum_blocks-mod blocks buf 0 0,
      ))
