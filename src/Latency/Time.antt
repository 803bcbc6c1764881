-- ===== src/Latency/Time.antt =====
-- `diff` of src/latency_handler.c against the time that it is to be.
use vmars.Prelude.{ℕ, ◌+◌, ◌-◌, ◌*◌, ◌^◌, ◌%◌, ◌<◌, ◌≡◌, refl, arith}
use vmars.Prelude.Int.{ℤ, pos, pos_part, neg_part, sub_ℕ, ◌+ℤ◌, ◌-ℤ◌, ◌*ℤ◌}
use vmars.Latency.Defs.{to_int64, diff}

-- What the kernel says of a packet: numbers of 32 bits each.
abbrev pub IsTime : ℕ → ℕ → Type 0
IsTime sec nsec = (sec < 2 ^ 32) × (nsec < 2 ^ 32)

-- Nanoseconds since the beginning.
abbrev pub nanoseconds : ℕ → ℕ → ℕ
nanoseconds sec nsec = sec * 10 ^ 9 + nsec

-- Nanoseconds from one time to another, negative if it is the earlier one.
abbrev pub elapsed : ℕ → ℕ → ℕ → ℕ → ℤ
elapsed t0_sec t0_nsec t1_sec t1_nsec =
    sub_ℕ (nanoseconds t1_sec t1_nsec) (nanoseconds t0_sec t0_nsec)

sub_parts : (a b : ℕ) → pos_part (sub_ℕ a b) + b ≡ a + neg_part (sub_ℕ a b)
sub_parts a b = ground arith

sub_ℕ-shift : (a b c d : ℕ) → a + d ≡ c + b → sub_ℕ a b ≡ sub_ℕ c d
sub_ℕ-shift a b c d e = ground arith

to_int64-sub : (a b : ℕ) → a < 2 ^ 63 → b < 2 ^ 63 → to_int64 (sub_ℕ a b) ≡ sub_ℕ a b
to_int64-sub a b la lb =
    let parts = sub_parts a b in sub_ℕ-shift _ _ _ _ (omega (arith, parts, small a b la lb))
  where
    small :
        (a b : ℕ)
        → a < 2 ^ 63
        → b < 2 ^ 63
        → (pos_part (sub_ℕ a b) < 2 ^ 63)
          × (neg_part (sub_ℕ a b) < 2 ^ 63)
          × ((pos_part (sub_ℕ a b) + (2 ^ 64 - neg_part (sub_ℕ a b) % 2 ^ 64) + 2 ^ 63) % 2 ^ 64
              ≡ pos_part (sub_ℕ a b) + 2 ^ 63 - neg_part (sub_ℕ a b))
    small a b la lb = ground arith

sub-mul : (a b : ℕ) → sub_ℕ a b *ℤ pos 1000000000 ≡ sub_ℕ (a * 10 ^ 9) (b * 10 ^ 9)
unfolding ◌*ℤ◌
sub-mul a b = let parts = sub_parts a b in sub_ℕ-shift _ _ _ _ (omega arith)

sub-add : (a b c d : ℕ) → sub_ℕ a b +ℤ sub_ℕ c d ≡ sub_ℕ (a + c) (b + d)
unfolding ◌+ℤ◌
sub-add a b c d =
    let first = sub_parts a b in let second = sub_parts c d in sub_ℕ-shift _ _ _ _ (omega arith)

pos-sub : (a b : ℕ) → pos a -ℤ pos b ≡ sub_ℕ a b
unfolding ◌-ℤ◌
pos-sub a b = sub_ℕ-shift _ _ _ _ (omega arith)

-- For times of 32 bits no step leaves the range of an `int64_t`.
pub diff-elapsed :
    (t0_sec t0_nsec t1_sec t1_nsec : ℕ)
    → IsTime t0_sec t0_nsec
    → IsTime t1_sec t1_nsec
    → diff t0_sec t0_nsec t1_sec t1_nsec ≡ elapsed t0_sec t0_nsec t1_sec t1_nsec
unfolding diff
diff-elapsed t0_sec t0_nsec t1_sec t1_nsec h0 h1 =
    let seconds = to_int64-sub t1_sec t0_sec (omega arith) (omega arith) in
    let rest = to_int64-sub t1_nsec t0_nsec (omega arith) (omega arith) in
    let scaled = sub-mul t1_sec t0_sec in
    let in_range = to_int64-sub (t1_sec * 10 ^ 9) (t0_sec * 10 ^ 9) (omega arith) (omega arith) in
    let joined = sub-add (t1_sec * 10 ^ 9) (t0_sec * 10 ^ 9) t1_nsec t0_nsec in
    let whole =
      to_int64-sub (nanoseconds t1_sec t1_nsec) (nanoseconds t0_sec t0_nsec) (omega arith)
        (omega arith) in
    rw
      (
        pos-sub t1_sec t0_sec,
        pos-sub t1_nsec t0_nsec,
        seconds,
        rest,
        scaled,
        in_range,
        joined,
        whole,
      )
      refl
