-- ===== src/Parser/Sound.antt =====
-- What a finished call of `vmars_fix_parse_msg` says of its input.
use vmars.Prelude.{
  ℕ, zero, suc, ◌+◌, ◌-◌, ◌%◌, ◌≤◌, ◌<◌, ◌≡◌, ◌≢◌, refl, inl, inr, Option, none, some, true, arith,
  Pointer, advance, Bool-cases, Option-cases, ltb,
}
use vmars.Prelude.Int.{pos, eq_of_parts}
use vmars.Parser.Defs.{
  ok, ParseResult, Callbacks, NumberRead, number, bad_byte, soh, check_sum_len, initial_header_len,
  supplied_checksum, opt_validate_checksum, push_digit, read_number, find_soh, parse_body,
  parse_length, fix_type_of, vmars_fix_parse_msg, ◌>>=◌,
}
use vmars.Parser.Checksum.{sum_bytes, calculate_checksum-eq-sum}

-- Inversion of a bind that succeeded.
pub bind-eq-some {ℓ κ} :
    {A : Type ℓ} {B : Type κ} (m : Option A) (f : A → Option B) {b : B}
    → (m >>= f) ≡ some b
    → (a : A) × (m ≡ some a) × (f a ≡ some b)
bind-eq-some none f e = cc
bind-eq-some (some a) f e = (a, refl, e)

-- The position behind a number lies within the bytes that were left.
pub read_number_bounds :
    (left terminator : ℕ) (buf : Pointer) (position n v p : ℕ)
    → read_number left terminator buf position n ≡ some (number v p)
    → (position ≤ p) × (p ≤ position + left)
unfolding read_number
read_number_bounds zero terminator buf position n v p e = ground arith
read_number_bounds (suc left) terminator buf position n v p e =
    elim (Option-cases (push_digit n (buf position))) [
      | inl over ↦ ground arith
      | inr (n', fits) ↦
          ground (arith, read_number_bounds left terminator buf (position + 1) n' v p)
    ]

pub find_soh_bounds :
    (left : ℕ) (buf : Pointer) (position end : ℕ)
    → find_soh left buf position ≡ some end
    → (position ≤ end) × (end < position + left) × (buf end ≡ soh)
unfolding find_soh
find_soh_bounds zero buf position end e = cc
find_soh_bounds (suc left) buf position end e =
    ground (arith, find_soh_bounds left buf (position + 1) end)

module _ {C : Type 0} (callbacks : Callbacks C) (options : ℕ) (buf : Pointer) where
  parse_body-eq-some :
      (fix_type msg_len position : ℕ) (context : C) (out : C × ParseResult)
      → parse_body callbacks options buf fix_type msg_len position context ≡ some out
      → out.1.bytes_consumed ≡ msg_len + position + check_sum_len
  unfolding parse_body
  parse_body-eq-some fix_type msg_len position context out e = ground arith

  parse_length-le :
      (len fix_type : ℕ) (context : C) (r : NumberRead) (out : C × ParseResult)
      → parse_length callbacks options buf len fix_type context r ≡ some out
      → out.1.bytes_consumed ≤ len
  unfolding parse_length
  parse_length-le len fix_type context bad_byte out e = ground arith
  parse_length-le len fix_type context (number msg_len position) out e =
      ground (arith, parse_body-eq-some fix_type msg_len position context out)

  -- How a call that returns `out` went.
  data Parsed (len : ℕ) (context : C) (out : C × ParseResult) : Type 0 where
    stopped : out.1.result ≢ ok → out.1.bytes_consumed ≡ len → Parsed len context out
    reached :
        (fix_type : ℕ) (r : NumberRead)
        → fix_type_of buf ≡ some fix_type
        → parse_length callbacks options buf len fix_type context r ≡ some out
        → Parsed len context out

  parse-Parsed :
      (len : ℕ) (context : C) (out : C × ParseResult)
      → vmars_fix_parse_msg callbacks options buf len context ≡ some out
      → Parsed len context out
  unfolding vmars_fix_parse_msg
  parse-Parsed len context out e = elim (Bool-cases (ltb len initial_header_len)) [
    | inl short ↦ stopped (ground arith) (ground arith)
    | inr long ↦ elim (Option-cases (fix_type_of buf)) [
      | inl unknown ↦ stopped (ground arith) (ground arith)
      | inr (fix_type, known) ↦
          let (r, _, e') =
            bind-eq-some (read_number (len - initial_header_len) soh buf initial_header_len 0)
              (parse_length callbacks options buf len fix_type context) (rw (long, known) at e) in
          reached fix_type r known e'
    ]
  ]

  -- However it ends, the parser consumes no more than the `len` bytes that it was given.
  pub bytes_consumed-le :
      (len : ℕ) (context : C) (out : C × ParseResult)
      → vmars_fix_parse_msg callbacks options buf len context ≡ some out
      → out.1.bytes_consumed ≤ len
  bytes_consumed-le len context out e = elim (parse-Parsed len context out e) [
    | stopped _ all ↦ omega arith
    | reached fix_type r _ e' ↦ parse_length-le len fix_type context r out e'
  ]

  parse_length-pos :
      (len fix_type : ℕ) (context : C) (r : NumberRead) (out : C × ParseResult)
      → parse_length callbacks options buf len fix_type context r ≡ some out
      → 0 < len
      → 0 < out.1.bytes_consumed
  unfolding parse_length
  parse_length-pos len fix_type context bad_byte out e h = ground arith
  parse_length-pos len fix_type context (number msg_len position) out e h =
      ground (arith, parse_body-eq-some fix_type msg_len position context out)

  -- Of at least one byte the parser consumes at least one, however it ends.
  pub bytes_consumed-pos :
      (len : ℕ) (context : C) (out : C × ParseResult)
      → vmars_fix_parse_msg callbacks options buf len context ≡ some out
      → 0 < len
      → 0 < out.1.bytes_consumed
  bytes_consumed-pos len context out e h = elim (parse-Parsed len context out e) [
    | stopped _ all ↦ omega arith
    | reached fix_type r _ e' ↦ parse_length-pos len fix_type context r out e' h
  ]

  -- A message of `n` bytes that the checksum covers up to its last seven.
  pub record IsChecked (n : ℕ) : Type 0 where
    pub room : check_sum_len ≤ n
    pub agrees :
        pos (sum_bytes buf 0 (n - check_sum_len) % 256)
        ≡ supplied_checksum (advance buf (n - check_sum_len + 3))

  parse_body-IsChecked :
      (fix_type msg_len position : ℕ) (context : C) (out : C × ParseResult)
      → parse_body callbacks options buf fix_type msg_len position context ≡ some out
      → opt_validate_checksum options ≡ true
      → out.1.result ≡ ok
      → IsChecked out.1.bytes_consumed
  unfolding parse_body
  parse_body-IsChecked fix_type msg_len position context out e v h = record {
    room = omega (arith, parse_body-eq-some fix_type msg_len position context out e);
    agrees =
        let n = parse_body-eq-some fix_type msg_len position context out e in
        let before : out.1.bytes_consumed - check_sum_len ≡ msg_len + position = omega (arith, n) in
        let behind : msg_len + position + 3 ≡ position + msg_len + 3 = omega arith in
        rw (before, behind)
          (eq_of_parts _ _ (ground (arith, calculate_checksum-eq-sum buf (msg_len + position))));
  }

  parse_length-IsChecked :
      (len fix_type : ℕ) (context : C) (r : NumberRead) (out : C × ParseResult)
      → parse_length callbacks options buf len fix_type context r ≡ some out
      → opt_validate_checksum options ≡ true
      → out.1.result ≡ ok
      → IsChecked out.1.bytes_consumed
  unfolding parse_length
  parse_length-IsChecked len fix_type context bad_byte out e v h = absurd (ground arith)
  parse_length-IsChecked len fix_type context (number msg_len position) out e v h =
      parse_body-IsChecked fix_type msg_len position context out (ground arith) v h

  -- A message that is accepted while checksums are verified begins with one of the two known
  -- headers, lies within the `len` bytes given, and carries, in its last four to two bytes, the
  -- checksum of all that stands before its last seven: their sum modulo 256.
  pub accepted-IsChecked :
      (len : ℕ) (context : C) (out : C × ParseResult)
      → vmars_fix_parse_msg callbacks options buf len context ≡ some out
      → opt_validate_checksum options ≡ true
      → out.1.result ≡ ok
      → (fix_type_of buf ≢ none) × (out.1.bytes_consumed ≤ len) × IsChecked out.1.bytes_consumed
  accepted-IsChecked len context out e v h = elim (parse-Parsed len context out e) [
    | stopped bad _ ↦ absurd (bad h)
    | reached fix_type r known e' ↦ (
      ground arith,
      bytes_consumed-le len context out e,
      parse_length-IsChecked len fix_type context r out e' v h,
    )
  ]
