-- ===== src/Parser/Cut.antt =====
-- The parser on a message that is cut off.
use native.Mathlib.Decide.{dec_le}
use vmars.Prelude.{
  ℕ, zero, suc, ◌+◌, ◌-◌, ◌*◌, ◌≤◌, ◌<◌, ◌≡◌, refl, List, [], ◌∷◌, ◌++◌, some, arith, Pointer, take,
  length, length-append, append_assoc, ltb, Bool-cases, inl, inr,
}
use vmars.Parser.Defs.{
  message_too_short, number, Callbacks, soh, int_max, read_number, check_sum_len,
  initial_header_len, parse_length, vmars_fix_parse_msg,
}
use vmars.Parser.Encode.{
  Field, Version, header_of, number_of, print_number, print_fuel, encode_field, encode_fields,
  trailer, encode,
}
use vmars.Parser.Framing.{fix_type_of-header}
use vmars.Parser.Number.{
  Stands, AreDigits, AreDigits-print, read_digits, read_digits-print, le-read_digits,
  read_number-print, Stands-join,
}
use vmars.Parser.RoundTrip.{length-header, length-trailer}

-- What a prefix of two parts has of them.
pub Stands-take_first :
    (k : ℕ) (xs ys : List ℕ) (buf : Pointer) (i : ℕ)
    → Stands (take k (xs ++ ys)) buf i
    → k ≤ length xs
    → Stands (take k xs) buf i
Stands-take_first zero xs ys buf i s h = tt
Stands-take_first (suc k) [] ys buf i s h = absurd (omega arith)
Stands-take_first (suc k) (x ∷ xs) ys buf i s h =
    (s.0, Stands-take_first k xs ys buf (i + 1) s.1 (omega arith))

pub Stands-take_both :
    (k : ℕ) (xs ys : List ℕ) (buf : Pointer) (i : ℕ)
    → Stands (take k (xs ++ ys)) buf i
    → length xs ≤ k
    → Stands xs buf i × Stands (take (k - length xs) ys) buf (i + length xs)
Stands-take_both k [] ys buf i s h =
    let e : i + 0 ≡ i = omega arith in let e' : k - 0 ≡ k = omega arith in (tt, rw (e, e') s)
Stands-take_both zero (x ∷ xs) ys buf i s h = absurd (omega arith)
Stands-take_both (suc k) (x ∷ xs) ys buf i s h =
    let (a, b) = Stands-take_both k xs ys buf (i + 1) s.1 (omega arith) in
    let e : i + suc (length xs) ≡ i + 1 + length xs = omega arith in
    let e' : suc k - suc (length xs) ≡ k - length xs = omega arith in ((s.0, a), rw (e, e') b)

-- Digits to the end of the buffer.
read_number-cut :
    (ds : List ℕ) (left terminator : ℕ) (buf : Pointer) (position n : ℕ)
    → AreDigits ds
    → Stands (take left ds) buf position
    → read_digits n ds ≤ int_max
    → left ≤ length ds
    → (m : ℕ) × (read_number left terminator buf position n ≡ some (number m (position + left)))
unfolding read_number
read_number-cut ds zero terminator buf position n d s fits h =
    (n, let e : position + 0 ≡ position = omega arith in rw e refl)
read_number-cut [] (suc left) terminator buf position n d s fits h = absurd (omega arith)
read_number-cut (c ∷ cs) (suc left) terminator buf position n d s fits h =
    let n' = n * 10 + (c - b'0') in
    let (m, rest) =
      read_number-cut cs left terminator buf (position + 1) n' d.1 s.1 fits (omega arith) in
    let e : position + suc left ≡ position + 1 + left = omega arith in
    (m, rw e (ground (arith, le-read_digits n' cs)))

-- The length of a message that ends `left` bytes into its length and what follows: what is read
-- reaches further than the bytes that are there.
read_cut :
    (n left position : ℕ) (tail : List ℕ) (buf : Pointer)
    → Stands (take left (print_number n ++ (soh ∷ tail))) buf position
    → n ≤ int_max
    → left < n + length (print_number n) + 1 + check_sum_len
    → (m p : ℕ) × (read_number left soh buf position 0 ≡ some (number m p))
      × (position + left < m + p + check_sum_len)
read_cut n left position tail buf s fits cut =
    let digits = print_number n in
    let value = read_digits-print n n (omega arith) in
    elim (dec_le left (length digits)) [
      | yes le ↦
          let (m, read) =
            read_number-cut digits left soh buf position 0 (AreDigits-print n n)
              (Stands-take_first left digits (soh ∷ tail) buf position s le) (omega (arith, value))
              le in
          (m, position + left, read, omega arith)
      | no gt ↦
          let (here, behind) =
            Stands-take_both left digits (soh ∷ tail) buf position s (omega arith) in
          let one : left - length digits ≡ suc (left - length digits - 1) = omega arith in
          let behind' : Stands (take (suc (left - length digits - 1)) (soh ∷ tail)) buf
              (position + length digits) =
            rw one at behind in
          (
            n,
            position + length digits + 1,
            read_number-print n [] left soh buf position
                (Stands-join digits (soh ∷ []) buf position here (behind'.0, tt)) refl fits
                (omega arith),
            omega arith,
          )
    ]

pub length-encode :
    (v : Version) (fs : List Field)
    → length (encode v fs)
      ≡ initial_header_len
        + length (print_number (length (encode_fields fs)))
        + 1
        + length (encode_fields fs)
        + check_sum_len
unfolding print_fuel
length-encode v fs = simp length-append (omega (arith, length-header v, length-trailer v fs))

module _ {C : Type 0} (callbacks : Callbacks C) (options : ℕ) (buf : Pointer) where
  parse_length-short :
      (len fix_type m position : ℕ) (context : C)
      → len < m + position + check_sum_len
      → parse_length callbacks options buf len fix_type context (number m position)
        ≡ some (context, record { result = message_too_short; bytes_consumed = len })
  unfolding parse_length
  parse_length-short len fix_type m position context h = ground arith

  -- A proper prefix of a printed message, whatever stands behind it in memory, is too short: all
  -- of its bytes are consumed, and no callback is called. The message has at least one field, and
  -- its length is an `int`.
  pub parse-cut :
      (v : Version) (f : Field) (fs : List Field) (len : ℕ) (context : C)
      → Stands (take len (encode v (f ∷ fs))) buf 0
      → len < length (encode v (f ∷ fs))
      → length (encode v (f ∷ fs)) ≤ int_max
      → vmars_fix_parse_msg callbacks options buf len context
        ≡ some (context, record { result = message_too_short; bytes_consumed = len })
  unfolding vmars_fix_parse_msg
  parse-cut v f fs len context s cut limit = elim (Bool-cases (ltb len initial_header_len)) [
    | inl short ↦ rw short refl
    | inr long ↦
        let all = f ∷ fs in
        let body = encode_fields all in
        let n = length body in
        let digits = print_number n in
        let last = encode_field (trailer v all) in
        let split : encode v all ≡ header_of v ++ (digits ++ (soh ∷ (body ++ last))) =
          simp append_assoc in
        let size_h = length-header v in
        let enough : initial_header_len ≤ len = ground arith in
        let parts =
          Stands-take_both len (header_of v) (digits ++ (soh ∷ (body ++ last))) buf 0
            (rw split at s) (omega (arith, size_h)) in
        let there : Stands (take (len - initial_header_len) (digits ++ (soh ∷ (body ++ last)))) buf
            initial_header_len =
          rw size_h at parts.1 in
        let (m, p, read, short) =
          read_cut n (len - initial_header_len) initial_header_len (body ++ last) buf there
            (omega (arith, length-encode v all)) (omega (arith, length-encode v all)) in
        rw (long, fix_type_of-header v buf parts.0, read)
          (parse_length-short len (number_of v) m p context (omega arith))
  ]
