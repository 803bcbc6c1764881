-- ===== src/Parser/RoundTrip.antt =====
-- The parser on a printed message.
use vmars.Prelude.{
  ℕ, ◌+◌, ◌-◌, ◌%◌, ◌≤◌, ◌≡◌, refl, List, [], ◌∷◌, ◌++◌, some, true, false, arith, Pointer, advance,
  length, length-append, ltb, ap, ◌∙◌, append_assoc, append-nil, Bool-cases, ==-refl, inl, inr,
  ◌==◌,
}
use vmars.Prelude.Int.{pos, eqb_ℤ}
use vmars.Parser.Defs.{
  ok, Callbacks, soh, int_max, check_sum_len, initial_header_len, parse_body, parse_length,
  call_start, call_end, vmars_fix_parse_msg, calculate_checksum, supplied_checksum, checksum_text,
  opt_validate_checksum,
}
use vmars.Parser.Checksum.{sum_bytes, calculate_checksum-eq-sum}
use vmars.Parser.Encode.{
  Field, Version, fix42, fix44, header_of, number_of, print_fuel, print_number, encode_field,
  encode_fields, front, checksum_of, trailer, encode, IsField, AreFields, deliver,
}
use vmars.Parser.Framing.{fix_type_of-header, sum_bytes-Stands, supplied_checksum-text}
use vmars.Parser.Number.{Stands, Stands-append, Stands-join, read_number-print}
use vmars.Parser.FieldLoop.{length-encode_field, parse_fields-encode}

encode_fields-append :
    (fs : List Field) (t : Field)
    → encode_fields (fs ++ (t ∷ [])) ≡ encode_fields fs ++ encode_field t
encode_fields-append [] t = append-nil (encode_field t)
encode_fields-append (f ∷ fs) t =
    rw
      (encode_fields-append fs t, append_assoc (encode_field f) (encode_fields fs) (encode_field t))

AreFields-append :
    (fs : List Field) (t : Field) → AreFields fs → IsField t → AreFields (fs ++ (t ∷ []))
AreFields-append [] t h k = (k, tt)
AreFields-append (f ∷ fs) t h k = (h.0, AreFields-append fs t h.1 k)

length-le-encode_fields : (fs : List Field) → length fs ≤ length (encode_fields fs)
length-le-encode_fields [] = omega arith
length-le-encode_fields (f ∷ fs) = omega (
  arith,
  length-le-encode_fields fs,
  length-append (encode_field f) (encode_fields fs),
  length-encode_field f,
)

trailer-IsField : (v : Version) (fs : List Field) → IsField (trailer v fs)
trailer-IsField v fs = omega arith

pub length-trailer : (v : Version) (fs : List Field) → length (encode_field (trailer v fs)) ≡ 7
unfolding print_fuel
length-trailer v fs = refl

pub Stands-advance :
    (xs : List ℕ) (buf : Pointer) (k i : ℕ) → Stands xs buf (k + i) → Stands xs (advance buf k) i
Stands-advance [] buf k i h = tt
Stands-advance (x ∷ xs) buf k i h =
    let e : k + i + 1 ≡ k + (i + 1) = omega arith in
    (h.0, Stands-advance xs buf k (i + 1) (rw e at h.1))

-- The checksum's digits stand three bytes into the trailer.
Stands-checksum :
    (v : Version) (fs : List Field) (buf : Pointer) (i : ℕ)
    → Stands (encode_field (trailer v fs)) buf i
    → Stands (checksum_text (checksum_of v fs)) (advance buf (i + 3)) 0
unfolding print_fuel
Stands-checksum v fs buf i s =
    let text = checksum_text (checksum_of v fs) in
    let there : i + 1 + 1 + 1 ≡ i + 3 + 0 = omega arith in
    Stands-advance text buf (i + 3) 0
      (rw there at ((Stands-append text (soh ∷ []) buf (i + 1 + 1 + 1) s.1.1.1).0))

pub length-header : (v : Version) → length (header_of v) ≡ 12
length-header fix42 = refl
length-header fix44 = refl

module _ {C : Type 0} (callbacks : Callbacks C) (options : ℕ) (buf : Pointer) where
  -- The context that a printed message leaves: each field in order, the trailer last.
  abbrev pub delivered : Version → Field → List Field → C → C
  delivered v f fs context =
      let all = f ∷ fs in
      call_end callbacks (
        deliver callbacks options (checksum_of v all)
          (call_start callbacks context (length (encode_fields all)) (number_of v))
          (f ∷ (fs ++ (trailer v all ∷ []))))

  parse_body-encode :
      (v : Version) (f : Field) (fs : List Field) (position : ℕ) (context : C)
      → AreFields (f ∷ fs)
      → Stands (front v (f ∷ fs)) buf 0
      → Stands (encode_fields (f ∷ fs) ++ encode_field (trailer v (f ∷ fs))) buf position
      → position + length (encode_fields (f ∷ fs)) ≡ length (front v (f ∷ fs))
      → parse_body callbacks options buf
          (number_of v)
          (length (encode_fields (f ∷ fs)))
          position
          context
        ≡ some (
          delivered v f fs context,
          record {
            result = ok;
            bytes_consumed = length (encode_fields (f ∷ fs)) + position + check_sum_len;
          },
        )
  unfolding parse_body
  parse_body-encode v f fs position context h sf sb e =
      let all = f ∷ fs in
      let n = length (encode_fields all) in
      let t = trailer v all in
      let calculated : calculate_checksum buf (n + position) ≡ checksum_of v all =
        calculate_checksum-eq-sum buf (n + position)
        ∙ ap (λ k. sum_bytes buf 0 k % 256) (omega arith)
        ∙ ap (λ k. k % 256) (sum_bytes-Stands (front v all) buf 0 sf) in
      let supplied : supplied_checksum (advance buf (position + n + 3)) ≡ pos (checksum_of v all) =
        supplied_checksum-text (checksum_of v all) (advance buf (position + n + 3)) (omega arith) (
          Stands-checksum v all buf (position + n)
            (Stands-append (encode_fields all) (encode_field t) buf position sb).1) in
      let split : encode_fields (f ∷ (fs ++ (t ∷ []))) ≡ encode_fields all ++ encode_field t =
        encode_fields-append all t in
      let size = length-append (encode_fields all) (encode_field t) in
      let fields =
        parse_fields-encode callbacks options (checksum_of v all) buf (fs ++ (t ∷ [])) f
          (n + position + check_sum_len) (n + position + check_sum_len)
          (call_start callbacks context n (number_of v)) position
          (AreFields-append all t h (trailer-IsField v all)) (rw split sb)
          (rw split (omega (arith, size, length-trailer v all)))
          (omega (arith, length-le-encode_fields all, length-append fs (t ∷ []))) in
      let same : eqb_ℤ (pos (checksum_of v all)) (pos (checksum_of v all)) ≡ true = ==-refl _ in
      elim (Bool-cases (opt_validate_checksum options)) [
        | inl verify ↦ rw (calculated, supplied, fields, same, verify)
        | inr skip ↦ rw (calculated, supplied, fields, skip)
      ]

  -- What has the header, the length and the fields of a printed message, and room for a trailer, is
  -- judged by what `parse_body` says.
  pub parse-framed :
      (v : Version) (f : Field) (fs : List Field) (len : ℕ) (context : C)
      → Stands (front v (f ∷ fs)) buf 0
      → length (front v (f ∷ fs)) + check_sum_len ≤ len
      → len ≤ int_max
      → let n = length (encode_fields (f ∷ fs)) in
        let start = initial_header_len + length (print_number n) + 1 in
        (vmars_fix_parse_msg callbacks options buf len context
          ≡ parse_body callbacks options buf (number_of v) n start context)
        × Stands (encode_fields (f ∷ fs)) buf start
        × (start + n ≡ length (front v (f ∷ fs)))
  unfolding vmars_fix_parse_msg parse_length
  parse-framed v f fs len context s room limit =
      let all = f ∷ fs in
      let n = length (encode_fields all) in
      let body = encode_fields all in
      let size_h = length-header v in
      let digits = print_number n in
      let size_f = length-append (header_of v) (digits ++ (soh ∷ body)) in
      let size_d = length-append digits (soh ∷ body) in
      let header = Stands-append (header_of v) (digits ++ (soh ∷ body)) buf 0 s in
      let start = initial_header_len + length digits + 1 in
      let long : ltb len initial_header_len ≡ false = ground arith in
      let header_end : 0 + length (header_of v) ≡ initial_header_len = omega arith in
      let number_there : Stands (digits ++ (soh ∷ body)) buf initial_header_len =
        rw header_end at header.1 in
      let read =
        read_number-print n body (len - initial_header_len) soh buf initial_header_len number_there
          refl (omega arith) (omega arith) in
      let nonzero : (n == 0) ≡ false =
        ground (arith, length-append (encode_field f) (encode_fields fs), length-encode_field f) in
      let fits : ltb len (n + start + check_sum_len) ≡ false = ground arith in
      (
        rw (long, fix_type_of-header v buf header.0, read, nonzero, fits) refl,
        (Stands-append digits (soh ∷ body) buf initial_header_len number_there).1.1,
        omega arith,
      )

  -- A printed message, whatever stands behind it in memory, is accepted and consumed exactly, and
  -- the callbacks see its length, its version, each of its fields in order, and its checksum as a
  -- field with tag 10. The message has at least one field, tags that are `int`s, values without
  -- the separator, and a length that is an `int`.
  pub parse-encode :
      (v : Version) (f : Field) (fs : List Field) (len : ℕ) (context : C)
      → AreFields (f ∷ fs)
      → Stands (encode v (f ∷ fs)) buf 0
      → length (encode v (f ∷ fs)) ≤ len
      → len ≤ int_max
      → vmars_fix_parse_msg callbacks options buf len context
        ≡ some (
          delivered v f fs context,
          record { result = ok; bytes_consumed = length (encode v (f ∷ fs)) },
        )
  parse-encode v f fs len context h s room limit =
      let all = f ∷ fs in
      let n = length (encode_fields all) in
      let t = encode_field (trailer v all) in
      let parts = Stands-append (front v all) t buf 0 s in
      let size = length-append (front v all) t in
      let size_t = length-trailer v all in
      let (framed, body, at_end) = parse-framed v f fs len context parts.0 (omega arith) limit in
      let start = initial_header_len + length (print_number n) + 1 in
      let consumed : length (encode v all) ≡ n + start + check_sum_len = omega arith in
      let behind : 0 + length (front v all) ≡ start + n = omega arith in
      let body_there : Stands (encode_fields all ++ t) buf start =
        Stands-join (encode_fields all) t buf start body (rw behind at parts.1) in
      framed
      ∙ rw consumed (parse_body-encode v f fs start context h parts.0 body_there (omega arith))
