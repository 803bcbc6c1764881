-- ===== src/Parser/Damaged.antt =====
-- The parser on a message whose checksum is not that of its bytes.
use vmars.Prelude.{
  ℕ, ◌%◌, ◌+◌, ◌≤◌, ◌<◌, ◌≡◌, ◌≢◌, refl, sym, ap, ◌∙◌, List, [], ◌∷◌, ◌++◌, some, true, false,
  arith, Pointer, advance, length, length-append,
}
use vmars.Prelude.Int.{pos, eqb_ℤ}
use vmars.Parser.Defs.{
  checksum_invalid, Callbacks, soh, int_max, check_sum_len, initial_header_len, parse_body,
  vmars_fix_parse_msg, calculate_checksum, supplied_checksum, checksum_text, opt_validate_checksum,
}
use vmars.Parser.Checksum.{sum_bytes, calculate_checksum-eq-sum}
use vmars.Parser.Encode.{
  Field, Version, print_fuel, print_number, encode_field, encode_fields, front, checksum_of,
}
use vmars.Parser.Framing.{sum_bytes-Stands, supplied_checksum-text}
use vmars.Parser.Number.{Stands, Stands-append}
use vmars.Parser.RoundTrip.{Stands-advance, parse-framed}

-- A trailer with any three digits.
abbrev pub trailer_with : ℕ → List ℕ
trailer_with c = encode_field (record { tag = 10; value = checksum_text c })

abbrev pub encode_with : Version → List Field → ℕ → List ℕ
encode_with v fs c = front v fs ++ trailer_with c

pub length-trailer_with : (c : ℕ) → length (trailer_with c) ≡ 7
unfolding print_fuel
length-trailer_with c = refl

trailer_with-checksum :
    (c : ℕ) (buf : Pointer) (i : ℕ)
    → Stands (trailer_with c) buf i
    → Stands (checksum_text c) (advance buf (i + 3)) 0
unfolding print_fuel
trailer_with-checksum c buf i s =
    let there : i + 1 + 1 + 1 ≡ i + 3 + 0 = omega arith in
    Stands-advance (checksum_text c) buf (i + 3) 0
      (rw there at ((Stands-append (checksum_text c) (soh ∷ []) buf (i + 1 + 1 + 1) s.1.1.1).0))

eqb_ℤ_differs : {a b : ℕ} → a ≢ b → eqb_ℤ (pos a) (pos b) ≡ false
eqb_ℤ_differs differ = ground (arith, differ)

module _ {C : Type 0} (callbacks : Callbacks C) (options : ℕ) (buf : Pointer) where
  -- A message that is printed but for its checksum, which is another one, is refused and skipped
  -- whole, and no callback is called; the checksum has three digits, and the parser was told to
  -- look at it.
  pub parse-damaged :
      (v : Version) (f : Field) (fs : List Field) (c len : ℕ) (context : C)
      → opt_validate_checksum options ≡ true
      → c < 1000
      → c ≢ checksum_of v (f ∷ fs)
      → Stands (encode_with v (f ∷ fs) c) buf 0
      → length (encode_with v (f ∷ fs) c) ≤ len
      → len ≤ int_max
      → vmars_fix_parse_msg callbacks options buf len context
        ≡ some (
          context,
          record { result = checksum_invalid; bytes_consumed = length (encode_with v (f ∷ fs) c) },
        )
  unfolding parse_body
  parse-damaged v f fs c len context validate digits other s room limit =
      let all = f ∷ fs in
      let n = length (encode_fields all) in
      let parts = Stands-append (front v all) (trailer_with c) buf 0 s in
      let size = length-append (front v all) (trailer_with c) in
      let size_t = length-trailer_with c in
      let (framed, body, at_end) =
        parse-framed callbacks options buf v f fs len context parts.0 (omega arith) limit in
      let start = initial_header_len + length (print_number n) + 1 in
      let calculated : calculate_checksum buf (n + start) ≡ checksum_of v all =
        calculate_checksum-eq-sum buf (n + start)
        ∙ ap (λ k. sum_bytes buf 0 k % 256) (omega arith)
        ∙ ap (λ k. k % 256) (sum_bytes-Stands (front v all) buf 0 parts.0) in
      let behind : 0 + length (front v all) ≡ start + n = omega arith in
      let supplied : supplied_checksum (advance buf (start + n + 3)) ≡ pos c =
        supplied_checksum-text c (advance buf (start + n + 3)) digits
          (trailer_with-checksum c buf (start + n) (rw behind at parts.1)) in
      let differs : eqb_ℤ (pos (checksum_of v all)) (pos c) ≡ false =
        eqb_ℤ_differs (λ e. other (sym e)) in
      let consumed : length (encode_with v all c) ≡ n + start + check_sum_len = omega arith in
      framed ∙ rw (parse_body, calculated, supplied, differs, validate, consumed) refl
