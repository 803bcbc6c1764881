-- ===== src/Parser/FieldLoop.antt =====
-- The field loop of the parser on printed fields.
use vmars.Prelude.{
  ℕ, zero, suc, ◌+◌, ◌-◌, ◌≤◌, ◌<◌, ◌≡◌, refl, List, [], ◌∷◌, ◌++◌, some, true, false, arith,
  Pointer, length, length-append, ltb, if◌then◌else◌, ap, ◌==◌, ◌&&◌,
}
use vmars.Parser.Defs.{
  ok, Callbacks, number, field, soh, read_value, read_field, field_value, parse_fields,
  checksum_text, opt_report_calculated_checksum,
}
use vmars.Parser.Encode.{
  Field, print_number, encode_field, encode_fields, IsField, AreFields, deliver,
}
use vmars.Parser.Number.{Stands, Stands-append, slice-Stands, read_number-print, find_soh-value}

-- Where the value of a printed field starts, if the field starts at `position`.
abbrev value_start : Field → ℕ → ℕ
value_start f position = position + length (print_number f.tag) + 1

pub length-encode_field :
    (f : Field) → length (encode_field f) ≡ length (print_number f.tag) + 1 + length f.value + 1
length-encode_field f = omega (
  arith,
  length-append (print_number f.tag) (b'=' ∷ (f.value ++ (soh ∷ []))),
  length-append f.value (soh ∷ []),
)

Stands-value :
    (f : Field) (buf : Pointer) (position : ℕ)
    → Stands (encode_field f) buf position
    → Stands (f.value ++ (soh ∷ [])) buf (value_start f position)
Stands-value f buf position s =
    (Stands-append (print_number f.tag) (b'=' ∷ (f.value ++ (soh ∷ []))) buf position s).1.1

read_value-encode :
    (f : Field) (len : ℕ) (buf : Pointer) (position : ℕ)
    → IsField f
    → Stands (encode_field f) buf position
    → position + length (encode_field f) ≤ len
    → read_value len buf (number f.tag (value_start f position))
      ≡ field f.tag (value_start f position) (value_start f position + length f.value)
unfolding read_value
read_value-encode f len buf position h s room = rw (
  read_value,
  find_soh-value f.value (len - value_start f position) buf (value_start f position) h.1
      (Stands-value f buf position s) (omega (arith, length-encode_field f)),
)

read_field-encode :
    (f : Field) (len : ℕ) (buf : Pointer) (position : ℕ)
    → IsField f
    → Stands (encode_field f) buf position
    → position + length (encode_field f) ≤ len
    → read_field len buf position
      ≡ some (field f.tag (value_start f position) (value_start f position + length f.value))
unfolding read_field
read_field-encode f len buf position h s room =
    let tag =
      read_number-print f.tag (f.value ++ (soh ∷ [])) (len - position) b'=' buf position s refl h.0
        (omega (arith, length-encode_field f)) in
    rw tag (ap some (read_value-encode f len buf position h s room))

field_value-encode :
    (options calculated : ℕ) (f : Field) (buf : Pointer) (position : ℕ)
    → Stands (encode_field f) buf position
    → field_value options calculated buf f.tag
        (value_start f position)
        (value_start f position + length f.value)
      ≡ (if opt_report_calculated_checksum options && f.tag == 10
          then checksum_text calculated
          else f.value)
field_value-encode options calculated f buf position s =
    let start = value_start f position in
    let span : start + length f.value - start ≡ length f.value = omega arith in
    let bytes = (Stands-append f.value (soh ∷ []) buf start (Stands-value f buf position s)).0 in
    rw (span, slice-Stands f.value buf start bytes)

module _ {C : Type 0} (callbacks : Callbacks C) (options calculated : ℕ) (buf : Pointer) where
  pub parse_fields-encode :
      (fs : List Field) (f : Field) (fuel len : ℕ) (context : C) (position : ℕ)
      → AreFields (f ∷ fs)
      → Stands (encode_fields (f ∷ fs)) buf position
      → position + length (encode_fields (f ∷ fs)) ≡ len
      → length fs < fuel
      → parse_fields callbacks fuel options calculated buf len context position
        ≡ some (deliver callbacks options calculated context (f ∷ fs), ok)
  unfolding parse_fields
  parse_fields-encode fs f zero len context position h s e enough = absurd (omega arith)
  parse_fields-encode [] f (suc fuel) len context position h s e enough =
      let here = (Stands-append (encode_field f) [] buf position s).0 in
      let size = length-append (encode_field f) [] in
      let last : ltb (value_start f position + length f.value + 1) len ≡ false =
        ground (arith, size, length-encode_field f) in
      rw (
        read_field-encode f len buf position h.0 here (omega (arith, size)),
        last,
        field_value-encode options calculated f buf position here,
      )
  parse_fields-encode (g ∷ gs) f (suc fuel) len context position h s e enough =
      let parts = Stands-append (encode_field f) (encode_fields (g ∷ gs)) buf position s in
      let size = length-append (encode_field f) (encode_fields (g ∷ gs)) in
      let size_g = length-append (encode_field g) (encode_fields gs) in
      let more : ltb (value_start f position + length f.value + 1) len ≡ true =
        ground (arith, size, size_g, length-encode_field f, length-encode_field g) in
      let next : value_start f position + length f.value + 1 ≡ position + length (encode_field f) =
        omega (arith, length-encode_field f) in
      rw
        (
          read_field-encode f len buf position h.0 parts.0 (omega (arith, size)),
          more,
          field_value-encode options calculated f buf position parts.0,
          next,
        )
        (parse_fields-encode gs g fuel len _ (position + length (encode_field f)) h.1 parts.1
          (omega (arith, size)) (omega arith))
