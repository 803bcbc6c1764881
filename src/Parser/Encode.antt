-- ===== src/Parser/Encode.antt =====
-- A reference printer of FIX messages: what the parser is to accept, and what it is to report.
use vmars.Prelude.{
  ℕ, zero, suc, ◌+◌, ◌/◌, ◌%◌, ◌≤◌, ◌≢◌, List, [], ◌∷◌, ◌++◌, length, ltb, if◌then◌else◌, ◌==◌,
}
use vmars.Parser.Defs.{
  Callbacks, initial_header_42, initial_header_44, soh, checksum_text, int_max,
  opt_report_calculated_checksum,
}
use mathlib.Core.Bool.{◌&&◌}

pub record Field : Type 0 where
  pub tag : ℕ
  pub value : List ℕ

pub data Version : Type 0 where
  fix42 fix44 : Version

abbrev pub header_of : Version → List ℕ
header_of fix42 = initial_header_42
header_of fix44 = initial_header_44

abbrev pub number_of : Version → ℕ
number_of fix42 = 42
number_of fix44 = 44

-- Decimal digits, most significant first; `n` is fuel enough for itself.
unfoldable pub print_fuel : ℕ → ℕ → List ℕ
print_fuel zero n = (b'0' + n % 10) ∷ []
print_fuel (suc f) n =
    let front = print_fuel f (n / 10) in
    if ltb n 10 then (b'0' + n) ∷ [] else front ++ ((b'0' + n % 10) ∷ [])

abbrev pub print_number : ℕ → List ℕ
print_number n = print_fuel n n

abbrev pub encode_field : Field → List ℕ
encode_field f = print_number f.tag ++ (b'=' ∷ (f.value ++ (soh ∷ [])))

abbrev pub encode_fields : List Field → List ℕ
encode_fields [] = []
encode_fields (f ∷ fs) = encode_field f ++ encode_fields fs

abbrev pub total : List ℕ → ℕ
total [] = 0
total (x ∷ xs) = x + total xs

-- All but the trailer: header, length of the body, body.
abbrev pub front : Version → List Field → List ℕ
front v fs = header_of v ++ (print_number (length (encode_fields fs)) ++ (soh ∷ encode_fields fs))

abbrev pub checksum_of : Version → List Field → ℕ
checksum_of v fs = total (front v fs) % 256

abbrev pub trailer : Version → List Field → Field
trailer v fs = record { tag = 10; value = checksum_text (checksum_of v fs) }

abbrev pub encode : Version → List Field → List ℕ
encode v fs = front v fs ++ encode_field (trailer v fs)

abbrev pub HasNoSoh : List ℕ → Type 0
HasNoSoh [] = Unit
HasNoSoh (x ∷ xs) = (x ≢ soh) × HasNoSoh xs

-- A field that can be written: its tag is an `int`, its value is free of the separator.
abbrev pub IsField : Field → Type 0
IsField f = (f.tag ≤ int_max) × HasNoSoh f.value

abbrev pub AreFields : List Field → Type 0
AreFields [] = Unit
AreFields (f ∷ fs) = IsField f × AreFields fs

-- The callback's context after these fields, in order; the value of tag 10 is the calculated
-- checksum if that is asked for.
abbrev pub deliver : {C : Type 0} → Callbacks C → ℕ → ℕ → C → List Field → C
deliver cb options calculated context [] = context
deliver cb options calculated context (f ∷ fs) =
    let value =
      if opt_report_calculated_checksum options && f.tag == 10
      then checksum_text calculated
      else f.value in
    deliver cb options calculated (cb.tagp context f.tag value) fs
