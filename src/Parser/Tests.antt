-- ===== src/Parser/Tests.antt =====
-- The parser at work on small messages.
use vmars.Prelude.{
  ℕ, zero, suc, ◌+◌, ◌%◌, ◌≤◌, ◌≡◌, refl, List, [], ◌∷◌, Option, none, some, true, ◌≢◌, get_or,
  arith, Pointer, pointer_to, length,
}
use vmars.Prelude.Text.{codes, fix_text}
use vmars.Parser.Defs.{
  Callbacks, ParseResult, ok, message_too_short, starts_with, read_number, find_soh,
  calculate_checksum, sum_blocks, sum_extra, supplied_checksum, read_value, read_field,
  parse_fields, parse_body, parse_length, vmars_fix_parse_msg, fix_type_of,
}
use vmars.Parser.Checksum.{sum_bytes, calculate_checksum-eq-sum}
use vmars.Parser.Sound.{accepted-IsChecked, bytes_consumed-le, IsChecked}
use vmars.Parser.Encode.{Field, fix42, print_fuel, encode}
use vmars.Parser.Number.{Stands-pointer_to}
use vmars.Parser.Cut.{parse-cut}
use vmars.Parser.RoundTrip.{parse-encode, delivered}

-- Keeps the tags and the values, last one first.
abbrev Seen : Type 0
Seen = List (ℕ × List ℕ)

abbrev collect : Callbacks Seen
collect = record { startp = none; tagp = λ seen t v. (t, v) ∷ seen; endp = none }

abbrev text : List ℕ
text = fix_text "8=FIX.4.2|9=5|35=D|10=181|"

abbrev message : Pointer
message = pointer_to text

abbrev outcome : Seen × ParseResult
outcome = ((10, codes "181") ∷ (35, codes "D") ∷ [], record { result = ok; bytes_consumed = 26 })

order : vmars_fix_parse_msg collect 0 message 26 [] ≡ some outcome
unfolding vmars_fix_parse_msg starts_with read_number parse_length parse_body parse_fields
    read_field read_value find_soh calculate_checksum sum_blocks sum_extra supplied_checksum
    vmars.Prelude.Int.◌+ℤ◌ vmars.Prelude.Int.◌*ℤ◌ vmars.Prelude.Int.◌-ℤ◌ vmars.Prelude.slice
order = refl

calculate_checksum-eq-sum_example : calculate_checksum message 19 ≡ sum_bytes message 0 19 % 256
calculate_checksum-eq-sum_example = calculate_checksum-eq-sum message 19

bytes_consumed-le_example : outcome.1.bytes_consumed ≤ 26
bytes_consumed-le_example = bytes_consumed-le collect 0 message 26 [] outcome order

accepted-IsChecked_example :
    (fix_type_of message ≢ none)
    × (outcome.1.bytes_consumed ≤ 26)
    × IsChecked collect 0 message outcome.1.bytes_consumed
unfolding starts_with
accepted-IsChecked_example = accepted-IsChecked collect 0 message 26 [] outcome order refl refl

abbrev order_field : Field
order_field = record { tag = 35; value = codes "D" }

parse-encode_example :
    vmars_fix_parse_msg collect 0 message 26 []
    ≡ some (
      delivered collect 0 message fix42 order_field [] [],
      record { result = ok; bytes_consumed = length (encode fix42 (order_field ∷ [])) },
    )
unfolding print_fuel
parse-encode_example =
    parse-encode collect 0 message fix42 order_field [] 26 []
      ((omega arith, ((λ e. absurd (omega (arith, e))), tt)), tt)
      (Stands-pointer_to (encode fix42 (order_field ∷ []))) (omega arith) (omega arith)

abbrev begun : List ℕ
begun = fix_text "8=FIX.4.2|9="

parse-cut_example :
    vmars_fix_parse_msg collect 0 (pointer_to begun) 12 []
    ≡ some ([], record { result = message_too_short; bytes_consumed = 12 })
unfolding print_fuel
parse-cut_example =
    parse-cut collect 0 (pointer_to begun) fix42 order_field [] 12 [] (Stands-pointer_to begun)
      (omega arith) (omega arith)
