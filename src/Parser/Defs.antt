-- ===== src/Parser/Defs.antt =====
-- The definitions of src/fixparser.c. `none` is undefined behaviour: a signed overflow.
use Prim.Native.Nat.{bit_and}
use vmars.Prelude.{
  ℕ, zero, suc, ◌+◌, ◌-◌, ◌*◌, ◌/◌, ◌%◌, ◌^◌, Bool, true, not, ◌&&◌, ◌||◌, List, [], ◌∷◌, Option,
  none, some, Pointer, advance, slice, ltb, leb, ◌==◌, if◌then◌else◌,
}
use vmars.Prelude.Int.{ℤ, pos, negsuc, ◌+ℤ◌, ◌-ℤ◌, ◌*ℤ◌, eqb_ℤ}
use vmars.Prelude.Text.{fix_text}

-- FIX_E... of fixparser.h; `ok` is 0.
pub data Code : Type 0 where
  ok message_too_short checksum_invalid tag_invalid empty_value invalid_type : Code

pub record ParseResult : Type 0 where
  pub result : Code
  pub bytes_consumed : ℕ

-- startp, tagp, endp; a null pointer is `none`. A value is handed over as its bytes.
pub record Callbacks (C : Type 0) : Type 0 where
  pub startp : Option (C → ℕ → ℕ → C)
  pub tagp : C → ℕ → List ℕ → C
  pub endp : Option (C → C)

infixl 5 ◌>>=◌
abbrev pub ◌>>=◌ {ℓ κ} : {A : Type ℓ} {B : Type κ} → Option A → (A → Option B) → Option B
none >>= f = none
some a >>= f = f a

abbrev pub initial_header_42 : List ℕ
initial_header_42 = fix_text "8=FIX.4.2|9="

abbrev pub initial_header_44 : List ℕ
initial_header_44 = fix_text "8=FIX.4.4|9="

abbrev pub initial_header_len : ℕ
initial_header_len = 12

abbrev pub check_sum_len : ℕ
check_sum_len = 7

abbrev pub soh : ℕ
soh = 1

-- `_m_psadbw(*pointer, zero)`: the sum of eight unsigned bytes, in 16 bits
abbrev pub psadbw : Pointer → ℕ → ℕ
psadbw p i =
    (p i + p (i + 1) + p (i + 2) + p (i + 3) + p (i + 4) + p (i + 5) + p (i + 6) + p (i + 7))
    % 2 ^ 16

-- A `long int` is its bit pattern below 2^64.
abbrev pub add_long : ℕ → ℕ → ℕ
add_long a b = (a + b) % 2 ^ 64

-- the sign extension of a `char`
abbrev pub char_to_long : ℕ → ℕ
char_to_long c = if ltb c 128 then c else c + (2 ^ 64 - 256)

unfoldable pub sum_blocks : ℕ → Pointer → ℕ → ℕ → ℕ
sum_blocks zero buf i sum = sum
sum_blocks (suc ii) buf i sum = sum_blocks ii buf (i + 8) (add_long sum (psadbw buf i))

unfoldable pub sum_extra : ℕ → Pointer → ℕ → ℕ → ℕ
sum_extra zero buf i sum = sum
sum_extra (suc n) buf i sum = sum_extra n buf (i + 1) (add_long sum (char_to_long (buf i)))

-- `buf_len & 0x07` and `buf_len >> 3`; `sum & 0xFF`.
unfoldable pub calculate_checksum : Pointer → ℕ → ℕ
calculate_checksum buf buf_len =
    let extra = buf_len % 8 in
    let sum = sum_blocks (buf_len / 8) buf 0 0 in sum_extra extra buf (buf_len - extra) sum % 256

abbrev pub signed_char : ℕ → ℤ
signed_char c = if ltb c 128 then pos c else negsuc (255 - c)

unfoldable pub supplied_checksum : Pointer → ℤ
supplied_checksum expected =
    (signed_char (expected 0) -ℤ pos b'0') *ℤ pos 100
    +ℤ (signed_char (expected 1) -ℤ pos b'0') *ℤ pos 10
    +ℤ (signed_char (expected 2) -ℤ pos b'0')

abbrev pub opt_validate_checksum : ℕ → Bool
opt_validate_checksum options = bit_and options 1 == 0

abbrev pub opt_report_calculated_checksum : ℕ → Bool
opt_report_calculated_checksum options = not (bit_and options 2 == 0)

-- `strncmp` over a text with no NUL, at the length of that text
unfoldable pub starts_with : List ℕ → Pointer → ℕ → Bool
starts_with [] buf i = true
starts_with (x ∷ xs) buf i = (buf i == x) && starts_with xs buf (i + 1)

abbrev pub is_digit : ℕ → Bool
is_digit c = leb b'0' c && leb c b'9'

abbrev pub int_max : ℕ
int_max = 2 ^ 31 - 1

-- n * 10 + (c - '0') as an `int`
abbrev pub push_digit : ℕ → ℕ → Option ℕ
push_digit n c = let n' = n * 10 + (c - b'0') in if leb n' int_max then some n' else none

-- What a loop over digits ends with: the number and the position behind it, or a bad byte.
pub data NumberRead : Type 0 where
  number : ℕ → ℕ → NumberRead
  bad_byte : NumberRead

-- The loops that read `msg_len` (up to SOH) and `tag` (up to '='). The first argument is
-- `len - position`: the buffer's end also ends the number.
unfoldable pub read_number : ℕ → ℕ → Pointer → ℕ → ℕ → Option NumberRead
read_number zero terminator buf position n = some (number n position)
read_number (suc left) terminator buf position n =
    let c = buf position in
    let more = push_digit n c >>= read_number left terminator buf (position + 1) in
    if is_digit c
    then more
    else if c == terminator
    then some (number n (position + 1))
    else some bad_byte

-- `valueEndPosition`, `none` for -1; the first argument is `len - position`.
unfoldable pub find_soh : ℕ → Pointer → ℕ → Option ℕ
find_soh zero buf position = none
find_soh (suc left) buf position =
    let later = find_soh left buf (position + 1) in
    if buf position == soh then some position else later

-- What `tagp` is called with: for tag 10, on request, the calculated checksum in its place.
abbrev pub checksum_text : ℕ → List ℕ
checksum_text c = (b'0' + c / 100) ∷ (b'0' + c / 10 % 10) ∷ (b'0' + c % 10) ∷ []

abbrev pub field_value : ℕ → ℕ → Pointer → ℕ → ℕ → ℕ → List ℕ
field_value options calculated buf tag start end =
    if opt_report_calculated_checksum options && tag == 10
    then checksum_text calculated
    else slice buf start (end - start)

-- One turn of the do loop: an error, or a field (its tag, the bounds of its value).
pub data FieldRead : Type 0 where
  field : ℕ → ℕ → ℕ → FieldRead
  field_error : Code → FieldRead

unfoldable pub read_value : ℕ → Pointer → NumberRead → FieldRead
read_value len buf bad_byte = field_error tag_invalid
read_value len buf (number tag start) = elim (find_soh (len - start) buf start) [
  | none ↦ field_error empty_value
  | some end ↦ field tag start end
]

unfoldable pub read_field : ℕ → Pointer → ℕ → Option FieldRead
read_field len buf position =
    read_number (len - position) b'=' buf position 0 >>= λ tag. some (read_value len buf tag)

-- `fix_type`, `none` for -1
abbrev pub fix_type_of : Pointer → Option ℕ
fix_type_of buf =
    if starts_with initial_header_44 buf 0
    then some 44
    else if starts_with initial_header_42 buf 0
    then some 42
    else none

module _ {C : Type 0} (callbacks : Callbacks C) where
  -- The do loop. Each turn moves the position on, so `len` turns are enough.
  unfoldable pub parse_fields : ℕ → ℕ → ℕ → Pointer → ℕ → C → ℕ → Option (C × Code)
  parse_fields zero options calculated buf len context position = none
  parse_fields (suc fuel) options calculated buf len context position =
      read_field len buf position >>= elim [
        | field_error e ↦ some (context, e)
        | field tag start end ↦
            let context' =
              callbacks.tagp context tag (field_value options calculated buf tag start end) in
            let rest = parse_fields fuel options calculated buf len context' (end + 1) in
            if ltb (end + 1) len then rest else some (context', ok)
      ]

  abbrev pub call_start : C → ℕ → ℕ → C
  call_start context msg_len fix_type = elim callbacks.startp [
    | none ↦ context
    | some f ↦ f context msg_len fix_type
  ]

  abbrev pub call_end : C → C
  call_end context = elim callbacks.endp [ none ↦ context | some f ↦ f context ]

  -- Behind the message's length: the checksum, then the fields. `len` is the message's own.
  unfoldable pub parse_body : ℕ → Pointer → ℕ → ℕ → ℕ → C → Option (C × ParseResult)
  parse_body options buf fix_type msg_len position context =
      let len = msg_len + position + check_sum_len in
      let calculated = calculate_checksum buf (msg_len + position) in
      let checksum = supplied_checksum (advance buf (position + msg_len + 3)) in
      let fields =
        parse_fields len options calculated buf len (call_start context msg_len fix_type) position
        >>= λ (r : C × Code). some (
          elim r.1 [ ok ↦ call_end r.0 | _ ↦ r.0 ],
          record { result = r.1; bytes_consumed = len },
        ) in
      if opt_validate_checksum options && not (eqb_ℤ (pos calculated) checksum)
      then some (context, record { result = checksum_invalid; bytes_consumed = len })
      else fields

  -- Behind the digits of the message's length.
  unfoldable pub parse_length : ℕ → Pointer → ℕ → ℕ → C → NumberRead → Option (C × ParseResult)
  parse_length options buf len fix_type context bad_byte =
      some (context, record { result = tag_invalid; bytes_consumed = len })
  parse_length options buf len fix_type context (number msg_len position) =
      let body = parse_body options buf fix_type msg_len position context in
      if msg_len == 0 || ltb len (msg_len + position + check_sum_len)
      then some (context, record { result = message_too_short; bytes_consumed = len })
      else body

  unfoldable pub vmars_fix_parse_msg : ℕ → Pointer → ℕ → C → Option (C × ParseResult)
  vmars_fix_parse_msg options buf len context =
      let header = initial_header_len in
      let run = λ (fix_type : ℕ).
        read_number (len - header) soh buf header 0
        >>= parse_length options buf len fix_type context in
      if ltb len header
      then some (context, record { result = message_too_short; bytes_consumed = len })
      else elim (fix_type_of buf) [
        | none ↦ some (context, record { result = invalid_type; bytes_consumed = len })
        | some fix_type ↦ run fix_type
      ]
