-- ===== src/Fix/Details.antt =====
-- `fix_details_t` and `handle_tag`: what is kept of a message's fields.
use vmars.Prelude.{ℕ, ◌+◌, ◌-◌, ◌%◌, ◌^◌, List, [], none, length, get_or, ltb, ◌==◌, if◌then◌else◌}
use vmars.Prelude.Int.{ℤ, pos, negsuc}
use vmars.CLib.{atoi}
use vmars.Parser.Constants
use vmars.Parser.Constants.{int_of}
use vmars.Parser.Defs.{soh, Callbacks}

-- A `str_t` is its bytes, NULL the empty list. An `int` of one or two characters is its bit pattern.
pub record FixDetails : Type 0 where
  pub message_type : ℕ
  pub ord_status : ℕ
  pub exec_type : ℕ
  pub quote_status : ℤ
  pub sender_comp_id : List ℕ
  pub cl_ord_id : List ℕ
  pub target_comp_id : List ℕ
  pub symbol : List ℕ
  pub security_id : List ℕ

-- memset(fix_details, 0, sizeof(fix_details_t))
abbrev pub no_details : FixDetails
no_details = record {
  message_type = 0;
  ord_status = 0;
  exec_type = 0;
  quote_status = pos 0;
  sender_comp_id = [];
  cl_ord_id = [];
  target_comp_id = [];
  symbol = [];
  security_id = [];
}

-- a `char` as an `int`
abbrev pub char_to_int : ℕ → ℕ
char_to_int c = if ltb c 128 then c else c + (2 ^ 32 - 256)

-- The value's copy ends at its NUL, if it has one; so does `atoi`.
unfoldable pub str2int : List ℕ → ℤ
str2int c = if ltb 31 (length c) then negsuc 0 else atoi c

-- `fix_value[0]` of an empty value is the separator behind it.
abbrev first_byte : List ℕ → ℕ
first_byte value = get_or value 0 soh

unfoldable pub handle_tag : FixDetails → ℕ → List ℕ → FixDetails
handle_tag d fix_tag value =
    if fix_tag == Constants.fix_msg_type
    then if length value == 1
      then record d { message_type = char_to_int (first_byte value) }
      else if length value == 2
      then record d {
        message_type =
            int_of (char_to_int (first_byte value)) (char_to_int (get_or value 1 soh)) % 2 ^ 32;
      }
      else d
    else if fix_tag == Constants.fix_exec_type
    then record d { exec_type = first_byte value }
    else if fix_tag == Constants.fix_quote_status
    then record d { quote_status = str2int value }
    else if fix_tag == Constants.fix_cl_ord_id
    then record d { cl_ord_id = value }
    else if fix_tag == Constants.fix_quote_id
    then record d { cl_ord_id = value }
    else if fix_tag == Constants.fix_sender_comp_id
    then record d { sender_comp_id = value }
    else if fix_tag == Constants.fix_target_comp_id
    then record d { target_comp_id = value }
    else if fix_tag == Constants.fix_symbol
    then record d { symbol = value }
    else if fix_tag == Constants.fix_security_id
    then record d { security_id = value }
    else if fix_tag == Constants.fix_underlying_security_id
    then record d { security_id = value }
    else if fix_tag == Constants.fix_underlying_symbol
    then record d { symbol = value }
    else d

-- vmars_fix_parse_msg(…, NULL, handle_tag, NULL, 0)
abbrev pub details_callbacks : Callbacks FixDetails
details_callbacks = record { startp = none; tagp = handle_tag; endp = none }
