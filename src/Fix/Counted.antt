-- ===== src/Fix/Counted.antt =====
-- What `record_message_type_counter` of src/fix.c is to count.
use vmars.Prelude.{ℕ, ◌+◌, ◌%◌, ◌^◌, ◌≡◌, Bool, arith, ◌==◌, if◌then◌else◌}
use vmars.Parser.Constants.{int_of}
use vmars.Counters.{Counters}
use vmars.Fix.Process.{record_message_type_counter}

abbrev pub one_more_if : Bool → ℕ → ℕ
one_more_if this c = if this then (c + 1) % 2 ^ 64 else c

-- The counter of the message's type, which the code of the type in a message names, is one higher,
-- and every other counter is what it was.
pub record IsCounted (before after : Counters) (type : ℕ) : Type 0 where
  pub new_order_single :
      after.new_order_single_count ≡ one_more_if (type == b'D') before.new_order_single_count
  pub execution_report :
      after.execution_report_new_count
      ≡ one_more_if (type == b'8') before.execution_report_new_count
  pub mass_quote : after.mass_quote_count ≡ one_more_if (type == b'i') before.mass_quote_count
  pub mass_quote_ack :
      after.mass_quote_ack_count ≡ one_more_if (type == b'b') before.mass_quote_ack_count
  pub trace_request :
      after.trace_request_count ≡ one_more_if (type == int_of b'x' b'r') before.trace_request_count
  pub trace_response :
      after.trace_repsonse_count
      ≡ one_more_if (type == int_of b'x' b's') before.trace_repsonse_count
  pub fd : after.fd ≡ before.fd
  pub invalid_checksums : after.invalid_checksums ≡ before.invalid_checksums
  pub corrupt_messages : after.corrupt_messages ≡ before.corrupt_messages
  pub valid_messages : after.valid_messages ≡ before.valid_messages
  pub parsing_errors : after.parsing_errors ≡ before.parsing_errors
  pub bytes_total : after.bytes_total ≡ before.bytes_total

pub record_message_type_counter-IsCounted :
    (c : Counters) (type : ℕ) → IsCounted c (record_message_type_counter c type) type
unfolding record_message_type_counter
record_message_type_counter-IsCounted c type = record {
  new_order_single = ground arith;
  execution_report = ground arith;
  mass_quote = ground arith;
  mass_quote_ack = ground arith;
  trace_request = ground arith;
  trace_response = ground arith;
  fd = ground arith;
  invalid_checksums = ground arith;
  corrupt_messages = ground arith;
  valid_messages = ground arith;
  parsing_errors = ground arith;
  bytes_total = ground arith;
}
