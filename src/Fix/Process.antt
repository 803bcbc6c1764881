-- ===== src/Fix/Process.antt =====
-- `process_for_latency_measurement`: which messages are measured, and the summary of each.
use vmars.Prelude.{
  ℕ, ◌+◌, ◌||◌, List, [], ◌∷◌, ◌++◌, Option, none, some, length, ◌==◌, if◌then◌else◌, not,
}
use vmars.Prelude.Int.{pos, eqb_ℤ}
use vmars.Parser.Constants
use vmars.Counters.{Counters, increment}
use vmars.Summary.{Summary, summary_header_len, encode_summary}
use vmars.Ring.Defs.{Rb, write_data, vmars_spsc_rb_claim, vmars_spsc_rb_publish}
use vmars.Search.{Matcher}
use vmars.Fix.Details.{FixDetails}

-- The part of `vmars_capture_context_t` that the functions of fix.c touch. `state` is the map of
-- fragments, NULL until the first one is put.
pub record Context (Map : Type 0) : Type 0 where
  pub counters : Counters
  pub rb : Rb
  pub matcher : Matcher
  pub state : Option Map

unfoldable pub record_message_type_counter : Counters → ℕ → Counters
record_message_type_counter c message_type =
    if message_type == Constants.msg_type_new_order_single
    then record c { new_order_single_count = increment c.new_order_single_count }
    else if message_type == Constants.msg_type_mass_quote
    then record c { mass_quote_count = increment c.mass_quote_count }
    else if message_type == Constants.msg_type_trace_req
    then record c { trace_request_count = increment c.trace_request_count }
    else if message_type == Constants.msg_type_execution_report
    then record c { execution_report_new_count = increment c.execution_report_new_count }
    else if message_type == Constants.msg_type_mass_quote_ack
    then record c { mass_quote_ack_count = increment c.mass_quote_ack_count }
    else if message_type == Constants.msg_type_trace_rsp
    then record c { trace_repsonse_count = increment c.trace_repsonse_count }
    else c

pub record Ids : Type 0 where
  pub remote_id : List ℕ
  pub local_id : List ℕ
  pub instruction : List ℕ

abbrev pub request_ids : FixDetails → Ids
request_ids d = record {
  remote_id = d.sender_comp_id;
  local_id = d.target_comp_id;
  instruction = d.cl_ord_id;
}

abbrev pub response_ids : FixDetails → Ids
response_ids d = record {
  remote_id = d.target_comp_id;
  local_id = d.sender_comp_id;
  instruction = d.cl_ord_id;
}

-- The switch over the message's type; `none` if `should_process` stays false.
unfoldable pub select_ids : FixDetails → Option Ids
select_ids d =
    if d.message_type == Constants.msg_type_new_order_single
      || d.message_type == Constants.msg_type_mass_quote
      || d.message_type == Constants.msg_type_trace_req
    then some (request_ids d)
    else if d.message_type == Constants.msg_type_execution_report
    then if d.exec_type == Constants.fix_exec_type_new then some (response_ids d) else none
    else if d.message_type == Constants.msg_type_mass_quote_ack
    then if eqb_ℤ d.quote_status (pos Constants.fix_quote_status_accepted)
      then some (response_ids d)
      else none
    else if d.message_type == Constants.msg_type_trace_rsp
    then some (response_ids d)
    else none

abbrev pub instrument_of : FixDetails → List ℕ
instrument_of d =
    if not (length d.symbol == 0)
    then d.symbol
    else if not (length d.security_id == 0)
    then d.security_id
    else []

abbrev pub zeros : List ℕ → List ℕ
zeros [] = []
zeros (_ ∷ l) = 0 ∷ zeros l

-- strncpy(to, xs, n) for the `n` bytes xs: up to a NUL, and zeros behind it
unfoldable pub strncpy : List ℕ → List ℕ
strncpy [] = []
strncpy (c ∷ cs) = let rest = strncpy cs in c ∷ (if c == 0 then zeros cs else rest)

unfoldable pub key_of : Ids → List ℕ → List ℕ
key_of ids instrument =
    strncpy ids.remote_id
    ++ (b'|'
        ∷ (strncpy ids.local_id
            ++ (b'|' ∷ (strncpy ids.instruction ++ (b'|' ∷ strncpy instrument)))))

-- With the byte for the NUL.
abbrev pub key_len : Ids → List ℕ → ℕ
key_len ids instrument =
    length ids.remote_id
    + 1
    + length ids.local_id
    + 1
    + length ids.instruction
    + 1
    + length instrument
    + 1

abbrev pub summary_of : ℕ → ℕ → FixDetails → Ids → Summary
summary_of tv_sec tv_nsec d ids = record {
  tv_sec = tv_sec;
  tv_nsec = tv_nsec;
  msg_type = d.message_type;
  key = key_of ids (instrument_of d);
}

-- The record is written whole before it is published; a message is dropped if there is no room.
abbrev pub send_claimed : Option ℕ × Rb → Summary → Rb
send_claimed (none, rb) summary = rb
send_claimed (some a, rb) summary =
    (vmars_spsc_rb_publish (write_data rb a (encode_summary summary)) a).1

unfoldable pub send_summary : Rb → ℕ → Summary → Rb
send_summary rb length summary = send_claimed (vmars_spsc_rb_claim rb length) summary

module _ {Map : Type 0} where
  unfoldable pub process_for_latency_measurement : Context Map → ℕ → ℕ → FixDetails → Context Map
  process_for_latency_measurement ctx tv_sec tv_nsec d = elim (select_ids d) [
    | none ↦ ctx
    | some ids ↦ record ctx {
      counters = record_message_type_counter ctx.counters d.message_type;
      rb =
          send_summary ctx.rb (summary_header_len + key_len ids (instrument_of d))
            (summary_of tv_sec tv_nsec d ids);
    }
  ]
