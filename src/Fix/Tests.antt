-- ===== src/Fix/Tests.antt =====
-- Streams and messages.
use vmars.Prelude.{
  ℕ, ◌≤◌, ◌<◌, ◌≡◌, refl, some, List, [], ◌∷◌, length, Pointer, pointer_to, arith, ◌+◌,
}
use vmars.Prelude.Text.{codes, fix_text}
use vmars.Parser.Constants.{msg_type_new_order_single, msg_type_execution_report, fix_exec_type_new}
use vmars.Counters.{no_counters}
use vmars.Ring.Valid.{IsValid}
use vmars.Ring.Records.{Contents}
use vmars.Summary.{encode_summary}
use vmars.Latency.Defs.{is_begin, is_complement, calculate_latencies}
use vmars.Latency.Samples.{table, keep}
use vmars.Fix.Details.{FixDetails, no_details}
use vmars.Prelude.Int.{pos}
use vmars.Fix.Counted.{IsCounted}
use vmars.Fix.Process.{
  Context, select_ids, request_ids, response_ids, summary_of, process_for_latency_measurement,
}
use vmars.Fix.Send.{process-Contents}
use vmars.Fix.Keys.{request-response}
use vmars.Fix.Fragments.{Ipv4Stream, Fragment}
use vmars.Fix.Extract.{message_loop}
use vmars.Fix.Samples.{fragments, context}
use vmars.Fix.Loop.{Run, message_loop-Run}

abbrev stream : Ipv4Stream
stream = record { saddr = 1; daddr = 2; sport = 3; dport = 4 }

abbrev back : Ipv4Stream
back = record { saddr = 2; daddr = 1; sport = 4; dport = 3 }

abbrev order : FixDetails
order = record no_details {
  message_type = msg_type_new_order_single;
  sender_comp_id = codes "A";
  target_comp_id = codes "B";
  cl_ord_id = codes "1";
  symbol = codes "X";
}

abbrev report : FixDetails
report = record no_details {
  message_type = msg_type_execution_report;
  exec_type = fix_exec_type_new;
  sender_comp_id = codes "B";
  target_comp_id = codes "A";
  cl_ord_id = codes "1";
  symbol = codes "X";
}

abbrev after_order : Context (List (Ipv4Stream × Fragment))
after_order = process_for_latency_measurement context 10 20 order

abbrev sent : List ℕ
sent = encode_summary (summary_of 10 20 order (request_ids order))

context-IsValid : IsValid 7 context.rb
context-IsValid = record {
  capacity_is = refl;
  small = omega arith;
  head_cached = omega arith;
  head_le_tail = omega arith;
  tail_cached = omega arith;
  fits = omega arith;
  in_range = omega arith;
}

process-Contents_example :
    IsCounted no_counters after_order.counters msg_type_new_order_single
    × (length sent ≡ 32)
    × (36 ≤ 128 → IsValid 7 after_order.rb × Contents after_order.rb (sent ∷ []))
    × (128 < 36 → after_order.rb ≡ context.rb)
unfolding select_ids
process-Contents_example =
    process-Contents 7 context [] 10 20 order (request_ids order) context-IsValid refl refl
      (omega arith)

request-response_example :
    let request = summary_of 10 20 order (request_ids order) in
    let response = summary_of 11 5 report (response_ids report) in
    let recorded = pos 999999985 ∷ [] in
    ((calculate_latencies table keep [] [] (request ∷ response ∷ [])).1 ≡ recorded)
    × ((calculate_latencies table keep [] [] (response ∷ request ∷ [])).1 ≡ recorded)
unfolding select_ids is_begin is_complement
request-response_example =
    request-response table keep [] [] order report (request_ids order) (response_ids report) 10 20
      11 5 (omega arith, omega arith) (omega arith, omega arith) refl refl refl refl refl refl refl
      refl refl

abbrev payload : Pointer
payload = pointer_to (fix_text "8=FIX.4.2|9=5|35=D|10=181|8=FIX.4.2|9=5|35=D|10=181|")

message_loop-Run_example :
    (n : ℕ) × (n ≤ 52 + 1)
    × Run fragments stream 1 2 payload 52 n context
        (some 0)
        52
        (message_loop fragments stream 1 2 payload 52 53 context (some 0) 52)
message_loop-Run_example =
    message_loop-Run fragments stream 1 2 payload 52 53 context (some 0) 52 (omega arith)
      (omega arith)
