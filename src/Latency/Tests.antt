-- ===== src/Latency/Tests.antt =====
-- The latency thread on two messages.
use vmars.Prelude.{ℕ, ◌≡◌, refl, List, [], ◌∷◌, none, arith}
use vmars.Prelude.Text.{codes}
use vmars.Parser.Constants.{msg_type_new_order_single, msg_type_execution_report}
use vmars.Ring.Defs.{Rb}
use vmars.Ring.Valid.{IsValid}
use vmars.Ring.Records.{Contents}
use vmars.Ring.Samples.{one, one-IsValid, seven, one-Contents}
use vmars.Prelude.Int.{pos}
use vmars.Latency.Poll.{decode_summary, poll_ring}
use vmars.Latency.Rounds.{poll_ring-Contents}
use vmars.Latency.Decode.{Fits, calculate_latencies-decode}
use vmars.Summary.{Summary, encode_summary}
use vmars.Latency.Defs.{is_begin, is_complement, calculate_latencies}
use vmars.Latency.Samples.{table, keep}
use vmars.Latency.Pairs.{entry_after, kh_get-calculate_latencies, pair_lem}

abbrev request : Summary
request = record {
  tv_sec = 10;
  tv_nsec = 999999000;
  msg_type = msg_type_new_order_single;
  key = codes "a|b|1|XX";
}

abbrev response : Summary
response = record {
  tv_sec = 11;
  tv_nsec = 500;
  msg_type = msg_type_execution_report;
  key = codes "a|b|1|XX";
}

kh_get-calculate_latencies_example :
    table.kh_get (calculate_latencies table keep [] [] (request ∷ response ∷ [])).0 (codes "z")
    ≡ entry_after table keep none (codes "z") (request ∷ response ∷ [])
kh_get-calculate_latencies_example =
    kh_get-calculate_latencies table keep (request ∷ response ∷ []) [] [] (codes "z")

pair_lem_example :
    let latency = pos 1500 in
    let (m1, h1) = calculate_latencies table keep [] [] (request ∷ response ∷ []) in
    let (m2, h2) = calculate_latencies table keep [] [] (response ∷ request ∷ []) in
    (h1 ≡ latency ∷ [])
    × (h2 ≡ latency ∷ [])
    × ((k : List ℕ) → table.kh_get m1 k ≡ none)
    × ((k : List ℕ) → table.kh_get m2 k ≡ none)
unfolding is_begin is_complement
pair_lem_example =
    pair_lem table keep [] [] request response (omega arith, omega arith) (omega arith, omega arith)
      refl refl refl refl

poll_ring-Contents_example :
    let after = calculate_latencies table keep [] [] (decode_summary seven ∷ []) in
    (rb' : Rb) × (poll_ring table keep 20 [] [] one ≡ (after.0, after.1, rb'))
    × IsValid 4 rb'
    × Contents rb' []
poll_ring-Contents_example =
    poll_ring-Contents table keep 19 4 [] [] one (seven ∷ []) one-IsValid one-Contents

request-Fits : Fits request
request-Fits = record {
  tv_sec = omega arith;
  tv_nsec = omega arith;
  msg_type = omega arith;
  key_len = omega arith;
}

response-Fits : Fits response
response-Fits = record {
  tv_sec = omega arith;
  tv_nsec = omega arith;
  msg_type = omega arith;
  key_len = omega arith;
}

calculate_latencies-decode_example :
    calculate_latencies table keep [] []
      (decode_summary (encode_summary request) ∷ decode_summary (encode_summary response) ∷ [])
    ≡ calculate_latencies table keep [] [] (request ∷ response ∷ [])
calculate_latencies-decode_example =
    calculate_latencies-decode table keep (request ∷ response ∷ []) [] []
      (request-Fits, (response-Fits, tt))
