-- ===== src/Latency/ReportTests.antt =====
-- The latency thread on one ring, and a second later.
use vmars.Prelude.{
  ℕ, ◌+◌, ◌%◌, ◌^◌, ◌≤◌, ◌<◌, ◌≡◌, refl, true, List, [], ◌∷◌, some, map, length, arith,
}
use vmars.Ring.Defs.{Rb}
use vmars.Ring.Samples.{one, one-IsValid, empty, empty-IsValid, seven, one-Contents}
use vmars.Jodie.Defs.{cleared}
use vmars.Jodie.Buffer.{init-Holds}
use vmars.Jodie.Report.{concat}
use vmars.Jodie.Lines.{text_of}
use vmars.Latency.Defs.{LatencyRecord, calculate_latencies}
use vmars.Latency.Poll.{decode_summary, poll_rounds}
use vmars.Latency.Drain.{RingsHold, poll_rounds-empty}
use vmars.Latency.Samples.{table, keep}
use vmars.Latency.Report.{Hdr, Handler, poll_all, handler_turn, latencies, handler_turn-sent}
use vmars.Prelude.Int.{ℤ}
use vmars.Latency.Turns.{Turn, Counts, count_of, log_turns, run_turns, run_turns-completed}

abbrev rings : List Rb
rings = one ∷ empty ∷ one ∷ []

rings-RingsHold : RingsHold rings ((seven ∷ []) ∷ [] ∷ (seven ∷ []) ∷ [])
rings-RingsHold = (
  (4, one-IsValid, one-Contents),
  ((4, empty-IsValid, refl), ((4, one-IsValid, one-Contents), tt)),
)

poll_rounds-empty_example :
    let result = calculate_latencies table keep [] [] (map decode_summary (seven ∷ seven ∷ [])) in
    (rbs' : List Rb) × (poll_rounds table keep 1 [] [] rings ≡ (result.0, result.1, rbs'))
    × RingsHold rbs' ([] ∷ [] ∷ [] ∷ [])
poll_rounds-empty_example =
    poll_rounds-empty table keep 1 rings ((seven ∷ []) ∷ [] ∷ (seven ∷ []) ∷ []) [] []
      rings-RingsHold (omega arith, (omega arith, (omega arith, tt)))

abbrev hdr : Hdr (List ℤ)
hdr = record {
  record_value = keep;
  reset = λ h. [];
  total_count = λ h. length h;
  max = λ h. 9;
  value_at_50 = λ h. 5;
  value_at_99 = λ h. 8;
  value_at_9999 = λ h. 9;
  mean = λ h. 6;
}

abbrev handler : Handler (List (List ℕ × LatencyRecord)) (List ℤ)
handler = record {
  latency_table = [];
  histogram = [];
  completed_requests = 41;
  last_sec = 10;
  jodie_server = cleared;
  ring_buffers = rings;
}

handler_turn-sent_example :
    (11 ≤ 10
      → handler_turn table hdr (λ i. true) 1 11 handler ≡ some (poll_all table hdr handler, []))
    × (10 < 11
        → (sent : List (List ℕ)) × (handler_turn table hdr (λ i. true) 1 11 handler
            ≡ some (
              poll_all table hdr (record handler { completed_requests = 41; last_sec = 11 }),
              sent,
            ))
          × (concat sent ≡ text_of 1 11000 (latencies table hdr 41 [])))
handler_turn-sent_example =
    handler_turn-sent table hdr (λ i. true) 1 11 handler [] init-Holds (omega arith) (λ i. refl)
      (omega arith) (omega arith, omega arith, omega arith, omega arith, omega arith)

hdr-Counts : Counts table hdr (λ v. true)
hdr-Counts = record { count_recorded = λ h v. omega arith; count_reset = λ h. refl }

abbrev turn : ℕ → Turn
turn curr_sec = record { publish = λ rbs. rbs; works = λ i. true; now = 1; curr_sec = curr_sec }

run_turns-completed_example :
    let (m, log, rbs) = log_turns table (turn 10 ∷ turn 11 ∷ []) [] [] rings in
    (s' : Handler (List (List ℕ × LatencyRecord)) (List ℤ)) × (sent : List (List ℕ)) × (run_turns
        table hdr
        (turn 10 ∷ turn 11 ∷ [])
        handler
      ≡ some (s', sent))
    × (s'.latency_table ≡ m)
    × (s'.ring_buffers ≡ rbs)
    × ((s'.completed_requests + length s'.histogram) % 2 ^ 64
        ≡ (41 + 0 + count_of (λ v. true) log) % 2 ^ 64)
run_turns-completed_example =
    run_turns-completed table hdr hdr-Counts (turn 10 ∷ turn 11 ∷ []) handler [] init-Holds
      (omega arith) ((λ i. refl), omega arith, ((λ i. refl), omega arith, tt))
      (λ h. (omega arith, omega arith, omega arith, omega arith, omega arith))
