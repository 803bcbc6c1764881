-- ===== src/Pipeline/Tests.antt =====
-- An order and its report, from two capture threads to the histogram.
use vmars.Prelude.{◌≡◌, refl, List, [], ◌∷◌, map, some, arith, ℕ, ◌+◌, ◌^◌, ◌<◌, sym}
use vmars.Ring.Defs.{Rb, header_size}
use vmars.Latency.Defs.{calculate_latencies, LatencyRecord}
use vmars.Latency.Poll.{poll_rounds}
use vmars.Latency.Drain.{RingsHold, schedule}
use vmars.Latency.Samples.{table, keep}
use vmars.Parser.Encode.{print_fuel}
use vmars.Fix.Details.{handle_tag}
use vmars.Fix.Process.{Context, Ids, select_ids, request_ids, key_len, instrument_of}
use vmars.Fix.Fragments.{Ipv4Stream, Fragment}
use vmars.Fix.Samples.{fragments, capture, capture-rb, capture-IsBegin}
use vmars.Packet.Defs.{walk_block}
use vmars.Packet.Samples.{headers}
use vmars.Pipeline.Threads.{Load, WalkAll, block_summaries, poll_rounds-walk_block}
use vmars.Pipeline.Pair.{load, request-response-captured, single}
use vmars.Pipeline.Interleave.{System, put, processed, polled, process, poll, Reach, here, next}
use vmars.Pipeline.Orders.{summaries}
use vmars.Pipeline.Published.{payload_summaries}
use vmars.Pipeline.Blocks.{walk_block-Reach}
use vmars.Pipeline.Kept.{Delivers}
use vmars.Pipeline.Delivered.{IsFresh, Reach-Delivers}
use vmars.Summary.{Summary, summary_header_len}
use mathlib.Core.Option.{some-injective}
use vmars.Prelude.Int.{ℤ, pos}
use vmars.Fix.Messages.{details_of}
use vmars.Pipeline.Samples.{
  capture-IsValid, order, order_packet, order-IsLoaded, report, report_packet, report-IsLoaded,
  report-IsAnswer,
}

abbrev loads : List (Load (List (Ipv4Stream × Fragment)))
loads = load 7 capture order_packet order ∷ load 7 capture report_packet report ∷ []

poll_rounds-walk_block_example :
    let result = calculate_latencies table keep [] [] (schedule 1 (block_summaries loads)) in
    (cs : List (Context (List (Ipv4Stream × Fragment)))) × (rbs : List Rb) × WalkAll fragments
      headers 80 loads cs
    × (poll_rounds table keep 1 [] [] (map (λ c. c.rb) cs) ≡ (result.0, result.1, rbs))
    × RingsHold rbs (map (λ ss. []) (block_summaries loads))
unfolding select_ids handle_tag print_fuel
poll_rounds-walk_block_example =
    poll_rounds-walk_block fragments headers 80 table keep 1 loads [] []
      (order-IsLoaded, (report-IsLoaded, tt)) (omega arith, (omega arith, tt))

request-response-captured_example :
    (c c' : Context (List (Ipv4Stream × Fragment))) × (walk_block fragments headers 80 capture
        (order_packet ∷ [])
      ≡ some c)
    × (walk_block fragments headers 80 capture (report_packet ∷ []) ≡ some c')
    × ((poll_rounds table keep 1 [] [] (c.rb ∷ c'.rb ∷ [])).1 ≡ pos 2000000000 ∷ [])
    × ((poll_rounds table keep 1 [] [] (c'.rb ∷ c.rb ∷ [])).1 ≡ pos 2000000000 ∷ [])
request-response-captured_example =
    request-response-captured fragments headers 80 table keep 0 7 7 capture capture order_packet
      report_packet order report [] [] order-IsLoaded report-IsLoaded report-IsAnswer refl

abbrev begin : System (List (Ipv4Stream × Fragment)) (List (List ℕ × LatencyRecord)) (List ℤ)
begin = record {
  thread = λ i. record { ctx = capture; measured = [] };
  latency_table = [];
  histogram = [];
}

begin-IsFresh : (i : ℕ) → IsFresh (begin.thread i)
begin-IsFresh i = ((7, capture-IsValid), rw capture-rb refl, refl)

-- The thread 1 measures the order, and a round at its ring takes it.
abbrev end : System (List (Ipv4Stream × Fragment)) (List (List ℕ × LatencyRecord)) (List ℤ)
end =
    polled table keep
      (record begin {
        thread = put begin.thread 1 (processed table keep (begin.thread 1) 1 2 (details_of order));
      })
      1 5

-- Its summary is short.
in_range :
    (ids : Ids)
    → select_ids (details_of order) ≡ some ids
    → capture.rb.tail_position
        + header_size
        + (summary_header_len + key_len ids (instrument_of (details_of order)))
      < 2 ^ 62
unfolding select_ids handle_tag print_fuel
in_range ids e =
    let same : request_ids (details_of order) ≡ ids = some-injective _ _ e in
    rw (capture-rb, sym same) (omega arith)

run : Reach table keep begin end
run =
    next (next here (process 1 1 2 (details_of order) (omega arith) (omega arith) in_range))
      (poll 1 5)

Reach-Delivers_example :
    (order : List (ℕ × Summary)) × ((end.latency_table, end.histogram)
      ≡ calculate_latencies table keep [] [] (summaries order))
    × ((i : ℕ) → Delivers i order (end.thread i))
Reach-Delivers_example = Reach-Delivers table keep begin end begin-IsFresh run

walk_block-Reach_example :
    let measured = payload_summaries (single order_packet order ∷ []) in
    (ctx : Context (List (Ipv4Stream × Fragment))) × (walk_block fragments headers 80 capture
        (order_packet ∷ [])
      ≡ some ctx)
    × Reach table keep begin
        (record begin { thread = put begin.thread 1 (record { ctx = ctx; measured = measured }) })
walk_block-Reach_example =
    walk_block-Reach fragments headers 80 table keep begin 1 7 [] (single order_packet order ∷ [])
      capture-IsBegin order-IsLoaded.packets order-IsLoaded.timed order-IsLoaded.holds
