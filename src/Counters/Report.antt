-- ===== src/Counters/Report.antt =====
-- What `vmars_poll_counters` of src/counter_handler.c sends in a turn of its loop.
use vmars.Prelude.{
  ℕ, ◌%◌, ◌^◌, ◌≤◌, ◌<◌, ◌≡◌, refl, ap, ◌∙◌, Bool, true, List, [], ◌∷◌, ◌++◌, Option, some, length,
  arith,
}
use vmars.Prelude.Text.{codes}
use vmars.Jodie.Defs.{Jodie, Outcome, packet_size, cleared, timestamp_or}
use vmars.Jodie.Buffer.{Holds}
use vmars.Jodie.Report.{Gauge, report_gauges, concat, report_gauges-sent}
use vmars.Jodie.Lines.{gauge, AreShort, AreShort-AreSendable, text_of, values_of, lines_of-text_of}
use vmars.Counters.{
  Counters, no_counters, aggregate, IsTotal, sum_of, Stats, no_stats, gather_socket_stats,
  gather_all,
}
use vmars.Counters.Totals.{aggregate-IsTotal}

-- The thirteen calls; `works` says of each, by its place, whether `sendto` would succeed.
unfoldable pub counters_gauges : (ℕ → Bool) → Counters → Stats → List Gauge
counters_gauges works total stats =
    gauge (works 0) (codes "vmars.fix.valid_messages") total.valid_messages
    ∷ gauge (works 1) (codes "vmars.fix.invalid_checksums") total.invalid_checksums
    ∷ gauge (works 2) (codes "vmars.fix.corrupt_messages") total.corrupt_messages
    ∷ gauge (works 3) (codes "vmars.fix.mass_quote") total.mass_quote_count
    ∷ gauge (works 4) (codes "vmars.fix.mass_quote_ack") total.mass_quote_ack_count
    ∷ gauge (works 5) (codes "vmars.fix.new_order_single") total.new_order_single_count
    ∷ gauge (works 6) (codes "vmars.fix.execution_report_new") total.execution_report_new_count
    ∷ gauge (works 7) (codes "vmars.fix.trace_request") total.trace_request_count
    ∷ gauge (works 8) (codes "vmars.fix.trace_response") total.trace_repsonse_count
    ∷ gauge (works 9) (codes "vmars.network.bytes") total.bytes_total
    ∷ gauge (works 10) (codes "vmars.network.packets") stats.tp_packets
    ∷ gauge (works 11) (codes "vmars.network.drops") stats.tp_drops
    ∷ gauge (works 12) (codes "vmars.network.freeze_q_cnt") stats.tp_freeze_q_cnt
    ∷ []

-- One turn of the loop, behind the `sleep`.
unfoldable pub counters_turn :
    (ℕ → Option Stats) → (ℕ → Bool) → ℕ → ℕ → Jodie → List Counters → Option Outcome
counters_turn getsockopt works now timestamp j counters_vec =
    let aggregate_counters = aggregate no_counters counters_vec in
    let stats = gather_all getsockopt no_stats counters_vec in
    report_gauges now timestamp (works 13) j (counters_gauges works aggregate_counters stats)

abbrev pub FitStats : Stats → Type 0
FitStats s = (s.tp_packets < 2 ^ 32) × (s.tp_drops < 2 ^ 32) × (s.tp_freeze_q_cnt < 2 ^ 32)

gather_socket_stats-FitStats :
    (getsockopt : ℕ → Option Stats) (fd : ℕ) (s : Stats)
    → FitStats s
    → FitStats (gather_socket_stats getsockopt fd s)
unfolding gather_socket_stats
gather_socket_stats-FitStats getsockopt fd s h = ground arith

gather_all-FitStats :
    (getsockopt : ℕ → Option Stats) (cs : List Counters) (s : Stats)
    → FitStats s
    → FitStats (gather_all getsockopt s cs)
unfolding gather_all
gather_all-FitStats getsockopt [] s h = h
gather_all-FitStats getsockopt (c ∷ cs) s h =
    gather_all-FitStats getsockopt cs (gather_socket_stats getsockopt c.fd s)
      (gather_socket_stats-FitStats getsockopt c.fd s h)

counters_gauges-AreShort :
    (works : ℕ → Bool) (total : Counters) (stats : Stats) (cs : List Counters)
    → ((i : ℕ) → works i ≡ true)
    → IsTotal total cs
    → FitStats stats
    → AreShort (counters_gauges works total stats)
unfolding counters_gauges
counters_gauges-AreShort works total stats cs all sums fit = (
  (all 0, refl, omega arith, omega (arith, sums.valid)),
  (
    (all 1, refl, omega arith, omega (arith, sums.invalid)),
    (
      (all 2, refl, omega arith, omega (arith, sums.corrupt)),
      (
        (all 3, refl, omega arith, omega (arith, sums.quotes)),
        (
          (all 4, refl, omega arith, omega (arith, sums.quote_acks)),
          (
            (all 5, refl, omega arith, omega (arith, sums.orders)),
            (
              (all 6, refl, omega arith, omega (arith, sums.reports)),
              (
                (all 7, refl, omega arith, omega (arith, sums.trace_requests)),
                (
                  (all 8, refl, omega arith, omega (arith, sums.trace_responses)),
                  (
                    (all 9, refl, omega arith, omega (arith, sums.bytes)),
                    (
                      (all 10, refl, omega arith, omega (arith, fit.0)),
                      (
                        (all 11, refl, omega arith, omega (arith, fit.1)),
                        ((all 12, refl, omega arith, omega (arith, fit.2)), tt),
                      ),
                    ),
                  ),
                ),
              ),
            ),
          ),
        ),
      ),
    ),
  ),
)

-- What is to be reported: sums over the threads, and the statistics of the sockets.
abbrev pub reported : List Counters → Stats → List (List ℕ × ℕ)
reported cs stats =
    (codes "vmars.fix.valid_messages", sum_of (λ c. c.valid_messages) cs % 2 ^ 64)
    ∷ (codes "vmars.fix.invalid_checksums", sum_of (λ c. c.invalid_checksums) cs % 2 ^ 64)
    ∷ (codes "vmars.fix.corrupt_messages", sum_of (λ c. c.corrupt_messages) cs % 2 ^ 64)
    ∷ (codes "vmars.fix.mass_quote", sum_of (λ c. c.mass_quote_count) cs % 2 ^ 64)
    ∷ (codes "vmars.fix.mass_quote_ack", sum_of (λ c. c.mass_quote_ack_count) cs % 2 ^ 64)
    ∷ (codes "vmars.fix.new_order_single", sum_of (λ c. c.new_order_single_count) cs % 2 ^ 64)
    ∷ (
      codes "vmars.fix.execution_report_new",
      sum_of (λ c. c.execution_report_new_count) cs % 2 ^ 64,
    )
    ∷ (codes "vmars.fix.trace_request", sum_of (λ c. c.trace_request_count) cs % 2 ^ 64)
    ∷ (codes "vmars.fix.trace_response", sum_of (λ c. c.trace_repsonse_count) cs % 2 ^ 64)
    ∷ (codes "vmars.network.bytes", sum_of (λ c. c.bytes_total) cs % 2 ^ 64)
    ∷ (codes "vmars.network.packets", stats.tp_packets)
    ∷ (codes "vmars.network.drops", stats.tp_drops)
    ∷ (codes "vmars.network.freeze_q_cnt", stats.tp_freeze_q_cnt)
    ∷ []

counters_gauges-reported :
    (works : ℕ → Bool) (total : Counters) (stats : Stats) (cs : List Counters)
    → IsTotal total cs
    → values_of (counters_gauges works total stats) ≡ reported cs stats
unfolding counters_gauges
counters_gauges-reported works total stats cs sums =
    rw
      (
        sums.valid, sums.invalid, sums.corrupt, sums.quotes, sums.quote_acks, sums.orders,
        sums.reports, sums.trace_requests, sums.trace_responses, sums.bytes,
      )
      refl

-- A turn of the counter thread while the network takes its datagrams: it sends the text that was in
-- the buffer, followed by thirteen lines: the totals over all capture threads, each the sum of that
-- counter modulo 2^64, and the statistics of all their sockets, in this order, with the turn's time;
-- then the buffer is empty. The old text is no longer than a packet, and the times fit 64 bits.
pub counters_turn-sent :
    (getsockopt : ℕ → Option Stats) (works : ℕ → Bool) (now timestamp : ℕ) (j : Jodie) (p : List ℕ)
    (cs : List Counters)
    → Holds j p
    → length p ≤ packet_size
    → ((i : ℕ) → works i ≡ true)
    → timestamp_or now timestamp < 2 ^ 64
    → (o : Outcome) × (counters_turn getsockopt works now timestamp j cs ≡ some o)
      × (concat o.sent
          ≡ p ++ text_of now timestamp (reported cs (gather_all getsockopt no_stats cs)))
      × (o.jodie ≡ cleared)
unfolding counters_turn
counters_turn-sent getsockopt works now timestamp j p cs h small all t =
    let total = aggregate no_counters cs in
    let stats = gather_all getsockopt no_stats cs in
    let sums = aggregate-IsTotal cs in
    let fit = gather_all-FitStats getsockopt cs no_stats (omega arith, omega arith, omega arith) in
    let gauges = counters_gauges works total stats in
    let ready =
      AreShort-AreSendable gauges now timestamp t
        (counters_gauges-AreShort works total stats cs all sums fit) in
    let (o, report, sent, empty) = report_gauges-sent gauges now timestamp j p h small ready in
    let text =
      lines_of-text_of gauges now timestamp
      ∙ ap (text_of now timestamp) (counters_gauges-reported works total stats cs sums) in
    (o, rw (all 13) report, sent ∙ ap (λ l. p ++ l) text, empty)
