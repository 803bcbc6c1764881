-- ===== src/Latency/Report.antt =====
-- A turn of the outer loop of `poll_ring_buffers`: once a second it reports, and then it polls.
-- HdrHistogram is a library: what it says of a histogram is a parameter, with 64-bit results.
use vmars.Prelude.{
  ℕ, ◌+◌, ◌*◌, ◌%◌, ◌^◌, ◌≤◌, ◌<◌, ◌≡◌, refl, ap, ◌∙◌, Bool, true, false, not, List, [], ◌∷◌, ◌++◌,
  Option, some, none, length, ltb, ◌==◌, if◌then◌else◌, Bool-cases, inl, inr, arith,
}
use vmars.Prelude.Int.{ℤ}
use vmars.Prelude.Text.{codes}
use vmars.KHash.{KHash}
use vmars.Counters.{add64}
use vmars.Ring.Defs.{Rb}
use vmars.Jodie.Defs.{Jodie, packet_size, cleared, timestamp_or}
use vmars.Jodie.Buffer.{Holds}
use vmars.Jodie.Report.{Gauge, report_gauges, concat, report_gauges-sent}
use vmars.Jodie.Lines.{gauge, AreShort, AreShort-AreSendable, text_of, values_of, lines_of-text_of}
use vmars.Latency.Defs.{LatencyRecord}
use vmars.Latency.Poll.{poll_rings}

-- `mean` is `(int64_t) hdr_mean(histogram)`; the percentiles are 50, 99 and 99.99.
pub record Hdr (H : Type 0) : Type 0 where
  pub record_value : H → ℤ → H
  pub reset : H → H
  pub total_count : H → ℕ
  pub max : H → ℕ
  pub value_at_50 : H → ℕ
  pub value_at_99 : H → ℕ
  pub value_at_9999 : H → ℕ
  pub mean : H → ℕ

-- What the thread keeps from turn to turn.
pub record Handler (Map H : Type 0) : Type 0 where
  pub latency_table : Map
  pub histogram : H
  pub completed_requests : ℕ
  pub last_sec : ℕ
  pub jodie_server : Jodie
  pub ring_buffers : List Rb

module _ (table : KHash (List ℕ) LatencyRecord) {H : Type 0} (hdr : Hdr H) where
  open table use {Map}
  open hdr use {
    record_value, reset, total_count, max, value_at_50, value_at_99, value_at_9999, mean,
  }

  abbrev pub mean_or_zero : H → ℕ
  mean_or_zero h = if not (total_count h == 0) then mean h else 0

  unfoldable pub latency_gauges : (ℕ → Bool) → ℕ → H → List Gauge
  latency_gauges works completed_requests h =
      gauge (works 0) (codes "vmars.latency.completedRequests") completed_requests
      ∷ gauge (works 1) (codes "vmars.latency.max") (max h)
      ∷ gauge (works 2) (codes "vmars.latency.50") (value_at_50 h)
      ∷ gauge (works 3) (codes "vmars.latency.99") (value_at_99 h)
      ∷ gauge (works 4) (codes "vmars.latency.9999") (value_at_9999 h)
      ∷ gauge (works 5) (codes "vmars.latency.mean") (mean_or_zero h)
      ∷ []

  -- The rings, after what is due in this turn.
  abbrev pub poll_all : Handler Map H → Handler Map H
  poll_all s =
      let (m, h, rbs) = poll_rings table record_value s.latency_table s.histogram s.ring_buffers in
      record s { latency_table = m; histogram = h; ring_buffers = rbs }

  -- The state after a report, and what was sent.
  unfoldable pub report_latencies :
      (ℕ → Bool) → ℕ → ℕ → Handler Map H → Option (Handler Map H × List (List ℕ))
  report_latencies works now curr_sec s =
      let completed_requests = add64 s.completed_requests (total_count s.histogram) in
      let timestamp_ms = curr_sec * 1000 % 2 ^ 64 in
      elim (report_gauges now timestamp_ms (works 6) s.jodie_server
        (latency_gauges works completed_requests s.histogram)) [
          | none ↦ none
          | some o ↦ some (
            record s {
              completed_requests = completed_requests;
              histogram = reset s.histogram;
              last_sec = curr_sec;
              jodie_server = o.jodie;
            },
            o.sent,
          )
        ]

  unfoldable pub handler_turn :
      (ℕ → Bool) → ℕ → ℕ → Handler Map H → Option (Handler Map H × List (List ℕ))
  handler_turn works now curr_sec s =
      let reported : Option (Handler Map H × List (List ℕ)) =
        elim (report_latencies works now curr_sec s) [
          | none ↦ none
          | some r ↦ some (poll_all r.0, r.1)
        ] in
      if ltb s.last_sec curr_sec then reported else some (poll_all s, [])

  abbrev pub AreWords : H → Type 0
  AreWords h =
      (max h < 2 ^ 64)
      × (value_at_50 h < 2 ^ 64)
      × (value_at_99 h < 2 ^ 64)
      × (value_at_9999 h < 2 ^ 64)
      × (mean h < 2 ^ 64)

  -- What is to be reported.
  abbrev pub latencies : ℕ → H → List (List ℕ × ℕ)
  latencies completed h =
      (codes "vmars.latency.completedRequests", completed)
      ∷ (codes "vmars.latency.max", max h)
      ∷ (codes "vmars.latency.50", value_at_50 h)
      ∷ (codes "vmars.latency.99", value_at_99 h)
      ∷ (codes "vmars.latency.9999", value_at_9999 h)
      ∷ (codes "vmars.latency.mean", if total_count h == 0 then 0 else mean h)
      ∷ []

  latency_gauges-AreShort :
      (works : ℕ → Bool) (completed : ℕ) (h : H)
      → ((i : ℕ) → works i ≡ true)
      → completed < 2 ^ 64
      → AreWords h
      → AreShort (latency_gauges works completed h)
  unfolding latency_gauges
  latency_gauges-AreShort works completed h all c w = (
    (all 0, refl, omega arith, c),
    (
      (all 1, refl, omega arith, w.0),
      (
        (all 2, refl, omega arith, w.1),
        (
          (all 3, refl, omega arith, w.2),
          ((all 4, refl, omega arith, w.3), ((all 5, refl, omega arith, ground (arith, w.4)), tt)),
        ),
      ),
    ),
  )

  latency_gauges-latencies :
      (works : ℕ → Bool) (completed : ℕ) (h : H)
      → values_of (latency_gauges works completed h) ≡ latencies completed h
  unfolding latency_gauges
  latency_gauges-latencies works completed h = elim (Bool-cases (total_count h == 0)) [
    | inl zero ↦ rw zero refl
    | inr more ↦ rw more refl
  ]

  -- A turn of the latency thread while the network takes its datagrams. In the second of the last
  -- report it sends nothing and polls the rings. In a later second it sends first: the text that
  -- was in the buffer, followed by six lines: how many requests were completed so far, this
  -- histogram's count included, and its maximum, percentiles and mean, with the second's time; then
  -- the buffer is empty, and the rings are polled with the histogram reset. The old text is no
  -- longer than a packet, and what the histogram says fits 64 bits.
  pub handler_turn-sent :
      (works : ℕ → Bool) (now curr_sec : ℕ) (s : Handler Map H) (p : List ℕ)
      → Holds s.jodie_server p
      → length p ≤ packet_size
      → ((i : ℕ) → works i ≡ true)
      → now < 2 ^ 64
      → AreWords s.histogram
      → let completed = (s.completed_requests + total_count s.histogram) % 2 ^ 64 in
        (curr_sec ≤ s.last_sec → handler_turn works now curr_sec s ≡ some (poll_all s, []))
        × (s.last_sec < curr_sec
            → (sent : List (List ℕ)) × (handler_turn works now curr_sec s
                ≡ some (
                  poll_all (record s {
                    completed_requests = completed;
                    histogram = reset s.histogram;
                    last_sec = curr_sec;
                    jodie_server = cleared;
                  }),
                  sent,
                ))
              × (concat sent
                  ≡ p ++ text_of now (curr_sec * 1000 % 2 ^ 64) (latencies completed s.histogram)))
  unfolding handler_turn report_latencies
  handler_turn-sent works now curr_sec s p h small all t w =
      let completed = add64 s.completed_requests (total_count s.histogram) in
      let timestamp_ms = curr_sec * 1000 % 2 ^ 64 in
      let gauges = latency_gauges works completed s.histogram in
      let fits : timestamp_or now timestamp_ms < 2 ^ 64 = ground arith in
      let ready =
        AreShort-AreSendable gauges now timestamp_ms fits
          (latency_gauges-AreShort works completed s.histogram all (omega arith) w) in
      let (o, report, sent, empty) =
        report_gauges-sent gauges now timestamp_ms s.jodie_server p h small ready in
      let text =
        lines_of-text_of gauges now timestamp_ms
        ∙ ap (text_of now timestamp_ms) (latency_gauges-latencies works completed s.histogram) in
      (
        λ same. let not_due : ltb s.last_sec curr_sec ≡ false = ground arith in rw not_due refl,
        λ later.
            let due : ltb s.last_sec curr_sec ≡ true = ground arith in
            (o.sent, rw (due, all 6, report, empty) refl, sent ∙ ap (λ l. p ++ l) text),
      )
