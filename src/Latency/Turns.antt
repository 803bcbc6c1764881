-- ===== src/Latency/Turns.antt =====
-- Turns of the outer loop of `poll_ring_buffers` of src/latency_handler.c, with what the capture
-- threads do to the rings between them.
use vmars.Prelude.{
  ℕ, ◌+◌, ◌%◌, ◌^◌, ◌≤◌, ◌<◌, ◌≡◌, refl, sym, ap, ◌∙◌, Bool, true, List, [], ◌∷◌, ◌++◌, Option,
  some, length, arith, if◌then◌else◌,
}
use native.Mathlib.Decide.{dec_lt}
use vmars.Prelude.Int.{ℤ}
use vmars.KHash.{KHash}
use vmars.Ring.Defs.{Rb}
use vmars.Parser.Defs.{◌>>=◌}
use vmars.Jodie.Defs.{packet_size, cleared}
use vmars.Jodie.Buffer.{Holds, init-Holds}
use vmars.Latency.Defs.{LatencyRecord}
use vmars.Latency.Poll.{poll_rings}
use vmars.Latency.Log.{log_value, record_all, poll_rings-log}
use vmars.Latency.Report.{Hdr, Handler, poll_all, handler_turn, AreWords, handler_turn-sent}

-- A turn: what the capture threads did since the last one, what `sendto` and the clocks say.
pub record Turn : Type 0 where
  pub publish : List Rb → List Rb
  pub works : ℕ → Bool
  pub now : ℕ
  pub curr_sec : ℕ

-- The network takes the datagrams, and the clock fits 64 bits.
abbrev pub AreOnline : List Turn → Type 0
AreOnline [] = Unit
AreOnline (t ∷ ts) = ((i : ℕ) → t.works i ≡ true) × (t.now < 2 ^ 64) × AreOnline ts

-- How many of the values a histogram can hold.
abbrev pub count_of : (ℤ → Bool) → List ℤ → ℕ
count_of in_range [] = 0
count_of in_range (v ∷ log) = (if in_range v then 1 else 0) + count_of in_range log

shifted :
    (c' c1 c l n a : ℕ)
    → (c' + (l + n)) % 2 ^ 64 ≡ (c1 + a) % 2 ^ 64
    → c1 % 2 ^ 64 ≡ (c + n) % 2 ^ 64
    → (c' + l) % 2 ^ 64 ≡ (c + a) % 2 ^ 64
shifted c' c1 c l n a e1 e2 = omega arith

module _ (table : KHash (List ℕ) LatencyRecord) where
  -- The table, the latencies and the rings after the turns, without histogram and reports.
  abbrev pub log_turns : List Turn → table.Map → List ℤ → List Rb → table.Map × List ℤ × List Rb
  log_turns [] m log rbs = (m, log, rbs)
  log_turns (t ∷ ts) m log rbs =
      let (m', log', rbs') = poll_rings table log_value m log (t.publish rbs) in
      log_turns ts m' log' rbs'

  module _ {H : Type 0} (hdr : Hdr H) where
    open hdr use {record_value, reset, total_count}

    unfoldable pub run_turns :
        List Turn → Handler table.Map H → Option (Handler table.Map H × List (List ℕ))
    run_turns [] s = some (s, [])
    run_turns (t ∷ ts) s =
        handler_turn table hdr t.works t.now t.curr_sec
          (record s { ring_buffers = t.publish s.ring_buffers })
        >>= λ (r : Handler table.Map H × List (List ℕ)).
            run_turns ts r.0 >>= λ (r' : Handler table.Map H × List (List ℕ)).
            some (r'.0, r.1 ++ r'.1)

    -- What is documented of HdrHistogram: it counts the values in its range and ignores the others.
    pub record Counts (in_range : ℤ → Bool) : Type 0 where
      pub count_recorded :
          (h : H) (v : ℤ)
          → total_count (record_value h v) ≡ total_count h + (if in_range v then 1 else 0)
      pub count_reset : (h : H) → total_count (reset h) ≡ 0

    module _ {in_range : ℤ → Bool} (counts : Counts in_range) where
      total_count-record_all :
          (h : H) (log : List ℤ)
          → total_count (record_all table record_value h log)
            ≡ total_count h + count_of in_range log
      total_count-record_all h [] = omega arith
      total_count-record_all h (v ∷ log) = omega (
        arith,
        counts.count_recorded (record_all table record_value h log) v,
        total_count-record_all h log,
      )

      -- All completed requests so far: those that were reported and those in the histogram.
      abbrev pub completed : Handler table.Map H → ℕ
      completed s = s.completed_requests + total_count s.histogram

      -- One turn's latencies, and the state that it leaves behind.
      abbrev turn_log : Handler table.Map H → table.Map × List ℤ × List Rb
      turn_log s = poll_rings table log_value s.latency_table [] s.ring_buffers

      poll_all-log :
          (s : Handler table.Map H)
          → poll_all table hdr s ≡ record s {
            latency_table = (turn_log s).0;
            histogram = record_all table record_value s.histogram (turn_log s).1;
            ring_buffers = (turn_log s).2;
          }
      poll_all-log s =
          ap (λ r. record s { latency_table = r.0; histogram = r.1; ring_buffers = r.2 })
            (poll_rings-log table record_value s.ring_buffers s.latency_table s.histogram [])

      -- What holds of the send buffer between turns.
      abbrev IsReady : Handler table.Map H → Type 0
      IsReady s = (p : List ℕ) × Holds s.jodie_server p × (length p ≤ packet_size)

      handler_turn-completed :
          (works : ℕ → Bool) (now curr_sec : ℕ) (s : Handler table.Map H)
          → IsReady s
          → ((i : ℕ) → works i ≡ true)
          → now < 2 ^ 64
          → ((h : H) → AreWords table hdr h)
          → (s' : Handler table.Map H) × (sent : List (List ℕ)) × (handler_turn table hdr works now
                curr_sec s
              ≡ some (s', sent))
            × IsReady s'
            × (s'.latency_table ≡ (turn_log s).0)
            × (s'.ring_buffers ≡ (turn_log s).2)
            × (completed s' % 2 ^ 64 ≡ (completed s + count_of in_range (turn_log s).1) % 2 ^ 64)
      handler_turn-completed works now curr_sec s ready all t words =
          let (p, holds, small) = ready in
          let (idle, report) =
            handler_turn-sent table hdr works now curr_sec s p holds small all t
              (words s.histogram) in
          let log = (turn_log s).1 in
          elim (dec_lt s.last_sec curr_sec) [
            | no same ↦
                let count = total_count-record_all s.histogram log in
                (
                  _,
                  [],
                  idle (omega arith) ∙ ap (λ s. some (s, [])) (poll_all-log s),
                  ready,
                  refl,
                  refl,
                  omega (arith, count),
                )
            | yes later ↦
                let (sent, turn, _) = report later in
                let s1 : Handler table.Map H = record s {
                  completed_requests = completed s % 2 ^ 64;
                  histogram = reset s.histogram;
                  last_sec = curr_sec;
                  jodie_server = cleared;
                } in
                let count = total_count-record_all (reset s.histogram) log in
                (
                  _,
                  sent,
                  turn ∙ ap (λ s. some (s, sent)) (poll_all-log s1),
                  ([], init-Holds, omega arith),
                  refl,
                  refl,
                  omega (arith, count, counts.count_reset s.histogram),
                )
          ]

      count_of-record_all :
          (log new : List ℤ)
          → count_of in_range (record_all table log_value log new)
            ≡ count_of in_range log + count_of in_range new
      count_of-record_all log [] = omega arith
      count_of-record_all log (v ∷ new) = omega (arith, count_of-record_all log new)

      turns-completed :
          (ts : List Turn) (s : Handler table.Map H) (log : List ℤ)
          → IsReady s
          → AreOnline ts
          → ((h : H) → AreWords table hdr h)
          → let after = log_turns ts s.latency_table log s.ring_buffers in
            (s' : Handler table.Map H) × (sent : List (List ℕ)) × (run_turns ts s ≡ some (s', sent))
            × (s'.latency_table ≡ after.0)
            × (s'.ring_buffers ≡ after.2)
            × ((completed s' + count_of in_range log) % 2 ^ 64
                ≡ (completed s + count_of in_range after.1) % 2 ^ 64)
      unfolding run_turns
      turns-completed [] s log ready online words = (s, [], refl, refl, refl, refl)
      turns-completed (t ∷ ts) s log ready online words =
          let s0 : Handler table.Map H = record s { ring_buffers = t.publish s.ring_buffers } in
          let (s1, sent, turn, ready1, same_table, same_rings, sum) =
            handler_turn-completed t.works t.now t.curr_sec s0 ready online.0 online.1 words in
          let new = (turn_log s0).1 in
          let longer = record_all table log_value log new in
          let polled = poll_rings-log table log_value s0.ring_buffers s0.latency_table log [] in
          let (s', sent', rest, a, b, sums) = turns-completed ts s1 longer ready1 online.2 words in
          let counts = count_of-record_all log new in
          let after = log_turns (t ∷ ts) s.latency_table log s.ring_buffers in
          let same : log_turns ts s1.latency_table longer s1.ring_buffers ≡ after =
            ap (λ r. log_turns ts r.0 r.1 r.2)
              ((λ i. (same_table i, longer, same_rings i)) ∙ sym polled) in
          let total =
            shifted (completed s') (completed s1) (completed s) (count_of in_range log)
              (count_of in_range new) _ (rw counts at sums) sum in
          (
            s',
            sent ++ sent',
            rw (run_turns, turn, rest) refl,
            a ∙ ap (λ r. r.0) same,
            b ∙ ap (λ r. r.2) same,
            total ∙ ap (λ r. (completed s + count_of in_range r.1) % 2 ^ 64) same,
          )

      -- Turns of the latency thread, whatever the capture threads do to the rings between them, while
      -- the network takes its datagrams: no turn fails; the table and the rings are what the polls
      -- alone make of them; and the completed requests that were reported, together with those in
      -- the histogram, are those from the beginning and one for each latency in the histogram's
      -- range that the polls come to (modulo 2^64): no report loses one or counts it twice. What the
      -- histogram says fits 64 bits.
      pub run_turns-completed :
          (ts : List Turn) (s : Handler table.Map H) (p : List ℕ)
          → Holds s.jodie_server p
          → length p ≤ packet_size
          → AreOnline ts
          → ((h : H) → AreWords table hdr h)
          → let (m, log, rbs) = log_turns ts s.latency_table [] s.ring_buffers in
            (s' : Handler table.Map H) × (sent : List (List ℕ)) × (run_turns ts s ≡ some (s', sent))
            × (s'.latency_table ≡ m)
            × (s'.ring_buffers ≡ rbs)
            × (completed s' % 2 ^ 64 ≡ (completed s + count_of in_range log) % 2 ^ 64)
      run_turns-completed ts s p holds small online words =
          let (s', sent, run, a, b, sum) = turns-completed ts s [] (p, holds, small) online words in
          let nothing : completed s' + 0 ≡ completed s' = omega arith in
          (s', sent, run, a, b, rw nothing at sum)
