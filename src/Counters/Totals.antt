-- ===== src/Counters/Totals.antt =====
-- The totals of src/counter_handler.c over all capture threads.
use vmars.Prelude.{ℕ, ◌+◌, ◌%◌, ◌^◌, ◌<◌, ◌≡◌, refl, List, [], ◌∷◌, arith}
use vmars.Counters.{Counters, add64, no_counters, add_counters, aggregate, sum_of, IsTotal}

-- One field of the loop.
aggregate-field :
    (f : Counters → ℕ)
    → ((t c : Counters) → f (add_counters t c) ≡ add64 (f t) (f c))
    → (cs : List Counters) (t : Counters)
    → f (aggregate t cs) % 2 ^ 64 ≡ (f t + sum_of f cs) % 2 ^ 64
unfolding aggregate
aggregate-field f step [] t = omega arith
aggregate-field f step (c ∷ cs) t =
    omega (arith, aggregate-field f step cs (add_counters t c), step t c)

aggregate-lt :
    (f : Counters → ℕ)
    → ((t c : Counters) → f (add_counters t c) ≡ add64 (f t) (f c))
    → (cs : List Counters) (t : Counters) → f t < 2 ^ 64
    → f (aggregate t cs) < 2 ^ 64
unfolding aggregate
aggregate-lt f step [] t h = h
aggregate-lt f step (c ∷ cs) t h =
    aggregate-lt f step cs (add_counters t c) (omega (arith, step t c))

aggregate-sum :
    (f : Counters → ℕ)
    → ((t c : Counters) → f (add_counters t c) ≡ add64 (f t) (f c))
    → f no_counters ≡ 0
    → (cs : List Counters) → f (aggregate no_counters cs) ≡ sum_of f cs % 2 ^ 64
aggregate-sum f step start cs =
    omega (
      arith,
      aggregate-field f step cs no_counters,
      aggregate-lt f step cs no_counters (omega arith),
    )

-- Each total that the counter thread reports is the sum of that counter over all capture threads,
-- modulo 2^64: messages valid, with a bad checksum and corrupt, the six kinds of measured messages,
-- and bytes.
pub aggregate-IsTotal : (cs : List Counters) → IsTotal (aggregate no_counters cs) cs
unfolding add_counters
aggregate-IsTotal cs = record {
  valid = aggregate-sum (λ c. c.valid_messages) (λ t c. refl) refl cs;
  invalid = aggregate-sum (λ c. c.invalid_checksums) (λ t c. refl) refl cs;
  corrupt = aggregate-sum (λ c. c.corrupt_messages) (λ t c. refl) refl cs;
  quotes = aggregate-sum (λ c. c.mass_quote_count) (λ t c. refl) refl cs;
  quote_acks = aggregate-sum (λ c. c.mass_quote_ack_count) (λ t c. refl) refl cs;
  orders = aggregate-sum (λ c. c.new_order_single_count) (λ t c. refl) refl cs;
  reports = aggregate-sum (λ c. c.execution_report_new_count) (λ t c. refl) refl cs;
  trace_requests = aggregate-sum (λ c. c.trace_request_count) (λ t c. refl) refl cs;
  trace_responses = aggregate-sum (λ c. c.trace_repsonse_count) (λ t c. refl) refl cs;
  bytes = aggregate-sum (λ c. c.bytes_total) (λ t c. refl) refl cs;
}

-- Failed parses, which the capture threads count, are not added up: the total of parsing errors
-- stays what it was, whatever they count.
pub parsing_errors-aggregate :
    (cs : List Counters) (t : Counters) → (aggregate t cs).parsing_errors ≡ t.parsing_errors
unfolding aggregate add_counters
parsing_errors-aggregate [] t = refl
parsing_errors-aggregate (c ∷ cs) t = parsing_errors-aggregate cs (add_counters t c)
