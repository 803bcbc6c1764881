-- ===== src/Counters.antt =====
-- src/counter_handler.c and the counters of src/counter_handler.h: what the capture threads count,
-- and the totals that are sent once a second.
pub mod Totals
pub mod Statistics
pub mod Report
pub mod Turns
mod Tests
use vmars.Prelude.{ℕ, ◌+◌, ◌%◌, ◌^◌, ◌≡◌, List, [], ◌∷◌, Option, none, some, ◌==◌, if◌then◌else◌}

-- `vmars_monitoring_counters_t`
pub record Counters : Type 0 where
  pub fd : ℕ
  pub invalid_checksums : ℕ
  pub corrupt_messages : ℕ
  pub valid_messages : ℕ
  pub parsing_errors : ℕ
  pub bytes_total : ℕ
  pub mass_quote_count : ℕ
  pub mass_quote_ack_count : ℕ
  pub new_order_single_count : ℕ
  pub execution_report_new_count : ℕ
  pub trace_request_count : ℕ
  pub trace_repsonse_count : ℕ

-- An `int64_t` counter as its bit pattern.
abbrev pub add64 : ℕ → ℕ → ℕ
add64 a b = (a + b) % 2 ^ 64

-- `atomic_release_increment`, of the counter that is passed
abbrev pub increment : ℕ → ℕ
increment c = add64 c 1

-- memset(&aggregate_counters, 0, …)
abbrev pub no_counters : Counters
no_counters = record {
  fd = 0;
  invalid_checksums = 0;
  corrupt_messages = 0;
  valid_messages = 0;
  parsing_errors = 0;
  bytes_total = 0;
  mass_quote_count = 0;
  mass_quote_ack_count = 0;
  new_order_single_count = 0;
  execution_report_new_count = 0;
  trace_request_count = 0;
  trace_repsonse_count = 0;
}

-- One turn of the loop over the threads. `parsing_errors` is left out, as in the source.
unfoldable pub add_counters : Counters → Counters → Counters
add_counters total c = record total {
  valid_messages = add64 total.valid_messages c.valid_messages;
  invalid_checksums = add64 total.invalid_checksums c.invalid_checksums;
  corrupt_messages = add64 total.corrupt_messages c.corrupt_messages;
  mass_quote_count = add64 total.mass_quote_count c.mass_quote_count;
  mass_quote_ack_count = add64 total.mass_quote_ack_count c.mass_quote_ack_count;
  new_order_single_count = add64 total.new_order_single_count c.new_order_single_count;
  execution_report_new_count = add64 total.execution_report_new_count c.execution_report_new_count;
  trace_request_count = add64 total.trace_request_count c.trace_request_count;
  trace_repsonse_count = add64 total.trace_repsonse_count c.trace_repsonse_count;
  bytes_total = add64 total.bytes_total c.bytes_total;
}

unfoldable pub aggregate : Counters → List Counters → Counters
aggregate total [] = total
aggregate total (c ∷ cs) = aggregate (add_counters total c) cs

-- `struct tpacket_stats_v3`, of `unsigned int`s
pub record Stats : Type 0 where
  pub tp_packets : ℕ
  pub tp_drops : ℕ
  pub tp_freeze_q_cnt : ℕ

abbrev pub no_stats : Stats
no_stats = record { tp_packets = 0; tp_drops = 0; tp_freeze_q_cnt = 0 }

abbrev pub add32 : ℕ → ℕ → ℕ
add32 a b = (a + b) % 2 ^ 32

-- `getsockopt` is the kernel's: what it fills in, `none` if it fails.
unfoldable pub gather_socket_stats : (ℕ → Option Stats) → ℕ → Stats → Stats
gather_socket_stats getsockopt fd aggregate_stats =
    if fd == 0 then aggregate_stats else elim (getsockopt fd) [
      | none ↦ aggregate_stats
      | some stats ↦ record {
        tp_packets = add32 aggregate_stats.tp_packets stats.tp_packets;
        tp_drops = add32 aggregate_stats.tp_drops stats.tp_drops;
        tp_freeze_q_cnt = add32 aggregate_stats.tp_freeze_q_cnt stats.tp_freeze_q_cnt;
      }
    ]

unfoldable pub gather_all : (ℕ → Option Stats) → Stats → List Counters → Stats
gather_all getsockopt stats [] = stats
gather_all getsockopt stats (c ∷ cs) =
    gather_all getsockopt (gather_socket_stats getsockopt c.fd stats) cs

-- The sum of a counter over the threads.
abbrev pub sum_of : (Counters → ℕ) → List Counters → ℕ
sum_of f [] = 0
sum_of f (c ∷ cs) = f c + sum_of f cs

-- What the totals that are reported are to be.
pub record IsTotal (total : Counters) (cs : List Counters) : Type 0 where
  pub valid : total.valid_messages ≡ sum_of (λ c. c.valid_messages) cs % 2 ^ 64
  pub invalid : total.invalid_checksums ≡ sum_of (λ c. c.invalid_checksums) cs % 2 ^ 64
  pub corrupt : total.corrupt_messages ≡ sum_of (λ c. c.corrupt_messages) cs % 2 ^ 64
  pub quotes : total.mass_quote_count ≡ sum_of (λ c. c.mass_quote_count) cs % 2 ^ 64
  pub quote_acks : total.mass_quote_ack_count ≡ sum_of (λ c. c.mass_quote_ack_count) cs % 2 ^ 64
  pub orders : total.new_order_single_count ≡ sum_of (λ c. c.new_order_single_count) cs % 2 ^ 64
  pub reports :
      total.execution_report_new_count ≡ sum_of (λ c. c.execution_report_new_count) cs % 2 ^ 64
  pub trace_requests : total.trace_request_count ≡ sum_of (λ c. c.trace_request_count) cs % 2 ^ 64
  pub trace_responses :
      total.trace_repsonse_count ≡ sum_of (λ c. c.trace_repsonse_count) cs % 2 ^ 64
  pub bytes : total.bytes_total ≡ sum_of (λ c. c.bytes_total) cs % 2 ^ 64
