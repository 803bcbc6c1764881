-- ===== src/Latency/Defs.antt =====
-- The definitions of src/latency_handler.c. HdrHistogram is a library: its state and what is done
-- with it are parameters.
use vmars.Prelude.{
  ℕ, ◌+◌, ◌-◌, ◌%◌, ◌^◌, Bool, false, ◌||◌, List, [], ◌∷◌, none, some, ◌==◌, if◌then◌else◌,
}
use vmars.Prelude.Int.{ℤ, pos, pos_part, neg_part, sub_ℕ, ◌+ℤ◌, ◌-ℤ◌, ◌*ℤ◌}
use vmars.KHash.{KHash}
use vmars.Summary.{Summary}
use vmars.Parser.Constants.{
  msg_type_new_order_single, msg_type_execution_report, msg_type_mass_quote,
  msg_type_mass_quote_ack, msg_type_trace_req, msg_type_trace_rsp,
}

unfoldable pub is_begin : ℕ → Bool
is_begin type =
    type == msg_type_mass_quote || type == msg_type_new_order_single || type == msg_type_trace_req

-- An integer as the `int64_t` that it wraps to.
abbrev pub to_int64 : ℤ → ℤ
to_int64 z = sub_ℕ ((pos_part z + (2 ^ 64 - neg_part z % 2 ^ 64) + 2 ^ 63) % 2 ^ 64) (2 ^ 63)

-- Nanoseconds from t0 to t1. The times are the bits of `int64_t`.
unfoldable pub diff : ℕ → ℕ → ℕ → ℕ → ℤ
diff t0_sec t0_nsec t1_sec t1_nsec =
    let diff_sec = to_int64 (pos t1_sec -ℤ pos t0_sec) in
    let diff_nsec = to_int64 (pos t1_nsec -ℤ pos t0_nsec) in
    to_int64 (to_int64 (diff_sec *ℤ pos 1000000000) +ℤ diff_nsec)

unfoldable pub is_complement : ℕ → ℕ → Bool
is_complement type_a type_b =
    if type_a == msg_type_mass_quote
    then type_b == msg_type_mass_quote_ack
    else if type_a == msg_type_mass_quote_ack
    then type_b == msg_type_mass_quote
    else if type_a == msg_type_new_order_single
    then type_b == msg_type_execution_report
    else if type_a == msg_type_execution_report
    then type_b == msg_type_new_order_single
    else if type_a == msg_type_trace_req
    then type_b == msg_type_trace_rsp
    else if type_a == msg_type_trace_rsp
    then type_b == msg_type_trace_req
    else false

-- `latency_record_t`; its key is the one that it is stored under.
pub record LatencyRecord : Type 0 where
  pub msg_type : ℕ
  pub tv_sec : ℕ
  pub tv_nsec : ℕ

-- The bytes of a C string: up to the first NUL.
unfoldable pub c_string : List ℕ → List ℕ
c_string [] = []
c_string (c ∷ cs) = let rest = c_string cs in if c == 0 then [] else c ∷ rest

abbrev pub record_of : Summary → LatencyRecord
record_of msg = record { msg_type = msg.msg_type; tv_sec = msg.tv_sec; tv_nsec = msg.tv_nsec }

-- `latency_nsec`, for a message whose complement is on record
unfoldable pub latency_nsec : Summary → LatencyRecord → ℤ
latency_nsec msg latency_record =
    if is_begin msg.msg_type
    then diff msg.tv_sec msg.tv_nsec latency_record.tv_sec latency_record.tv_nsec
    else diff latency_record.tv_sec latency_record.tv_nsec msg.tv_sec msg.tv_nsec

-- A record in the table is never NULL: the entry is deleted with it.
module _ (table : KHash (List ℕ) LatencyRecord) {H : Type 0} (hdr_record_value : H → ℤ → H) where
  open table use {Map, kh_get, kh_put, kh_del}

  unfoldable pub calculate_latency : Map → H → Summary → Map × H
  calculate_latency latency_table histogram msg =
      let k = c_string msg.key in
      elim (kh_get latency_table k) [
        | some latency_record ↦
            if is_complement msg.msg_type latency_record.msg_type
            then (
              kh_del latency_table k,
              hdr_record_value histogram (latency_nsec msg latency_record),
            )
            else (latency_table, histogram)
        | none ↦ (kh_put latency_table k (record_of msg), histogram)
      ]

  -- The messages that the thread takes off its rings, in the order in which it takes them.
  unfoldable pub calculate_latencies : Map → H → List Summary → Map × H
  calculate_latencies latency_table histogram [] = (latency_table, histogram)
  calculate_latencies latency_table histogram (msg ∷ msgs) =
      let (latency_table', histogram') = calculate_latency latency_table histogram msg in
      calculate_latencies latency_table' histogram' msgs
