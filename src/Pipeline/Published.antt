-- ===== src/Pipeline/Published.antt =====
-- What a block of packets of whole messages leaves in the ring of its capture thread.
use mathlib.Core.List.{map-append}
use vmars.Prelude.{
  ℕ, ◌+◌, ◌^◌, ◌≤◌, ◌<◌, ◌≡◌, sym, inl, inr, List, [], ◌∷◌, ◌++◌, map, append_assoc, append-nil,
  none, some, arith, length, Option-cases,
}
use vmars.Ring.Defs.{Rb}
use vmars.Ring.Valid.{IsValid}
use vmars.Ring.Records.{Contents, span, Records-span}
use vmars.Summary.{Summary, encode_summary, summary_header_len}
use vmars.Fix.Details.{FixDetails}
use vmars.Fix.Process.{
  Context, select_ids, summary_of, send_summary, key_len, instrument_of,
  process_for_latency_measurement,
}
use vmars.Fix.Send.{send_summary-Contents, length-encode_summary, length-key_of}
use vmars.Fix.Messages.{Message, details_of, counted, measured, measured_all}
use vmars.Packet.Defs.{Headers}
use vmars.Packet.Captured.{Payload, captured}

-- The summary of a message, if it is measured.
abbrev pub summaries_of : ℕ → ℕ → FixDetails → List Summary
summaries_of tv_sec tv_nsec d = elim (select_ids d) [
  | none ↦ []
  | some ids ↦ summary_of tv_sec tv_nsec d ids ∷ []
]

abbrev pub message_summaries : ℕ → ℕ → List Message → List Summary
message_summaries tv_sec tv_nsec [] = []
message_summaries tv_sec tv_nsec (m ∷ ms) =
    summaries_of tv_sec tv_nsec (details_of m) ++ message_summaries tv_sec tv_nsec ms

-- Those of all packets, each with the time of its packet.
abbrev pub payload_summaries : List Payload → List Summary
payload_summaries [] = []
payload_summaries (p ∷ ps) =
    message_summaries p.ppd.tp_sec p.ppd.tp_nsec (p.first ∷ p.others) ++ payload_summaries ps

abbrev pub records_of : List Summary → List (List ℕ)
records_of ss = map encode_summary ss

-- A ring that holds the records, beside room for others.
pub record Holds (k : ℕ) (rb : Rb) (rs new : List (List ℕ)) : Type 0 where
  pub valid : IsValid k rb
  pub contents : Contents rb rs
  pub room : span rs + span new ≤ rb.capacity
  pub range : rb.head_position + (span rs + span new) < 2 ^ 62

pub span-append : (rs new : List (List ℕ)) → span (rs ++ new) ≡ span rs + span new
span-append [] new = omega arith
span-append (r ∷ rs) new = omega (arith, span-append rs new)

send_summary-Holds :
    (k : ℕ) (rb : Rb) (rs new : List (List ℕ)) (s : Summary)
    → Holds k rb rs (encode_summary s ∷ new)
    → Holds k (send_summary rb (length (encode_summary s)) s) (rs ++ (encode_summary s ∷ [])) new
send_summary-Holds k rb rs new s h =
    let size = Records-span rb.capacity rs rb.buffer rb.head_position rb.tail_position h.contents in
    let (valid, contents, head, capacity) =
      send_summary-Contents k rb rs s h.valid h.contents (omega (arith, size, h.room))
        (omega (arith, size, h.range)) in
    let longer = span-append rs (encode_summary s ∷ []) in
    record {
      valid = valid;
      contents = contents;
      room = rw (capacity, longer) (omega (arith, h.room));
      range = rw (head, longer) (omega (arith, h.range));
    }

module _ {Map : Type 0} where
  pub process-Holds :
      (k : ℕ) (ctx : Context Map) (rs new : List (List ℕ)) (tv_sec tv_nsec : ℕ) (d : FixDetails)
      → Holds k ctx.rb rs (records_of (summaries_of tv_sec tv_nsec d) ++ new)
      → Holds k
          (process_for_latency_measurement ctx tv_sec tv_nsec d).rb
          (rs ++ records_of (summaries_of tv_sec tv_nsec d))
          new
  unfolding process_for_latency_measurement
  process-Holds k ctx rs new tv_sec tv_nsec d h = elim (Option-cases (select_ids d)) [
    | inl other ↦
        rw (summaries_of, process_for_latency_measurement, other, append-nil rs)
          (rw (summaries_of, other) at h)
    | inr (ids, found) ↦
        let s = summary_of tv_sec tv_nsec d ids in
        let size : length (encode_summary s) ≡ summary_header_len + key_len ids (instrument_of d) =
          omega (arith, length-encode_summary s, length-key_of ids (instrument_of d)) in
        rw (summaries_of, process_for_latency_measurement, found)
          (rw size at (send_summary-Holds k ctx.rb rs new s (rw (summaries_of, found) at h)))
  ]

  pub measured_all-Holds :
      (ms : List Message) (k : ℕ) (ctx : Context Map) (rs new : List (List ℕ)) (tv_sec tv_nsec : ℕ)
      → Holds k ctx.rb rs (records_of (message_summaries tv_sec tv_nsec ms) ++ new)
      → Holds k
          (measured_all tv_sec tv_nsec ctx ms).rb
          (rs ++ records_of (message_summaries tv_sec tv_nsec ms))
          new
  measured_all-Holds [] k ctx rs new tv_sec tv_nsec h = rw (append-nil rs) h
  measured_all-Holds (m ∷ ms) k ctx rs new tv_sec tv_nsec h =
      let one = records_of (summaries_of tv_sec tv_nsec (details_of m)) in
      let others = records_of (message_summaries tv_sec tv_nsec ms) in
      let joined =
        map-append encode_summary (summaries_of tv_sec tv_nsec (details_of m))
          (message_summaries tv_sec tv_nsec ms) in
      let first =
        process-Holds k (counted ctx) rs (others ++ new) tv_sec tv_nsec (details_of m)
          (rw (joined, append_assoc one others new) at h) in
      rw (joined, sym (append_assoc rs one others))
        (measured_all-Holds ms k (measured tv_sec tv_nsec ctx m) (rs ++ one) new tv_sec tv_nsec
          first)

  -- A block of packets of whole messages appends the summaries of its measured messages to what the
  -- ring holds, in their order and each with its packet's time, if the ring has room for all of them.
  pub captured-Holds :
      (headers : Headers) (port : ℕ) (ps : List Payload) (k : ℕ) (ctx : Context Map)
      (rs : List (List ℕ))
      → Holds k ctx.rb rs (records_of (payload_summaries ps))
      → Holds k (captured headers port ctx ps).rb (rs ++ records_of (payload_summaries ps)) []
  captured-Holds headers port [] k ctx rs h = rw (append-nil rs) h
  captured-Holds headers port (p ∷ ps) k ctx rs h =
      let ms = p.first ∷ p.others in
      let ss = message_summaries p.ppd.tp_sec p.ppd.tp_nsec ms in
      let joined = map-append encode_summary ss (payload_summaries ps) in
      let others = records_of (payload_summaries ps) in
      let first =
        measured_all-Holds ms k ctx rs others p.ppd.tp_sec p.ppd.tp_nsec (rw joined at h) in
      rw (joined, sym (append_assoc rs (records_of ss) others))
        (captured-Holds headers port ps k (measured_all p.ppd.tp_sec p.ppd.tp_nsec ctx ms)
          (rs ++ records_of ss) first)
