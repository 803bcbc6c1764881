-- ===== src/Pipeline/Threads.antt =====
-- Capture threads that walk a block each, and rounds of the latency thread over their rings.
use vmars.Prelude.{
  length, ◌∙◌, ◌++◌, ◌+◌, ℕ, ◌*◌, ◌^◌, ◌<◌, ◌≡◌, refl, ap, inl, inr, List, [], ◌∷◌, map, some,
  arith, Option-cases,
}
use vmars.Prelude.Int.{ℤ}
use vmars.KHash.{KHash}
use vmars.Ring.Defs.{Rb}
use vmars.Summary.{Summary, encode_summary}
use vmars.Latency.Defs.{LatencyRecord, calculate_latencies}
use vmars.Latency.Poll.{poll_rounds}
use vmars.Ring.Valid.{capacity_bounds}
use vmars.Ring.Records.{span}
use vmars.Fix.Send.{length-encode_summary}
use mathlib.Core.List.{map-append}
use vmars.Pipeline.Published.{
  span-append, summaries_of, message_summaries, payload_summaries, records_of, Holds,
  captured-Holds,
}
use vmars.Latency.Decode.{Fits, AllFit, calculate_latencies-decode}
use vmars.Latency.Drain.{RingsHold, round_limit, schedule, AreShort, poll_rounds-empty}
use vmars.Fix.Details.{FixDetails}
use vmars.Fix.Process.{Context, Ids, select_ids, summary_of}
use vmars.Fix.Fragments.{Ipv4Stream, Fragment}
use vmars.Fix.Messages.{Message, details_of}
use vmars.Fix.Next.{IsBegin}
use vmars.Packet.Defs.{Headers, walk_block}
use vmars.Packet.Captured.{Payload, AreCaptured, walk_block-captured}
use vmars.Pipeline.Scheduled.{schedule-map, AreShort-map, AllFit-append, EachFits, schedule-AllFit}

-- The time of a packet is two words of 32 bits.
abbrev pub AreTimed : List Payload → Type 0
AreTimed [] = Unit
AreTimed (p ∷ ps) = (p.ppd.tp_sec < 2 ^ 32) × (p.ppd.tp_nsec < 2 ^ 32) × AreTimed ps

-- What is measured has a type of two characters at most.
select_ids-small : (d : FixDetails) (ids : Ids) → select_ids d ≡ some ids → d.message_type < 2 ^ 32
unfolding select_ids
select_ids-small d ids e = ground arith

pub summary_of-Fits :
    (tv_sec tv_nsec : ℕ) (d : FixDetails) (ids : Ids)
    → select_ids d ≡ some ids
    → tv_sec < 2 ^ 32
    → tv_nsec < 2 ^ 32
    → length (encode_summary (summary_of tv_sec tv_nsec d ids)) < 2 ^ 31
    → Fits (summary_of tv_sec tv_nsec d ids)
summary_of-Fits tv_sec tv_nsec d ids found sec nsec small = record {
  tv_sec = omega arith;
  tv_nsec = omega arith;
  msg_type = select_ids-small d ids found;
  key_len = omega (arith, length-encode_summary (summary_of tv_sec tv_nsec d ids));
}

summaries_of-AllFit :
    (tv_sec tv_nsec : ℕ) (d : FixDetails)
    → tv_sec < 2 ^ 32
    → tv_nsec < 2 ^ 32
    → span (records_of (summaries_of tv_sec tv_nsec d)) < 2 ^ 31
    → AllFit (summaries_of tv_sec tv_nsec d)
summaries_of-AllFit tv_sec tv_nsec d sec nsec small = elim (Option-cases (select_ids d)) [
  | inl other ↦ rw (summaries_of, other) tt
  | inr (ids, found) ↦
      let one = rw (summaries_of, found) at small in
      rw (summaries_of, found)
        (summary_of-Fits tv_sec tv_nsec d ids found sec nsec (omega arith), tt)
]

-- The records of two lists of summaries take as much room as each of them together.
span-records_of :
    (ss ts : List Summary)
    → span (records_of (ss ++ ts)) ≡ span (records_of ss) + span (records_of ts)
span-records_of ss ts =
    ap span (map-append encode_summary ss ts) ∙ span-append (records_of ss) (records_of ts)

message_summaries-AllFit :
    (ms : List Message) (tv_sec tv_nsec : ℕ)
    → tv_sec < 2 ^ 32
    → tv_nsec < 2 ^ 32
    → span (records_of (message_summaries tv_sec tv_nsec ms)) < 2 ^ 31
    → AllFit (message_summaries tv_sec tv_nsec ms)
message_summaries-AllFit [] tv_sec tv_nsec sec nsec small = tt
message_summaries-AllFit (m ∷ ms) tv_sec tv_nsec sec nsec small =
    let one = summaries_of tv_sec tv_nsec (details_of m) in
    let others = message_summaries tv_sec tv_nsec ms in
    let both = span-records_of one others in
    AllFit-append one others
      (summaries_of-AllFit tv_sec tv_nsec (details_of m) sec nsec (omega arith))
      (message_summaries-AllFit ms tv_sec tv_nsec sec nsec (omega arith))

payload_summaries-AllFit :
    (ps : List Payload)
    → AreTimed ps
    → span (records_of (payload_summaries ps)) < 2 ^ 31
    → AllFit (payload_summaries ps)
payload_summaries-AllFit [] timed small = tt
payload_summaries-AllFit (p ∷ ps) timed small =
    let sec = p.ppd.tp_sec in
    let nsec = p.ppd.tp_nsec in
    let one = message_summaries sec nsec (p.first ∷ p.others) in
    let both = span-records_of one (payload_summaries ps) in
    AllFit-append one (payload_summaries ps)
      (message_summaries-AllFit (p.first ∷ p.others) sec nsec timed.0 timed.1 (omega arith))
      (payload_summaries-AllFit ps timed.2 (omega arith))

records_of-none :
    (sss : List (List Summary))
    → map {B = List (List ℕ)} (λ rs. []) (map records_of sss) ≡ map (λ ss. []) sss
records_of-none [] = refl
records_of-none (ss ∷ sss) = ap (λ l. [] ∷ l) (records_of-none sss)

-- A capture thread, with a ring of 2^k bytes, and the packets of a block.
pub record Load (Fragments : Type 0) : Type 0 where
  pub k : ℕ
  pub ctx : Context Fragments
  pub payloads : List Payload

-- It has the matcher for the start of a message and an empty ring, in which the summaries of the
-- block find room.
pub record IsLoaded {Fragments : Type 0} (headers : Headers) (port : ℕ) (l : Load Fragments)
    : Type 0 where
  pub begin : IsBegin l.ctx.matcher
  pub packets : AreCaptured headers port l.payloads
  pub timed : AreTimed l.payloads
  pub holds : Holds l.k l.ctx.rb [] (records_of (payload_summaries l.payloads))

abbrev pub AreLoaded : {Fragments : Type 0} → Headers → ℕ → List (Load Fragments) → Type 0
AreLoaded headers port [] = Unit
AreLoaded headers port (l ∷ ls) = IsLoaded headers port l × AreLoaded headers port ls

abbrev pub block_summaries : {Fragments : Type 0} → List (Load Fragments) → List (List Summary)
block_summaries [] = []
block_summaries (l ∷ ls) = payload_summaries l.payloads ∷ block_summaries ls

block_summaries-EachFits :
    {Fragments : Type 0} (headers : Headers) (port : ℕ) (ls : List (Load Fragments))
    → AreLoaded headers port ls
    → EachFits (block_summaries ls)
block_summaries-EachFits headers port [] loaded = tt
block_summaries-EachFits headers port (l ∷ ls) loaded = (
  payload_summaries-AllFit l.payloads loaded.0.timed
      (omega (arith, loaded.0.holds.room, capacity_bounds loaded.0.holds.valid)),
  block_summaries-EachFits headers port ls loaded.1,
)

module _ (fragments : KHash Ipv4Stream Fragment) (headers : Headers) (port : ℕ) where
  open fragments use {Map}

  -- Each thread's walk over its block, and the state it ends in.
  abbrev pub WalkAll : List (Load Map) → List (Context Map) → Type 0
  WalkAll [] [] = Unit
  WalkAll [] (c ∷ cs) = ⊥
  WalkAll (l ∷ ls) [] = ⊥
  WalkAll (l ∷ ls) (c ∷ cs) =
      (walk_block fragments headers port l.ctx (map (λ p. p.ppd) l.payloads) ≡ some c)
      × WalkAll ls cs

  walk-RingsHold :
      (ls : List (Load Map))
      → AreLoaded headers port ls
      → (cs : List (Context Map)) × WalkAll ls cs
        × RingsHold (map (λ c. c.rb) cs) (map records_of (block_summaries ls))
  walk-RingsHold [] loaded = ([], tt, tt)
  walk-RingsHold (l ∷ ls) loaded =
      let mine = loaded.0 in
      let walk =
        walk_block-captured fragments headers port l.ctx l.payloads mine.begin mine.packets in
      let ring = captured-Holds headers port l.payloads l.k l.ctx [] mine.holds in
      let (cs, others, rings) = walk-RingsHold ls loaded.1 in
      (_ ∷ cs, (walk, others), ((l.k, ring.valid, ring.contents), rings))

  module _ (table : KHash (List ℕ) LatencyRecord) {H : Type 0} (hdr_record_value : H → ℤ → H) where
    -- Capture threads with empty rings take a block of packets of whole messages each; then as many
    -- rounds of the latency thread as 19 go into the largest number of measured messages of a
    -- block, while nobody publishes, leave all rings empty and valid. The latency table and the
    -- histogram are what the summaries of exactly the measured messages give, each once and with
    -- its packet's time, in the order of the rounds. Each ring has room for its summaries.
    pub poll_rounds-walk_block :
        (n : ℕ) (ls : List (Load Map)) (m : table.Map) (h : H)
        → AreLoaded headers port ls
        → AreShort (n * round_limit) (block_summaries ls)
        → let result =
            calculate_latencies table hdr_record_value m h (schedule n (block_summaries ls)) in
          (cs : List (Context Map)) × (rbs : List Rb) × WalkAll ls cs
          × (poll_rounds table hdr_record_value n m h (map (λ c. c.rb) cs)
              ≡ (result.0, result.1, rbs))
          × RingsHold rbs (map (λ ss. []) (block_summaries ls))
    poll_rounds-walk_block n ls m h loaded short =
        let sss = block_summaries ls in
        let (cs, walks, rings) = walk-RingsHold ls loaded in
        let (rbs, rounds, empty) =
          poll_rounds-empty table hdr_record_value n (map (λ c. c.rb) cs) (map records_of sss) m h
            rings (AreShort-map encode_summary (n * round_limit) sss short) in
        let fit = schedule-AllFit n sss (block_summaries-EachFits headers port ls loaded) in
        let read = calculate_latencies-decode table hdr_record_value (schedule n sss) m h fit in
        (
          cs,
          rbs,
          walks,
          rw (schedule-map encode_summary n sss, read) at rounds,
          rw (records_of-none sss) at empty,
        )
