-- ===== src/Pipeline/Interleave.antt =====
-- The capture threads (src/fix.c) and the latency thread (src/latency_handler.c) at work in any order:
-- a message that is measured is one step, and a round at one ring another. What happens within such
-- a step, call by call, is in Ring/Interleave.
use vmars.Prelude.{ℕ, suc, ◌+◌, ◌^◌, ◌<◌, ◌≡◌, List, ◌++◌, some, ◌==◌, if◌then◌else◌}
use vmars.Prelude.Int.{ℤ}
use vmars.KHash.{KHash}
use vmars.Summary.{Summary, summary_header_len}
use vmars.Ring.Defs.{header_size}
use vmars.Latency.Defs.{LatencyRecord}
use vmars.Latency.Poll.{poll_ring}
use vmars.Fix.Details.{FixDetails}
use vmars.Fix.Process.{
  Context, Ids, select_ids, key_len, instrument_of, process_for_latency_measurement,
}
use vmars.Pipeline.Published.{summaries_of}

-- A capture thread. The list is history: the summaries of the messages that it measured, in order.
pub record Capture (Fragments : Type 0) : Type 0 where
  pub ctx : Context Fragments
  pub measured : List Summary

-- The threads by their numbers, and what the latency thread keeps.
pub record System (Fragments Table H : Type 0) : Type 0 where
  pub thread : ℕ → Capture Fragments
  pub latency_table : Table
  pub histogram : H

abbrev pub put {ℓ} : {A : Type ℓ} → (ℕ → A) → ℕ → A → ℕ → A
put f i a j = if j == i then a else f j

module _ {Fragments : Type 0} (table : KHash (List ℕ) LatencyRecord) {H : Type 0}
    (hdr_record_value : H → ℤ → H) where
  abbrev pub processed : Capture Fragments → ℕ → ℕ → FixDetails → Capture Fragments
  processed t tv_sec tv_nsec d = record {
    ctx = process_for_latency_measurement t.ctx tv_sec tv_nsec d;
    measured = t.measured ++ summaries_of tv_sec tv_nsec d;
  }

  -- A round of the latency thread at the ring `i`.
  abbrev pub polled : System Fragments table.Map H → ℕ → ℕ → System Fragments table.Map H
  polled s i poll_limit =
      let t = s.thread i in
      let (latency_table, histogram, rb) =
        poll_ring table hdr_record_value (suc poll_limit) s.latency_table s.histogram t.ctx.rb in
      record {
        thread = put s.thread i (record t { ctx = record t.ctx { rb = rb } });
        latency_table = latency_table;
        histogram = histogram;
      }

  -- Whatever else a capture thread does, it leaves its ring alone. The times are 32 bits wide, and
  -- no ring passes through 2^62 bytes.
  pub data Step (s : System Fragments table.Map H) : System Fragments table.Map H → Type 0 where
    process :
        (i tv_sec tv_nsec : ℕ) (d : FixDetails)
        → tv_sec < 2 ^ 32
        → tv_nsec < 2 ^ 32
        → ((ids : Ids)
            → select_ids d ≡ some ids
            → (s.thread i).ctx.rb.tail_position
                + header_size
                + (summary_header_len + key_len ids (instrument_of d))
              < 2 ^ 62)
        → Step s (record s { thread = put s.thread i (processed (s.thread i) tv_sec tv_nsec d) })
    other :
        (i : ℕ) (ctx : Context Fragments)
        → ctx.rb ≡ (s.thread i).ctx.rb
        → Step s (record s { thread = put s.thread i (record (s.thread i) { ctx = ctx }) })
    poll : (i poll_limit : ℕ) → Step s (polled s i poll_limit)

  pub data Reach (s : System Fragments table.Map H) : System Fragments table.Map H → Type 0 where
    here : Reach s s
    next : {t u : System Fragments table.Map H} → Reach s t → Step t u → Reach s u
