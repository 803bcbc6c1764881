-- ===== src/Pipeline/Kept.antt =====
-- What holds of a capture thread and its ring, and that every step keeps it.
use native.Mathlib.Decide.{dec_le}
use mathlib.Core.List.{Sublist, map-append, sublist-append_left}
use mathlib.Core.List.Sublist
use vmars.Prelude.{
  ℕ, suc, ◌+◌, ◌^◌, ◌<◌, ◌≡◌, refl, sym, ap, ◌∙◌, false, inl, inr, List, [], ◌∷◌, ◌++◌, map,
  append_assoc, append-nil, some, take, drop, arith, Option-cases, ◌==◌,
}
use vmars.Prelude.Int.{ℤ}
use vmars.KHash.{KHash}
use vmars.Summary.{Summary, encode_summary, summary_header_len}
use vmars.Ring.Defs.{Rb, header_size}
use vmars.Ring.Valid.{IsValid, capacity_bounds}
use vmars.Ring.Records.{Contents}
use vmars.Latency.Defs.{LatencyRecord, calculate_latency, calculate_latencies}
use vmars.Latency.Poll.{decode_summary, poll_ring}
use vmars.Latency.Decode.{AllFit, calculate_latencies-decode}
use vmars.Latency.Rounds.{poll_ring-Contents}
use vmars.Fix.Details.{FixDetails}
use vmars.Fix.Process.{
  Ids, select_ids, key_len, instrument_of, summary_of, process_for_latency_measurement,
}
use vmars.Fix.Send.{process-Contents}
use vmars.Pipeline.Published.{summaries_of, records_of}
use vmars.Pipeline.Scheduled.{AllFit-take, AllFit-drop, AllFit-append, take-map, drop-map}
use vmars.Pipeline.Threads.{summary_of-Fits}
use vmars.Pipeline.Orders.{own, own-append, own-same, own-other, take-drop}
use vmars.Pipeline.Interleave.{Capture}

-- A thread's ring holds what the latency thread has not taken yet; what was taken and what is held
-- are among the measured ones, in their order.
pub record Delivers {Fragments : Type 0} (i : ℕ) (order : List (ℕ × Summary))
    (t : Capture Fragments) : Type 0 where
  pub k : ℕ
  pub waiting : List Summary
  pub valid : IsValid k t.ctx.rb
  pub contents : Contents t.ctx.rb (records_of waiting)
  pub fit : AllFit waiting
  pub among : Sublist (own i order ++ waiting) t.measured

module _ {Fragments : Type 0} (i : ℕ) (order : List (ℕ × Summary)) where
  pub process-Delivers :
      (t : Capture Fragments) (tv_sec tv_nsec : ℕ) (d : FixDetails)
      → Delivers i order t
      → tv_sec < 2 ^ 32
      → tv_nsec < 2 ^ 32
      → ((ids : Ids)
          → select_ids d ≡ some ids
          → t.ctx.rb.tail_position
              + header_size
              + (summary_header_len + key_len ids (instrument_of d))
            < 2 ^ 62)
      → Delivers i order (record {
        ctx = process_for_latency_measurement t.ctx tv_sec tv_nsec d;
        measured = t.measured ++ summaries_of tv_sec tv_nsec d;
      })
  unfolding process_for_latency_measurement
  process-Delivers t tv_sec tv_nsec d h sec nsec range = elim (Option-cases (select_ids d)) [
    | inl nothing ↦ record {
      k = h.k;
      waiting = h.waiting;
      valid = rw (process_for_latency_measurement, nothing) h.valid;
      contents = rw (process_for_latency_measurement, nothing) h.contents;
      fit = h.fit;
      among = rw (summaries_of, nothing, append-nil t.measured) h.among;
    }
    | inr (ids, found) ↦
        let s = summary_of tv_sec tv_nsec d ids in
        let n = summary_header_len + key_len ids (instrument_of d) in
        let rb' = (process_for_latency_measurement t.ctx tv_sec tv_nsec d).rb in
        let new : summaries_of tv_sec tv_nsec d ≡ s ∷ [] = rw (summaries_of, found) refl in
        let (_, size, room, full) =
          process-Contents h.k t.ctx (records_of h.waiting) tv_sec tv_nsec d ids h.valid h.contents
            found (range ids found) in
        elim (dec_le (t.ctx.rb.tail_position + header_size + n)
          (t.ctx.rb.head_position + t.ctx.rb.capacity)) [
            | yes fits ↦
                let (valid, contents) = room fits in
                record {
                  k = h.k;
                  waiting = h.waiting ++ (s ∷ []);
                  valid = valid;
                  contents = rw (map-append encode_summary h.waiting (s ∷ [])) contents;
                  fit = AllFit-append h.waiting (s ∷ []) h.fit (
                    summary_of-Fits tv_sec tv_nsec d ids found sec nsec
                        (omega (arith, h.valid.head_le_tail, capacity_bounds h.valid)),
                    tt,
                  );
                  among =
                      rw (new, sym (append_assoc (own i order) h.waiting (s ∷ [])))
                        (Sublist.append h.among (Sublist.refl (s ∷ [])));
                }
            | no over ↦
                let same = full (omega arith) in
                record {
                  k = h.k;
                  waiting = h.waiting;
                  valid = rw same h.valid;
                  contents = rw same h.contents;
                  fit = h.fit;
                  among =
                      Sublist.trans h.among
                        (sublist-append_left t.measured (summaries_of tv_sec tv_nsec d));
                }
          ]
  ]

-- What is taken from another ring makes no difference.
pub others-Delivers :
    {Fragments : Type 0} (i j : ℕ) (order : List (ℕ × Summary)) (ss : List Summary)
    (t : Capture Fragments)
    → (j == i) ≡ false
    → Delivers j order t
    → Delivers j (order ++ map (λ s. (i, s)) ss) t
others-Delivers i j order ss t differ h =
    let same : own j (order ++ map (λ s. (i, s)) ss) ≡ own j order =
      own-append j order (map (λ s. (i, s)) ss)
      ∙ rw (own-other i j ss differ) (append-nil (own j order)) in
    record {
      k = h.k;
      waiting = h.waiting;
      valid = h.valid;
      contents = h.contents;
      fit = h.fit;
      among = rw same h.among;
    }

-- The oldest are taken, the others are left.
taken-Delivers :
    {Fragments : Type 0} (i n : ℕ) (order : List (ℕ × Summary)) (t : Capture Fragments) (rb : Rb)
    → (h : Delivers i order t) → IsValid h.k rb
    → Contents rb (records_of (drop n h.waiting))
    → Delivers i
        (order ++ map (λ s. (i, s)) (take n h.waiting))
        (record t { ctx = record t.ctx { rb = rb } })
taken-Delivers i n order t rb h valid contents =
    let ss = take n h.waiting in
    let longer : own i (order ++ map (λ s. (i, s)) ss) ≡ own i order ++ ss =
      own-append i order (map (λ s. (i, s)) ss) ∙ rw (own-same i ss) refl in
    record {
      k = h.k;
      waiting = drop n h.waiting;
      valid = valid;
      contents = contents;
      fit = AllFit-drop n h.waiting h.fit;
      among =
          rw (longer, append_assoc (own i order) ss (drop n h.waiting), take-drop n h.waiting)
            h.among;
    }

module _ (table : KHash (List ℕ) LatencyRecord) {H : Type 0} (hdr_record_value : H → ℤ → H) where
  open table use {Map}

  pub calculate_latencies-append :
      (xs ys : List Summary) (m : Map) (h : H)
      → calculate_latencies table hdr_record_value m h (xs ++ ys) ≡ (
          let r = calculate_latencies table hdr_record_value m h xs in
          calculate_latencies table hdr_record_value r.0 r.1 ys)
  unfolding calculate_latencies
  calculate_latencies-append [] ys m h = refl
  calculate_latencies-append (x ∷ xs) ys m h =
      let step = calculate_latency table hdr_record_value m h x in
      calculate_latencies-append xs ys step.0 step.1

  pub poll_ring-Delivers :
      {Fragments : Type 0} (i n : ℕ) (order : List (ℕ × Summary)) (t : Capture Fragments) (m : Map)
      (h : H) (d : Delivers i order t)
      → let r = poll_ring table hdr_record_value (suc n) m h t.ctx.rb in
        let ss = take n d.waiting in
        ((r.0, r.1) ≡ calculate_latencies table hdr_record_value m h ss)
        × Delivers i (order ++ map (λ s. (i, s)) ss) (record t { ctx = record t.ctx { rb = r.2 } })
  poll_ring-Delivers i n order t m h d =
      let ss = take n d.waiting in
      let (rb', polls, valid, contents) =
        poll_ring-Contents table hdr_record_value n d.k m h t.ctx.rb (records_of d.waiting) d.valid
          d.contents in
      let read =
        calculate_latencies-decode table hdr_record_value ss m h (AllFit-take n d.waiting d.fit) in
      let rest = rw (drop-map encode_summary n d.waiting) at contents in
      let same = ap (λ r. r.2) polls in
      (
        ap (λ r. (r.0, r.1)) polls
            ∙ ap (λ l. calculate_latencies table hdr_record_value m h (map decode_summary l))
                (take-map encode_summary n d.waiting)
            ∙ read,
        taken-Delivers i n order t _ d (rw same valid) (rw same rest),
      )
