-- ===== src/Pipeline/Blocks.antt =====
-- The walk over a block (src/packet.c) as steps of its capture thread.
use mathlib.Core.Path.{subst}
use vmars.Prelude.{
  ℕ, ◌+◌, ◌^◌, ◌<◌, ◌≡◌, refl, sym, ap, ◌∙◌, inl, inr, List, [], ◌∷◌, ◌++◌, map, append_assoc,
  append-nil, some, arith, Bool-cases, ==-refl, ◌==◌,
}
use mathlib.Core.List.{map-append}
use vmars.Prelude.Int.{ℤ}
use vmars.KHash.{KHash}
use vmars.Summary.{summary_header_len, encode_summary}
use vmars.Counters.{increment}
use vmars.Ring.Defs.{Rb, header_size}
use vmars.Ring.Records.{Records-span}
use vmars.Latency.Defs.{LatencyRecord}
use vmars.Fix.Details.{FixDetails}
use vmars.Fix.Process.{Context, Ids, select_ids, summary_of, key_len, instrument_of}
use vmars.Fix.Fragments.{Ipv4Stream, Fragment}
use vmars.Fix.Messages.{Message, details_of, counted, measured_all}
use vmars.Fix.Next.{IsBegin}
use vmars.Fix.Send.{length-encode_summary, length-key_of}
use vmars.Packet.Defs.{Headers, walk_block}
use vmars.Packet.Captured.{Payload, AreCaptured, captured, walk_block-captured}
use vmars.Pipeline.Published.{
  summaries_of, message_summaries, payload_summaries, records_of, Holds, process-Holds,
  measured_all-Holds,
}
use vmars.Pipeline.Threads.{AreTimed}
use vmars.Pipeline.Interleave.{
  Capture, System, put, processed, Step, process, other, Reach, here, next,
}

module _ {A : Type 0} where
  put-at : (f : ℕ → A) (i : ℕ) (a : A) → put f i a i ≡ a
  put-at f i a = rw (put, ==-refl i) refl

  put-put_at : (f : ℕ → A) (i : ℕ) (a b : A) (j : ℕ) → put (put f i a) i b j ≡ put f i b j
  put-put_at f i a b j = elim (Bool-cases (j == i)) [
    | inl same ↦ rw (put, same) refl
    | inr differ ↦ rw (put, differ) refl
  ]

  put-put : (f : ℕ → A) (i : ℕ) (a b : A) → put (put f i a) i b ≡ put f i b
  put-put f i a b = λ n j. put-put_at f i a b j n

  put_same_at : (f : ℕ → A) (i j : ℕ) → put f i (f i) j ≡ f j
  put_same_at f i j = elim (Bool-cases (j == i)) [
    | inl same ↦ let e : j ≡ i = ground arith in rw (put, same) (ap f (sym e))
    | inr differ ↦ rw (put, differ) refl
  ]

  put_same : (f : ℕ → A) (i : ℕ) → put f i (f i) ≡ f
  put_same f i = λ n j. put_same_at f i j n

in_range :
    (k : ℕ) (rb : Rb) (rs new : List (List ℕ)) (tv_sec tv_nsec : ℕ) (d : FixDetails) (ids : Ids)
    → Holds k rb rs (records_of (summaries_of tv_sec tv_nsec d) ++ new)
    → select_ids d ≡ some ids
    → rb.tail_position + header_size + (summary_header_len + key_len ids (instrument_of d)) < 2 ^ 62
in_range k rb rs new tv_sec tv_nsec d ids h found =
    let one : summaries_of tv_sec tv_nsec d ≡ summary_of tv_sec tv_nsec d ids ∷ [] =
      rw (summaries_of, found) refl in
    let size = Records-span rb.capacity rs rb.buffer rb.head_position rb.tail_position h.contents in
    let range = rw one at h.range in
    let whole = length-encode_summary (summary_of tv_sec tv_nsec d ids) in
    omega (arith, size, range, whole, length-key_of ids (instrument_of d))

module _ {Fragments : Type 0} (table : KHash (List ℕ) LatencyRecord) {H : Type 0}
    (hdr_record_value : H → ℤ → H) (s0 s : System Fragments table.Map H) (i : ℕ) where
  abbrev pub with_thread : Capture Fragments → System Fragments table.Map H
  with_thread t = record s { thread = put s.thread i t }

  -- A step of the thread, whatever it was before.
  step-with_thread :
      (f : Capture Fragments → Capture Fragments) (t : Capture Fragments)
      → Reach table hdr_record_value s0 (with_thread t)
      → Step table hdr_record_value
          (with_thread t)
          (record s { thread = put (put s.thread i t) i (f (put s.thread i t i)) })
      → Reach table hdr_record_value s0 (with_thread (f t))
  step-with_thread f t reach step =
      let at_i : put (put s.thread i t) i (f (put s.thread i t i)) ≡ put s.thread i (f t) =
        ap (λ u. put (put s.thread i t) i (f u)) (put-at s.thread i t)
        ∙ put-put s.thread i t (f t) in
      subst (λ thread. Reach table hdr_record_value s0 (record s { thread = thread })) at_i
        (next reach step)

  process-Reach :
      (t : Capture Fragments) (m : Message) (tv_sec tv_nsec k : ℕ) (rs new : List (List ℕ))
      → tv_sec < 2 ^ 32
      → tv_nsec < 2 ^ 32
      → Holds k t.ctx.rb rs (records_of (summaries_of tv_sec tv_nsec (details_of m)) ++ new)
      → Reach table hdr_record_value s0 (with_thread t)
      → Reach table hdr_record_value s0 (
          with_thread (
            processed table hdr_record_value
              (record t { ctx = counted t.ctx })
              tv_sec
              tv_nsec
              (details_of m)))
  process-Reach t m tv_sec tv_nsec k rs new sec nsec h reach =
      let t1 : Capture Fragments = record t { ctx = counted t.ctx } in
      let first =
        step-with_thread (λ u. record u { ctx = counted t.ctx }) t reach
          (other i (counted t.ctx) (ap (λ u. u.ctx.rb) (sym (put-at s.thread i t)))) in
      let at_i : (put s.thread i t1 i).ctx.rb ≡ t.ctx.rb =
        ap (λ u. u.ctx.rb) (put-at s.thread i t1) in
      step-with_thread (λ u. processed table hdr_record_value u tv_sec tv_nsec (details_of m)) t1
        first
        (process i tv_sec tv_nsec (details_of m) sec nsec (λ ids found.
          rw at_i (in_range k t.ctx.rb rs new tv_sec tv_nsec (details_of m) ids h found)))

  measured_all-Reach :
      (ms : List Message) (t : Capture Fragments) (tv_sec tv_nsec k : ℕ) (rs new : List (List ℕ))
      → tv_sec < 2 ^ 32
      → tv_nsec < 2 ^ 32
      → Holds k t.ctx.rb rs (records_of (message_summaries tv_sec tv_nsec ms) ++ new)
      → Reach table hdr_record_value s0 (with_thread t)
      → Reach table hdr_record_value s0 (
          with_thread (record {
            ctx = measured_all tv_sec tv_nsec t.ctx ms;
            measured = t.measured ++ message_summaries tv_sec tv_nsec ms;
          }))
  measured_all-Reach [] t tv_sec tv_nsec k rs new sec nsec h reach =
      rw (append-nil t.measured) reach
  measured_all-Reach (m ∷ ms) t tv_sec tv_nsec k rs new sec nsec h reach =
      let one = summaries_of tv_sec tv_nsec (details_of m) in
      let others = message_summaries tv_sec tv_nsec ms in
      let joined = map-append encode_summary one others in
      let h' = rw (joined, append_assoc (records_of one) (records_of others) new) at h in
      let held =
        process-Holds k (counted t.ctx) rs (records_of others ++ new) tv_sec tv_nsec (details_of m)
          h' in
      let t' =
        processed table hdr_record_value (record t { ctx = counted t.ctx }) tv_sec tv_nsec
          (details_of m) in
      let first =
        process-Reach t m tv_sec tv_nsec k rs (records_of others ++ new) sec nsec h' reach in
      rw (sym (append_assoc t.measured one others))
        (measured_all-Reach ms t' tv_sec tv_nsec k (rs ++ records_of one) new sec nsec held first)

  captured-Reach :
      (headers : Headers) (port : ℕ) (ps : List Payload) (t : Capture Fragments) (k : ℕ)
      (rs : List (List ℕ))
      → AreTimed ps
      → Holds k t.ctx.rb rs (records_of (payload_summaries ps))
      → Reach table hdr_record_value s0 (with_thread t)
      → Reach table hdr_record_value s0 (
          with_thread (record {
            ctx = captured headers port t.ctx ps;
            measured = t.measured ++ payload_summaries ps;
          }))
  captured-Reach headers port [] t k rs timed h reach = rw (append-nil t.measured) reach
  captured-Reach headers port (p ∷ ps) t k rs timed h reach =
      let sec = p.ppd.tp_sec in
      let nsec = p.ppd.tp_nsec in
      let ms = p.first ∷ p.others in
      let one = message_summaries sec nsec ms in
      let others = payload_summaries ps in
      let h' = rw (map-append encode_summary one others) at h in
      let first =
        measured_all-Reach ms t sec nsec k rs (records_of others) timed.0 timed.1 h' reach in
      let held = measured_all-Holds ms k t.ctx rs (records_of others) sec nsec h' in
      rw (sym (append_assoc t.measured one others)) (
        captured-Reach headers port ps
          (record { ctx = measured_all sec nsec t.ctx ms; measured = t.measured ++ one }) k
          (rs ++ records_of one) timed.2 held first)

module _ (fragments : KHash Ipv4Stream Fragment) (headers : Headers) (port : ℕ)
    (table : KHash (List ℕ) LatencyRecord) {H : Type 0} (hdr_record_value : H → ℤ → H) where
  -- The walk of a capture thread over a block of packets of whole messages is a run of steps, in
  -- which the thread measures exactly these messages, in their order and each with its packet's time,
  -- and its state is that which the walk returns. The ring has room for their summaries.
  pub walk_block-Reach :
      (s : System fragments.Map table.Map H) (i k : ℕ) (rs : List (List ℕ)) (ps : List Payload)
      → IsBegin (s.thread i).ctx.matcher
      → AreCaptured headers port ps
      → AreTimed ps
      → Holds k (s.thread i).ctx.rb rs (records_of (payload_summaries ps))
      → (ctx : Context fragments.Map) × (walk_block fragments headers port
            (s.thread i).ctx
            (map (λ p. p.ppd) ps)
          ≡ some ctx)
        × Reach table hdr_record_value s (record s {
          thread =
              put s.thread i
                (record { ctx = ctx; measured = (s.thread i).measured ++ payload_summaries ps });
        })
  walk_block-Reach s i k rs ps begin packets timed h =
      let t = s.thread i in
      let start : Reach table hdr_record_value s (record s { thread = put s.thread i t }) =
        rw (put_same s.thread i) here in
      let after = captured headers port t.ctx ps in
      let measured : Capture fragments.Map = record {
        ctx = after;
        measured = t.measured ++ payload_summaries ps;
      } in
      let ctx : Context fragments.Map = record after {
        counters = record after.counters { bytes_total = increment after.counters.bytes_total };
      } in
      let run = captured-Reach table hdr_record_value s s i headers port ps t k rs timed h start in
      (
        ctx,
        walk_block-captured fragments headers port t.ctx ps begin packets,
        step-with_thread table hdr_record_value s s i (λ u. record u { ctx = ctx }) measured run
            (other i ctx (ap (λ u. u.ctx.rb) (sym (put-at s.thread i measured)))),
      )
