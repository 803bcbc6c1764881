-- ===== src/Pipeline/Delivered.antt =====
-- What reaches the latency table, however the threads are interleaved.
use mathlib.Core.List.Sublist
use vmars.Prelude.{
  ℕ, ◌≡◌, refl, sym, ap, ◌∙◌, false, inl, inr, List, [], ◌++◌, map, take, arith, Bool-cases, ◌==◌,
}
use vmars.Prelude.Int.{ℤ}
use vmars.KHash.{KHash}
use vmars.Summary.{Summary}
use vmars.Ring.Valid.{IsValid}
use vmars.Ring.Records.{Contents}
use vmars.Latency.Defs.{LatencyRecord, calculate_latencies}
use vmars.Pipeline.Kept.{
  Delivers, process-Delivers, others-Delivers, poll_ring-Delivers, calculate_latencies-append,
}
use vmars.Pipeline.Orders.{summaries, summaries-append}
use vmars.Pipeline.Interleave.{Capture, System, put, Step, process, other, poll, Reach, here, next}

put-all :
    {A : Type 0} (P : ℕ → A → Type 0) (f : ℕ → A) (i : ℕ) (a : A)
    → P i a
    → ((j : ℕ) → (j == i) ≡ false → P j (f j))
    → (j : ℕ) → P j (put f i a j)
put-all P f i a at_i elsewhere j = elim (Bool-cases (j == i)) [
  | inl same ↦ let e : j ≡ i = ground arith in rw (put, same) (rw e at_i)
  | inr differ ↦ rw (put, differ) (elsewhere j differ)
]

module _ {Fragments : Type 0} (table : KHash (List ℕ) LatencyRecord) {H : Type 0}
    (hdr_record_value : H → ℤ → H) (m : table.Map) (h : H) where
  -- The order in which the latency thread took summaries off the rings.
  record Inv (s : System Fragments table.Map H) : Type 0 where
    pub order : List (ℕ × Summary)
    pub together :
        (s.latency_table, s.histogram)
        ≡ calculate_latencies table hdr_record_value m h (summaries order)
    pub each : (i : ℕ) → Delivers i order (s.thread i)

  Step-Inv : {s t : System Fragments table.Map H} → Inv s → Step table hdr_record_value s t → Inv t
  Step-Inv {s} inv (process i tv_sec tv_nsec d sec nsec range) = record {
    order = inv.order;
    together = inv.together;
    each =
        put-all (λ j t. Delivers j inv.order t) s.thread i _
          (process-Delivers i inv.order (s.thread i) tv_sec tv_nsec d (inv.each i) sec nsec range)
          (λ j differ. inv.each j);
  }
  Step-Inv {s} inv (other i ctx same) =
      let before = inv.each i in
      record {
        order = inv.order;
        together = inv.together;
        each =
            put-all (λ j t. Delivers j inv.order t) s.thread i _
              (record {
                k = before.k;
                waiting = before.waiting;
                valid = rw same before.valid;
                contents = rw same before.contents;
                fit = before.fit;
                among = before.among;
              })
              (λ j differ. inv.each j);
      }
  Step-Inv {s} inv (poll i poll_limit) =
      let ss = take poll_limit (inv.each i).waiting in
      let order = inv.order ++ map (λ s. (i, s)) ss in
      let (read, taken) =
        poll_ring-Delivers table hdr_record_value i poll_limit inv.order (s.thread i)
          s.latency_table s.histogram (inv.each i) in
      record {
        order = order;
        together =
            read
            ∙ ap (λ r. calculate_latencies table hdr_record_value r.0 r.1 ss) inv.together
            ∙ sym (calculate_latencies-append table hdr_record_value (summaries inv.order) ss m h)
            ∙ ap (calculate_latencies table hdr_record_value m h)
                (sym (summaries-append i inv.order ss));
        each =
            put-all (λ j t. Delivers j order t) s.thread i _ taken
              (λ j differ. others-Delivers i j inv.order ss (s.thread j) differ (inv.each j));
      }

  Reach-Inv :
      {s t : System Fragments table.Map H} → Inv s → Reach table hdr_record_value s t → Inv t
  Reach-Inv inv here = inv
  Reach-Inv inv (next r step) = Step-Inv (Reach-Inv inv r) step

-- A capture thread before its first message, with an empty ring.
abbrev pub IsFresh : {Fragments : Type 0} → Capture Fragments → Type 0
IsFresh t = ((k : ℕ) × IsValid k t.ctx.rb) × Contents t.ctx.rb [] × (t.measured ≡ [])

module _ {Fragments : Type 0} (table : KHash (List ℕ) LatencyRecord) {H : Type 0}
    (hdr_record_value : H → ℤ → H) where
  -- Capture threads that begin with empty rings, and the latency thread, interleaved in any way: at
  -- every moment there is an order of summaries that gives the latency table and the histogram, and
  -- in which each thread's own summaries, followed by those that its ring still holds, are among the
  -- summaries of the messages that it measured, in that order. So none is invented, taken twice,
  -- mixed up with those of another thread or taken before an older one; those that found no room are
  -- missing. The rings stay valid.
  pub Reach-Delivers :
      (s t : System Fragments table.Map H)
      → ((i : ℕ) → IsFresh (s.thread i))
      → Reach table hdr_record_value s t
      → (order : List (ℕ × Summary)) × ((t.latency_table, t.histogram)
          ≡ calculate_latencies table hdr_record_value s.latency_table s.histogram
              (summaries order))
        × ((i : ℕ) → Delivers i order (t.thread i))
  unfolding calculate_latencies
  Reach-Delivers s t fresh run =
      let start : Inv table hdr_record_value s.latency_table s.histogram s = record {
        order = [];
        together = refl;
        each = λ i. record {
          k = (fresh i).0.0;
          waiting = [];
          valid = (fresh i).0.1;
          contents = (fresh i).1;
          fit = tt;
          among = rw (fresh i).2 (Sublist.refl []);
        };
      } in
      let inv = Reach-Inv table hdr_record_value s.latency_table s.histogram start run in
      (inv.order, inv.together, inv.each)
