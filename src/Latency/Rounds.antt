-- ===== src/Latency/Rounds.antt =====
-- What a round of src/latency_handler.c takes off a ring.
use vmars.Prelude.{ℕ, zero, suc, ◌≡◌, refl, ap, List, [], ◌∷◌, map, take, drop}
use vmars.Prelude.Int.{ℤ}
use vmars.KHash.{KHash}
use vmars.Ring.Defs.{Rb}
use vmars.Ring.Valid.{IsValid}
use vmars.Ring.Records.{Contents}
use vmars.Ring.Consume.{polled, poll_lem, released, release-Contents}
use vmars.Latency.Defs.{LatencyRecord, calculate_latency, calculate_latencies}
use vmars.Latency.Poll.{decode_summary, poll_ring}

module _ (table : KHash (List ℕ) LatencyRecord) {H : Type 0} (hdr_record_value : H → ℤ → H) where
  open table use {Map}

  -- With a limit of `n + 1`, a round takes the `n` oldest records off the ring, or all if there are
  -- fewer; exactly those reach the latency table, in order, and the others stay in the ring.
  pub poll_ring-Contents :
      (n k : ℕ) (m : Map) (h : H) (rb : Rb) (rs : List (List ℕ))
      → IsValid k rb
      → Contents rb rs
      → let after =
          calculate_latencies table hdr_record_value m h (map decode_summary (take n rs)) in
        (rb' : Rb) × (poll_ring table hdr_record_value (suc n) m h rb ≡ (after.0, after.1, rb'))
        × IsValid k rb'
        × Contents rb' (drop n rs)
  unfolding poll_ring calculate_latencies
  poll_ring-Contents zero k m h rb [] v c =
      (rb, ap (λ p. (m, h, p.1)) ((poll_lem k rb [] v c).0 refl), v, c)
  poll_ring-Contents zero k m h rb (r ∷ rs) v c =
      let (poll, _, valid, contents) = (poll_lem k rb (r ∷ rs) v c).1 r rs refl in
      (polled rb, ap (λ p. (m, h, p.1)) poll, valid, contents)
  poll_ring-Contents (suc n) k m h rb [] v c =
      let poll = (poll_lem k rb [] v c).0 refl in
      (rb, rw (poll_ring, ap (λ p. p.0) poll, ap (λ p. p.1) poll) refl, v, c)
  poll_ring-Contents (suc n) k m h rb (r ∷ rs) v c =
      let (poll, bytes, valid, contents) = (poll_lem k rb (r ∷ rs) v c).1 r rs refl in
      let (release, valid', contents') = release-Contents k (polled rb) r rs valid contents in
      let step = calculate_latency table hdr_record_value m h (decode_summary r) in
      let (rb', rest, valid'', contents'') =
        poll_ring-Contents n k step.0 step.1 (released (polled rb) r) rs valid' contents' in
      (
        rb',
        rw (poll_ring, ap (λ p. p.0) poll, ap (λ p. p.1) poll, bytes, ap (λ p. p.1) release) rest,
        valid'',
        contents'',
      )
