-- ===== src/Latency/Log.antt =====
-- The latencies that src/latency_handler.c records, whatever histogram they go to.
use vmars.Prelude.{ℕ, zero, suc, ◌≡◌, refl, ap, List, [], ◌∷◌, Bool-cases, Option-cases, inl, inr}
use vmars.Prelude.Int.{ℤ}
use vmars.KHash.{KHash}
use vmars.Summary.{Summary}
use vmars.Ring.Defs.{Rb, record_data, vmars_spsc_rb_poll, vmars_spsc_rb_release}
use vmars.Latency.Defs.{LatencyRecord, c_string, is_complement, calculate_latency}
use vmars.Latency.Poll.{max_polls, decode_summary, poll_ring, poll_rings}

-- The latencies, the last one first.
abbrev pub log_value : List ℤ → ℤ → List ℤ
log_value log value = value ∷ log

module _ (table : KHash (List ℕ) LatencyRecord) {H : Type 0} (hdr_record_value : H → ℤ → H) where
  open table use {Map, kh_get}

  -- All of them recorded in a histogram.
  abbrev pub record_all : H → List ℤ → H
  record_all h [] = h
  record_all h (value ∷ log) = hdr_record_value (record_all h log) value

  calculate_latency-log :
      (m : Map) (h : H) (log : List ℤ) (msg : Summary)
      → calculate_latency table hdr_record_value m (record_all h log) msg
        ≡ (let r = calculate_latency table log_value m log msg in (r.0, record_all h r.1))
  unfolding calculate_latency
  calculate_latency-log m h log msg = elim (Option-cases (kh_get m (c_string msg.key))) [
    | inl new ↦ rw (calculate_latency, new) refl
    | inr (r, old) ↦ elim (Bool-cases (is_complement msg.msg_type r.msg_type)) [
      | inl pair ↦ rw (calculate_latency, old, pair) refl
      | inr single ↦ rw (calculate_latency, old, single) refl
    ]
  ]

  poll_ring-log :
      (n : ℕ) (m : Map) (h : H) (log : List ℤ) (rb : Rb)
      → poll_ring table hdr_record_value n m (record_all h log) rb
        ≡ (let r = poll_ring table log_value n m log rb in (r.0, record_all h r.1, r.2))
  unfolding poll_ring
  poll_ring-log zero m h log rb = refl
  poll_ring-log (suc zero) m h log rb = refl
  poll_ring-log (suc (suc n)) m h log rb = elim (Option-cases (vmars_spsc_rb_poll rb).0) [
    | inl nothing ↦ rw (poll_ring, nothing) refl
    | inr (a, found) ↦
        let rb' = (vmars_spsc_rb_poll rb).1 in
        let msg = decode_summary (record_data rb' a) in
        let (m', log') = calculate_latency table log_value m log msg in
        rw (poll_ring, found, calculate_latency-log m h log msg)
          (poll_ring-log (suc n) m' h log' (vmars_spsc_rb_release rb' a).1)
  ]

  pub poll_rings-log :
      (rbs : List Rb) (m : Map) (h : H) (log : List ℤ)
      → poll_rings table hdr_record_value m (record_all h log) rbs
        ≡ (let r = poll_rings table log_value m log rbs in (r.0, record_all h r.1, r.2))
  unfolding poll_rings
  poll_rings-log [] m h log = refl
  poll_rings-log (rb ∷ rbs) m h log =
      let (m', log', rb') = poll_ring table log_value max_polls m log rb in
      rw (poll_rings, poll_ring-log max_polls m h log rb)
        (ap (λ r. (r.0, r.1, rb' ∷ r.2)) (poll_rings-log rbs m' h log'))
