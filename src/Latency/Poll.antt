-- ===== src/Latency/Poll.antt =====
-- One ring in a round of `poll_ring_buffers`: its summaries, as they are read from the ring.
use vmars.Prelude.{ℕ, zero, suc, List, [], ◌∷◌, none, some, take, drop}
use vmars.Prelude.Int.{ℤ}
use vmars.KHash.{KHash}
use vmars.Summary.{Summary, from_little_endian}
use vmars.Ring.Defs.{Rb, record_data, vmars_spsc_rb_poll, vmars_spsc_rb_release}
use vmars.Latency.Defs.{LatencyRecord, calculate_latency}

abbrev pub max_polls : ℕ
max_polls = 20

-- `(vmars_fix_message_summary_t*) record->data`. Of the key the first `key_len` bytes are copied, up to
-- a NUL; it is looked up as the C string that it is, with the NUL behind those bytes.
abbrev pub decode_summary : List ℕ → Summary
decode_summary bytes = record {
  tv_sec = from_little_endian (take 8 bytes);
  tv_nsec = from_little_endian (take 8 (drop 8 bytes));
  msg_type = from_little_endian (take 4 (drop 16 bytes));
  key = take (from_little_endian (take 4 (drop 20 bytes))) (drop 24 bytes);
}

module _ (table : KHash (List ℕ) LatencyRecord) {H : Type 0} (hdr_record_value : H → ℤ → H) where
  open table use {Map}

  -- The inner loop, with `poll_limit`. The record at which the limit is met stays in the ring.
  unfoldable pub poll_ring : ℕ → Map → H → Rb → Map × H × Rb
  poll_ring zero latency_table histogram rb = (latency_table, histogram, rb)
  poll_ring (suc zero) latency_table histogram rb =
      (latency_table, histogram, (vmars_spsc_rb_poll rb).1)
  poll_ring (suc (suc poll_limit)) latency_table histogram rb =
      let (found, rb') = vmars_spsc_rb_poll rb in
      elim found [
        | none ↦ (latency_table, histogram, rb')
        | some a ↦
            let msg = decode_summary (record_data rb' a) in
            let (latency_table', histogram') =
              calculate_latency table hdr_record_value latency_table histogram msg in
            poll_ring (suc poll_limit) latency_table' histogram' (vmars_spsc_rb_release rb' a).1
      ]

  -- The loop over the rings.
  unfoldable pub poll_rings : Map → H → List Rb → Map × H × List Rb
  poll_rings latency_table histogram [] = (latency_table, histogram, [])
  poll_rings latency_table histogram (rb ∷ ring_buffers) =
      let (latency_table', histogram', rb') = poll_ring max_polls latency_table histogram rb in
      let (latency_table'', histogram'', rest) =
        poll_rings latency_table' histogram' ring_buffers in
      (latency_table'', histogram'', rb' ∷ rest)

  -- Turns of the outer loop in which no report is due.
  unfoldable pub poll_rounds : ℕ → Map → H → List Rb → Map × H × List Rb
  poll_rounds zero latency_table histogram ring_buffers = (latency_table, histogram, ring_buffers)
  poll_rounds (suc n) latency_table histogram ring_buffers =
      let (latency_table', histogram', ring_buffers') =
        poll_rings latency_table histogram ring_buffers in
      poll_rounds n latency_table' histogram' ring_buffers'
