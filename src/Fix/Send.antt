-- ===== src/Fix/Send.antt =====
-- A measured message and the ring: what `process_for_latency_measurement` publishes.
use vmars.Prelude.{
  ℕ, zero, suc, ◌+◌, ◌/◌, ◌^◌, ◌≤◌, ◌<◌, ◌≡◌, refl, ap, ◌∙◌, List, [], ◌∷◌, ◌++◌, some, arith,
  length, length-append,
}
use vmars.Ring.Defs.{Rb, header_size, tail_index, write_data}
use vmars.Ring.Valid.{IsValid}
use vmars.Ring.Records.{Contents}
use vmars.Ring.Produce.{claim_full, claim-Claimed, write-Written, publish-Contents}
use vmars.Summary.{Summary, little_endian, encode_summary, summary_header_len}
use vmars.Fix.Details.{FixDetails}
use vmars.Fix.Counted.{IsCounted, record_message_type_counter-IsCounted}
use vmars.Fix.Process.{
  Context, Ids, zeros, strncpy, key_of, key_len, instrument_of, select_ids, summary_of,
  send_claimed, send_summary, record_message_type_counter, process_for_latency_measurement,
}

length-zeros : (l : List ℕ) → length (zeros l) ≡ length l
length-zeros [] = refl
length-zeros (x ∷ l) = ap suc (length-zeros l)

length-strncpy : (l : List ℕ) → length (strncpy l) ≡ length l
unfolding strncpy
length-strncpy [] = refl
length-strncpy (c ∷ cs) = ground (arith, length-strncpy cs, length-zeros cs)

length-little_endian : (n x : ℕ) → length (little_endian n x) ≡ n
unfolding little_endian
length-little_endian zero x = refl
length-little_endian (suc n) x = ap suc (length-little_endian n (x / 256))

pub length-key_of :
    (ids : Ids) (instrument : List ℕ) → length (key_of ids instrument) + 1 ≡ key_len ids instrument
unfolding key_of
length-key_of ids instrument = simp (length-append, length-strncpy) (omega arith)

pub length-encode_summary :
    (s : Summary) → length (encode_summary s) ≡ summary_header_len + (length s.key + 1)
length-encode_summary s = simp (length-append, length-little_endian) (omega arith)

-- The claim, the copy and the publication in one.
pub send_summary-Contents :
    (k : ℕ) (rb : Rb) (rs : List (List ℕ)) (s : Summary)
    → IsValid k rb
    → Contents rb rs
    → rb.tail_position + header_size + length (encode_summary s) ≤ rb.head_position + rb.capacity
    → rb.tail_position + header_size + length (encode_summary s) < 2 ^ 62
    → let rb' = send_summary rb (length (encode_summary s)) s in
      IsValid k rb'
      × Contents rb' (rs ++ (encode_summary s ∷ []))
      × (rb'.head_position ≡ rb.head_position)
      × (rb'.capacity ≡ rb.capacity)
unfolding send_summary write_data
send_summary-Contents k rb rs s v h room range =
    let xs = encode_summary s in
    let (rb', claim, claimed, tail, head, cap) = claim-Claimed k rb rs (length xs) v h room in
    let same : tail_index rb ≡ tail_index rb' = rw (tail, cap) refl in
    let written = write-Written k rb' rs xs claimed in
    let (rb'', publish, valid, contents, _, same_head, same_cap) =
      publish-Contents k (write_data rb' (tail_index rb') xs) rs xs written (rw tail range) in
    let sent : send_summary rb (length xs) s ≡ rb'' =
      ap (λ c. send_claimed c s) claim ∙ rw same (ap (λ r. r.1) publish) in
    rw sent (valid, contents, same_head ∙ head, same_cap ∙ cap)

send_summary_full :
    (k : ℕ) (rb : Rb) (n : ℕ) (s : Summary)
    → IsValid k rb
    → n < 2 ^ 63
    → rb.head_position + rb.capacity < rb.tail_position + header_size + n
    → send_summary rb n s ≡ rb
unfolding send_summary
send_summary_full k rb n s v small full =
    ap (λ c. send_claimed c s) (claim_full k rb n v small full)

module _ {Map : Type 0} where
  -- A measured message is counted: the counter of its type is one higher, modulo 2^64, and all
  -- others are what they were. It is appended to the records that the ring holds: the bytes of
  -- its summary, whole, with the key and the NUL behind it, if the ring has room for them, and
  -- otherwise the ring is left as it was. The ring is valid, its positions stay in range, and the
  -- message is of a kind that is measured.
  pub process-Contents :
      (k : ℕ) (ctx : Context Map) (rs : List (List ℕ)) (tv_sec tv_nsec : ℕ) (d : FixDetails)
      (ids : Ids)
      → IsValid k ctx.rb
      → Contents ctx.rb rs
      → select_ids d ≡ some ids
      → ctx.rb.tail_position + header_size + (summary_header_len + key_len ids (instrument_of d))
        < 2 ^ 62
      → let n = summary_header_len + key_len ids (instrument_of d) in
        let ctx' = process_for_latency_measurement ctx tv_sec tv_nsec d in
        let sent = encode_summary (summary_of tv_sec tv_nsec d ids) in
        IsCounted ctx.counters ctx'.counters d.message_type
        × (length sent ≡ n)
        × (ctx.rb.tail_position + header_size + n ≤ ctx.rb.head_position + ctx.rb.capacity
            → IsValid k ctx'.rb × Contents ctx'.rb (rs ++ (sent ∷ [])))
        × (ctx.rb.head_position + ctx.rb.capacity < ctx.rb.tail_position + header_size + n
            → ctx'.rb ≡ ctx.rb)
  unfolding process_for_latency_measurement
  process-Contents k ctx rs tv_sec tv_nsec d ids v h measured range =
      let n = summary_header_len + key_len ids (instrument_of d) in
      let s = summary_of tv_sec tv_nsec d ids in
      let size : length (encode_summary s) ≡ n =
        omega (arith, length-encode_summary s, length-key_of ids (instrument_of d)) in
      let done : process_for_latency_measurement ctx tv_sec tv_nsec d ≡ record ctx {
        counters = record_message_type_counter ctx.counters d.message_type;
        rb = send_summary ctx.rb n s;
      } =
        rw (process_for_latency_measurement, measured) refl in
      (
        rw done (record_message_type_counter-IsCounted ctx.counters d.message_type),
        size,
        λ room.
            let (valid, contents, _, _) =
              rw size at (send_summary-Contents k ctx.rb rs s v h (rw size room) (rw size range)) in
            rw done (valid, contents),
        λ full. rw done (send_summary_full k ctx.rb n s v (omega arith) full),
      )
