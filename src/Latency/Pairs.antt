-- ===== src/Latency/Pairs.antt =====
-- What the latency thread records of a request and its response, in either order of arrival.
use vmars.Prelude.{
  ℕ, ◌≡◌, refl, ap, ◌∙◌, sym, true, not, List, [], ◌∷◌, Option, none, some, arith, if◌then◌else◌,
}
use vmars.Prelude.Int.{ℤ}
use vmars.KHash.{KHash}
use vmars.Summary.{Summary}
use vmars.Latency.Time.{IsTime, elapsed, diff-elapsed}
use vmars.Latency.Defs.{
  is_begin, is_complement, LatencyRecord, record_of, c_string, latency_nsec, calculate_latency,
  calculate_latencies,
}

-- Complements are mutual, and exactly one message of a pair begins it.
pub is_complement-is_begin :
    (a b : ℕ)
    → is_complement a b ≡ true
    → (is_complement b a ≡ true) × (is_begin b ≡ not (is_begin a))
unfolding is_complement is_begin
is_complement-is_begin a b h = ground arith

-- What becomes of the entry of one key as a message with that key is taken off.
unfoldable pub entry_step : Option LatencyRecord → Summary → Option LatencyRecord
entry_step none msg = some (record_of msg)
entry_step (some r) msg = if is_complement msg.msg_type r.msg_type then none else some r

module _ (table : KHash (List ℕ) LatencyRecord) {H : Type 0} (hdr_record_value : H → ℤ → H) where
  open table use {Map, key_equal, key_equal_iff, kh_get, get-put, get-del}

  -- The messages of the key `k` alone, in order.
  unfoldable pub entry_after : Option LatencyRecord → List ℕ → List Summary → Option LatencyRecord
  entry_after e k [] = e
  entry_after e k (msg ∷ msgs) =
      entry_after (if key_equal (c_string msg.key) k then entry_step e msg else e) k msgs

  kh_get-calculate_latency :
      (m : Map) (h : H) (msg : Summary) (k : List ℕ)
      → kh_get (calculate_latency table hdr_record_value m h msg).0 k
        ≡ (if key_equal (c_string msg.key) k then entry_step (kh_get m k) msg else kh_get m k)
  unfolding calculate_latency entry_step
  kh_get-calculate_latency m h msg k =
      let key = c_string msg.key in
      ground (arith, get-put m key (record_of msg) k, get-del m key k, key_equal_iff key k)

  -- Keys do not interfere: after any sequence of messages, the entry of a key is what the messages
  -- with that key alone, in their order, make of the entry that it had.
  pub kh_get-calculate_latencies :
      (msgs : List Summary) (m : Map) (h : H) (k : List ℕ)
      → kh_get (calculate_latencies table hdr_record_value m h msgs).0 k
        ≡ entry_after (kh_get m k) k msgs
  unfolding calculate_latencies entry_after
  kh_get-calculate_latencies [] m h k = refl
  kh_get-calculate_latencies (msg ∷ msgs) m h k =
      let step = calculate_latency table hdr_record_value m h msg in
      kh_get-calculate_latencies msgs step.0 step.1 k
      ∙ ap (λ e. entry_after e k msgs) (kh_get-calculate_latency m h msg k)

  second_of_pair :
      (m : Map) (h : H) (a b : Summary)
      → c_string a.key ≡ c_string b.key
      → is_complement a.msg_type b.msg_type ≡ true
      → kh_get m (c_string a.key) ≡ none
      → (calculate_latencies table hdr_record_value m h (a ∷ b ∷ [])).1
        ≡ hdr_record_value h (latency_nsec b (record_of a))
  unfolding calculate_latencies calculate_latency
  second_of_pair m h a b same pair fresh =
      let ka = c_string a.key in
      let stored = get-put m ka (record_of a) ka in
      ground (arith, stored, key_equal_iff ka ka, is_complement-is_begin a.msg_type b.msg_type pair)

  -- A request and its response, with one key that is not in the table: whichever of the two is
  -- taken off first, exactly the nanoseconds from the request to the response are recorded, and
  -- every key has the entry that it had before. Seconds and nanoseconds fit 32 bits each.
  pub pair_lem :
      (m : Map) (h : H) (request response : Summary)
      → IsTime request.tv_sec request.tv_nsec
      → IsTime response.tv_sec response.tv_nsec
      → c_string request.key ≡ c_string response.key
      → is_begin request.msg_type ≡ true
      → is_complement request.msg_type response.msg_type ≡ true
      → kh_get m (c_string request.key) ≡ none
      → let latency = elapsed request.tv_sec request.tv_nsec response.tv_sec response.tv_nsec in
        let (m1, h1) = calculate_latencies table hdr_record_value m h (request ∷ response ∷ []) in
        let (m2, h2) = calculate_latencies table hdr_record_value m h (response ∷ request ∷ []) in
        (h1 ≡ hdr_record_value h latency)
        × (h2 ≡ hdr_record_value h latency)
        × ((k : List ℕ) → kh_get m1 k ≡ kh_get m k)
        × ((k : List ℕ) → kh_get m2 k ≡ kh_get m k)
  unfolding latency_nsec entry_after entry_step
  pair_lem m h request response t0 t1 same begins pair fresh =
      let back = is_complement-is_begin request.msg_type response.msg_type pair in
      let key = c_string request.key in
      let time =
        diff-elapsed request.tv_sec request.tv_nsec response.tv_sec response.tv_nsec t0 t1 in
      (
        second_of_pair m h request response same pair fresh
            ∙ ap (hdr_record_value h) (ground (arith, back) ∙ time),
        second_of_pair m h response request (sym same) back.0 (rw (← same) fresh)
            ∙ ap (hdr_record_value h) (ground (arith, back) ∙ time),
        λ k.
            kh_get-calculate_latencies (request ∷ response ∷ []) m h k
            ∙ ground (arith, back, key_equal_iff key k),
        λ k.
            kh_get-calculate_latencies (response ∷ request ∷ []) m h k
            ∙ ground (arith, back, key_equal_iff key k),
      )
