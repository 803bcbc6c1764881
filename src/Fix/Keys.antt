-- ===== src/Fix/Keys.antt =====
-- The keys of a request and of its response, and what the latency thread makes of the two.
use vmars.Prelude.{
  ℕ, ◌≡◌, refl, sym, ap, ◌∙◌, true, false, not, List, [], ◌∷◌, none, some, arith, if◌then◌else◌,
}
use vmars.Prelude.Int.{ℤ}
use vmars.KHash.{KHash}
use vmars.Latency.Time.{IsTime, elapsed}
use vmars.Latency.Defs.{LatencyRecord, c_string, is_begin, is_complement, calculate_latencies}
use vmars.Latency.Pairs.{is_complement-is_begin, pair_lem}
use vmars.Fix.Details.{FixDetails}
use vmars.Fix.Process.{
  Ids, request_ids, response_ids, select_ids, instrument_of, key_of, summary_of,
}

some_inj : {a b : Ids} → some a ≡ some b → a ≡ b
some_inj {a} e = ap (λ o. elim o [ none ↦ a | some x ↦ x ]) e

-- Which side's identifiers a measured message is given.
select_ids_lem :
    (d : FixDetails) (i : Ids)
    → select_ids d ≡ some i
    → i ≡ (if is_begin d.message_type then request_ids d else response_ids d)
unfolding select_ids is_begin
select_ids_lem d i e = ground arith

request-response-key :
    (d r : FixDetails) (i j : Ids)
    → select_ids d ≡ some i
    → select_ids r ≡ some j
    → is_begin d.message_type ≡ true
    → is_complement d.message_type r.message_type ≡ true
    → r.target_comp_id ≡ d.sender_comp_id
    → r.sender_comp_id ≡ d.target_comp_id
    → r.cl_ord_id ≡ d.cl_ord_id
    → instrument_of r ≡ instrument_of d
    → key_of i (instrument_of d) ≡ key_of j (instrument_of r)
request-response-key d r i j si sj begins pair remote local order instrument =
    let mine : i ≡ request_ids d = select_ids_lem d i si ∙ rw begins refl in
    let answers : is_begin r.message_type ≡ false =
      (is_complement-is_begin d.message_type r.message_type pair).1 ∙ ap not begins in
    let theirs : j ≡ response_ids r = select_ids_lem r j sj ∙ rw answers refl in
    let swapped : response_ids r ≡ request_ids d =
      λ n. record { remote_id = remote n; local_id = local n; instruction = order n } in
    let same = mine ∙ sym (theirs ∙ swapped) in λ n. key_of (same n) (sym instrument n)

module _ (table : KHash (List ℕ) LatencyRecord) {H : Type 0} (hdr_record_value : H → ℤ → H) where
  open table use {Map, kh_get}

  -- A measured request and a measured response to it, which swaps the two parties and carries the
  -- same order and instrument: from their summaries, in either order, the latency thread records
  -- once the nanoseconds from the request to the response, if it has no entry for the request's
  -- key. Seconds and nanoseconds fit 32 bits each.
  pub request-response :
      (m : Map) (h : H) (d r : FixDetails) (i j : Ids) (d_sec d_nsec r_sec r_nsec : ℕ)
      → IsTime d_sec d_nsec
      → IsTime r_sec r_nsec
      → select_ids d ≡ some i
      → select_ids r ≡ some j
      → is_begin d.message_type ≡ true
      → is_complement d.message_type r.message_type ≡ true
      → r.target_comp_id ≡ d.sender_comp_id
      → r.sender_comp_id ≡ d.target_comp_id
      → r.cl_ord_id ≡ d.cl_ord_id
      → instrument_of r ≡ instrument_of d
      → kh_get m (c_string (key_of i (instrument_of d))) ≡ none
      → let request = summary_of d_sec d_nsec d i in
        let response = summary_of r_sec r_nsec r j in
        let recorded = hdr_record_value h (elapsed d_sec d_nsec r_sec r_nsec) in
        ((calculate_latencies table hdr_record_value m h (request ∷ response ∷ [])).1 ≡ recorded)
        × ((calculate_latencies table hdr_record_value m h (response ∷ request ∷ [])).1 ≡ recorded)
  request-response m h d r i j d_sec d_nsec r_sec r_nsec t0 t1 si sj begins pair remote local order
        instrument fresh =
      let key = request-response-key d r i j si sj begins pair remote local order instrument in
      let both =
        pair_lem table hdr_record_value m h (summary_of d_sec d_nsec d i)
          (summary_of r_sec r_nsec r j) t0 t1 (ap c_string key) begins pair fresh in
      (both.0, both.1)
