-- ===== src/Pipeline/Pair.antt =====
-- A request and its response, captured by two threads, up to the latency that is recorded.
use mathlib.Core.Option.{some-injective}
use vmars.Prelude.{
  Option, ℕ, zero, suc, ◌≡◌, refl, sym, ap, ◌∙◌, true, List, [], ◌∷◌, ◌++◌, map, none, some, arith,
}
use vmars.Prelude.Int.{ℤ}
use vmars.KHash.{KHash}
use vmars.Latency.Time.{elapsed}
use vmars.Latency.Defs.{LatencyRecord, c_string, is_begin, is_complement, calculate_latencies}
use vmars.Latency.Poll.{poll_rounds}
use vmars.Latency.Drain.{schedule}
use vmars.Summary.{Summary}
use vmars.Fix.Details.{FixDetails}
use vmars.Fix.Process.{Context, Ids, select_ids, instrument_of, key_of, summary_of}
use vmars.Fix.Fragments.{Ipv4Stream, Fragment}
use vmars.Fix.Messages.{Message, details_of}
use vmars.Fix.Keys.{request-response}
use vmars.Packet.Defs.{Headers, PacketHdr, walk_block}
use vmars.Packet.Captured.{Payload}
use vmars.Pipeline.Published.{summaries_of, payload_summaries}
use vmars.Pipeline.Threads.{Load, IsLoaded, WalkAll, poll_rounds-walk_block}

-- A packet with one message.
abbrev pub single : PacketHdr → Message → Payload
single ppd m = record { ppd = ppd; first = m; others = [] }

-- A request that is measured, and a response to it that is measured too: it swaps the two parties
-- and carries the same order and instrument.
pub record IsAnswer (d r : FixDetails) : Type 0 where
  pub request : (i : Ids) × (select_ids d ≡ some i)
  pub response : (j : Ids) × (select_ids r ≡ some j)
  pub begins : is_begin d.message_type ≡ true
  pub pair : is_complement d.message_type r.message_type ≡ true
  pub remote : r.target_comp_id ≡ d.sender_comp_id
  pub local : r.sender_comp_id ≡ d.target_comp_id
  pub order : r.cl_ord_id ≡ d.cl_ord_id
  pub instrument : instrument_of r ≡ instrument_of d

summaries_of-measured :
    (tv_sec tv_nsec : ℕ) (d : FixDetails) (i : Ids)
    → select_ids d ≡ some i
    → summaries_of tv_sec tv_nsec d ≡ summary_of tv_sec tv_nsec d i ∷ []
summaries_of-measured tv_sec tv_nsec d i found = rw (summaries_of, found) refl

-- A capture thread and its packet.
abbrev pub load :
    {Fragments : Type 0} → ℕ → Context Fragments → PacketHdr → Message → Load Fragments
load k ctx ppd m = record { k = k; ctx = ctx; payloads = single ppd m ∷ [] }

single-summaries :
    (ppd : PacketHdr) (m : Message) (i : Ids)
    → select_ids (details_of m) ≡ some i
    → payload_summaries (single ppd m ∷ [])
      ≡ summary_of ppd.tp_sec ppd.tp_nsec (details_of m) i ∷ []
single-summaries ppd m i found =
    ap (λ l. (l ++ []) ++ []) (summaries_of-measured ppd.tp_sec ppd.tp_nsec (details_of m) i found)

schedule-nothing : {A : Type 0} (n : ℕ) → schedule {A = A} n ([] ∷ [] ∷ []) ≡ []
schedule-nothing zero = refl
schedule-nothing (suc n) = schedule-nothing n

schedule-two :
    {A : Type 0} (n : ℕ) (x y : A) → schedule (suc n) ((x ∷ []) ∷ (y ∷ []) ∷ []) ≡ x ∷ y ∷ []
schedule-two n x y = ap (λ l. x ∷ y ∷ l) (schedule-nothing n)

module _ (fragments : KHash Ipv4Stream Fragment) (headers : Headers) (port : ℕ) where
  abbrev walk : Load fragments.Map → Option (Context fragments.Map)
  walk l = walk_block fragments headers port l.ctx (map (λ p. p.ppd) l.payloads)

  module _ (table : KHash (List ℕ) LatencyRecord) {H : Type 0} (hdr_record_value : H → ℤ → H) where
    both :
        (n : ℕ) (a b : Load fragments.Map) (h : H) (m : table.Map) (recorded : H)
        (cs : List (Context fragments.Map))
        → WalkAll fragments headers port (a ∷ b ∷ []) cs
        → (poll_rounds table hdr_record_value n m h (map (λ c. c.rb) cs)).1 ≡ recorded
        → (ca cb : Context fragments.Map) × (walk a ≡ some ca)
          × (walk b ≡ some cb)
          × ((poll_rounds table hdr_record_value n m h (ca.rb ∷ cb.rb ∷ [])).1 ≡ recorded)
    both n a b h m recorded [] walks e = absurd walks
    both n a b h m recorded (ca ∷ []) walks e = absurd walks.1
    both n a b h m recorded (ca ∷ cb ∷ []) walks e = (ca, cb, walks.0, walks.1.0, e)
    both n a b h m recorded (ca ∷ cb ∷ cc ∷ cs) walks e = absurd walks.1.1

    -- Two threads whose blocks have one summary each: what the rounds make of their rings.
    rounds-two :
        (n : ℕ) (a b : Load fragments.Map) (s t : Summary) (m : table.Map) (h : H)
        → IsLoaded headers port a
        → IsLoaded headers port b
        → payload_summaries a.payloads ≡ s ∷ []
        → payload_summaries b.payloads ≡ t ∷ []
        → (ca cb : Context fragments.Map) × (walk a ≡ some ca)
          × (walk b ≡ some cb)
          × ((poll_rounds table hdr_record_value (suc n) m h (ca.rb ∷ cb.rb ∷ [])).1
              ≡ (calculate_latencies table hdr_record_value m h (s ∷ t ∷ [])).1)
    rounds-two n a b s t m h la lb one other =
        let (cs, rbs, walks, rounds, _) =
          poll_rounds-walk_block fragments headers port table hdr_record_value (suc n) (a ∷ b ∷ [])
            m h (la, (lb, tt)) (rw (one, other) (omega arith, (omega arith, tt))) in
        both (suc n) a b h m _ cs walks (
          ap (λ r. r.1) rounds
          ∙ ap (λ l. (calculate_latencies table hdr_record_value m h l).1)
              (rw (one, other) (schedule-two n s t)))

    -- One thread captures a packet with a measured request, another one a packet with a measured
    -- response to it. From their rings, in either order and in one round or more, the latency
    -- thread records once the nanoseconds from the request's packet to the response's, if its table
    -- has no entry for their key. Both rings were empty, and have room for a summary.
    pub request-response-captured :
        (n k k' : ℕ) (ctx ctx' : Context fragments.Map) (ppd ppd' : PacketHdr) (d r : Message)
        (m : table.Map) (h : H)
        → IsLoaded headers port (load k ctx ppd d)
        → IsLoaded headers port (load k' ctx' ppd' r)
        → (answer : IsAnswer (details_of d) (details_of r))
        → table.kh_get m (c_string (key_of answer.request.0 (instrument_of (details_of d)))) ≡ none
        → let recorded =
            hdr_record_value h (elapsed ppd.tp_sec ppd.tp_nsec ppd'.tp_sec ppd'.tp_nsec) in
          (c c' : Context fragments.Map) × (walk_block fragments headers port ctx (ppd ∷ [])
            ≡ some c)
          × (walk_block fragments headers port ctx' (ppd' ∷ []) ≡ some c')
          × ((poll_rounds table hdr_record_value (suc n) m h (c.rb ∷ c'.rb ∷ [])).1 ≡ recorded)
          × ((poll_rounds table hdr_record_value (suc n) m h (c'.rb ∷ c.rb ∷ [])).1 ≡ recorded)
    request-response-captured n k k' ctx ctx' ppd ppd' d r m h loaded loaded' answer fresh =
        let (i, si) = answer.request in
        let (j, sj) = answer.response in
        let one = single-summaries ppd d i si in
        let other = single-summaries ppd' r j sj in
        let a = load k ctx ppd d in
        let b = load k' ctx' ppd' r in
        let (c, c', walked, walked', forth) = rounds-two n a b _ _ m h loaded loaded' one other in
        let (e', e, again', again, back) = rounds-two n b a _ _ m h loaded' loaded other one in
        let same = some-injective _ _ (sym again ∙ walked) in
        let same' = some-injective _ _ (sym again' ∙ walked') in
        let (first, second) =
          request-response table hdr_record_value m h (details_of d) (details_of r) i j ppd.tp_sec
            ppd.tp_nsec ppd'.tp_sec ppd'.tp_nsec (loaded.timed.0, loaded.timed.1)
            (loaded'.timed.0, loaded'.timed.1) si sj answer.begins answer.pair answer.remote
            answer.local answer.order answer.instrument fresh in
        (
          c,
          c',
          walked,
          walked',
          forth ∙ first,
          ap (λ rbs. (poll_rounds table hdr_record_value (suc n) m h rbs).1)
                (λ i. (sym same' i).rb ∷ (sym same i).rb ∷ [])
              ∙ back
              ∙ second,
        )
