-- ===== src/Latency/Drain.antt =====
-- Rounds of `poll_ring_buffers` of src/latency_handler.c over rings that nobody fills.
use vmars.Prelude.{
  ℕ, zero, suc, ◌-◌, ◌*◌, ◌≤◌, ◌≡◌, refl, sym, ap, List, [], ◌∷◌, ◌++◌, map, take, drop, length,
  length-drop, arith,
}
use vmars.Prelude.Int.{ℤ}
use vmars.KHash.{KHash}
use vmars.Ring.Defs.{Rb}
use vmars.Ring.Valid.{IsValid}
use vmars.Ring.Records.{Contents}
use vmars.Latency.Defs.{LatencyRecord, calculate_latency, calculate_latencies}
use vmars.Latency.Poll.{max_polls, decode_summary, poll_rings, poll_rounds}
use vmars.Latency.Rounds.{poll_ring-Contents}

-- What each of the rings holds.
abbrev pub RingsHold : List Rb → List (List (List ℕ)) → Type 0
RingsHold [] [] = Unit
RingsHold [] (rs ∷ rss) = ⊥
RingsHold (rb ∷ rbs) [] = ⊥
RingsHold (rb ∷ rbs) (rs ∷ rss) = ((k : ℕ) × IsValid k rb × Contents rb rs) × RingsHold rbs rss

-- How many records a round takes off a ring at most.
abbrev pub round_limit : ℕ
round_limit = max_polls - 1

module _ {A : Type 0} where
  abbrev pub round_of : List (List A) → List A
  round_of [] = []
  round_of (rs ∷ rss) = take round_limit rs ++ round_of rss

  abbrev pub left_of : List (List A) → List (List A)
  left_of rss = map (drop round_limit) rss

  -- The records in the order in which that many rounds take them: of each ring in turn the oldest.
  abbrev pub schedule : ℕ → List (List A) → List A
  schedule zero rss = []
  schedule (suc n) rss = round_of rss ++ schedule n (left_of rss)

  abbrev pub AreShort : ℕ → List (List A) → Type 0
  AreShort n [] = Unit
  AreShort n (rs ∷ rss) = (length rs ≤ n) × AreShort n rss

left_of-AreShort :
    (n : ℕ) (rss : List (List (List ℕ)))
    → AreShort (suc n * round_limit) rss
    → AreShort (n * round_limit) (left_of rss)
left_of-AreShort n [] short = tt
left_of-AreShort n (rs ∷ rss) short =
    (omega (arith, length-drop round_limit rs, short.0), left_of-AreShort n rss short.1)

left_of-empty :
    (rss : List (List (List ℕ))) (rbs : List Rb)
    → RingsHold rbs (map (λ rs. []) (left_of rss))
    → RingsHold rbs (map (λ rs. []) rss)
left_of-empty [] rbs holds = holds
left_of-empty (rs ∷ rss) [] holds = absurd holds
left_of-empty (rs ∷ rss) (rb ∷ rbs) holds = (holds.0, left_of-empty rss rbs holds.1)

empty_list : (rs : List (List ℕ)) → length rs ≤ 0 → rs ≡ []
empty_list [] short = refl
empty_list (r ∷ rs) short = absurd (omega arith)

empty-RingsHold :
    (rbs : List Rb) (rss : List (List (List ℕ)))
    → RingsHold rbs rss
    → AreShort 0 rss
    → RingsHold rbs (map (λ rs. []) rss)
empty-RingsHold [] [] holds short = tt
empty-RingsHold [] (rs ∷ rss) holds short = absurd holds
empty-RingsHold (rb ∷ rbs) [] holds short = absurd holds
empty-RingsHold (rb ∷ rbs) (rs ∷ rss) holds short =
    let (k, valid, contents) = holds.0 in
    let none = empty_list rs short.0 in
    ((k, valid, rw none at contents), empty-RingsHold rbs rss holds.1 short.1)

module _ (table : KHash (List ℕ) LatencyRecord) {H : Type 0} (hdr_record_value : H → ℤ → H) where
  open table use {Map}

  abbrev after : Map → H → List (List ℕ) → Map × H
  after m h rs = calculate_latencies table hdr_record_value m h (map decode_summary rs)

  after_none : (m : Map) (h : H) → after m h [] ≡ (m, h)
  unfolding calculate_latencies
  after_none m h = refl

  after-append :
      (xs ys : List (List ℕ)) (m : Map) (h : H)
      → after m h (xs ++ ys) ≡ (let r = after m h xs in after r.0 r.1 ys)
  unfolding calculate_latencies
  after-append [] ys m h = refl
  after-append (x ∷ xs) ys m h =
      let step = calculate_latency table hdr_record_value m h (decode_summary x) in
      after-append xs ys step.0 step.1

  poll_rings-round :
      (rbs : List Rb) (rss : List (List (List ℕ))) (m : Map) (h : H)
      → RingsHold rbs rss
      → (rbs' : List Rb) × (poll_rings table hdr_record_value m h rbs
          ≡ ((after m h (round_of rss)).0, (after m h (round_of rss)).1, rbs'))
        × RingsHold rbs' (left_of rss)
  unfolding poll_rings calculate_latencies
  poll_rings-round [] [] m h holds = ([], refl, tt)
  poll_rings-round [] (rs ∷ rss) m h holds = absurd holds
  poll_rings-round (rb ∷ rbs) [] m h holds = absurd holds
  poll_rings-round (rb ∷ rbs) (rs ∷ rss) m h holds =
      let (k, valid, contents) = holds.0 in
      let (rb', one, valid', contents') =
        poll_ring-Contents table hdr_record_value round_limit k m h rb rs valid contents in
      let first = after m h (take round_limit rs) in
      let (rbs', others, left) = poll_rings-round rbs rss first.0 first.1 holds.1 in
      let joined = after-append (take round_limit rs) (round_of rss) m h in
      (
        rb' ∷ rbs',
        rw (ap (λ r. r.0) one, ap (λ r. r.1) one, ap (λ r. r.2) one, joined)
            (ap (λ r. (r.0, r.1, rb' ∷ r.2)) others),
        ((k, valid', contents'), left),
      )

  -- Rounds of the latency thread while nobody publishes: each takes up to 19 records off every ring,
  -- the oldest first, ring after ring, so that as many rounds as 19 go into the fullest ring empty
  -- all of them. Exactly the records that the rings held reach the latency table, in that order.
  -- The rings are valid.
  pub poll_rounds-empty :
      (n : ℕ) (rbs : List Rb) (rss : List (List (List ℕ))) (m : Map) (h : H)
      → RingsHold rbs rss
      → AreShort (n * round_limit) rss
      → let result =
          calculate_latencies table hdr_record_value m h (map decode_summary (schedule n rss)) in
        (rbs' : List Rb) × (poll_rounds table hdr_record_value n m h rbs
          ≡ (result.0, result.1, rbs'))
        × RingsHold rbs' (map (λ rs. []) rss)
  unfolding poll_rounds
  poll_rounds-empty zero rbs rss m h holds short =
      (rbs, ap (λ r. (r.0, r.1, rbs)) (sym (after_none m h)), empty-RingsHold rbs rss holds short)
  poll_rounds-empty (suc n) rbs rss m h holds short =
      let (rbs1, round, holds1) = poll_rings-round rbs rss m h holds in
      let first = after m h (round_of rss) in
      let (rbs', rest, holds') =
        poll_rounds-empty n rbs1 (left_of rss) first.0 first.1 holds1
          (left_of-AreShort n rss short) in
      let joined = after-append (round_of rss) (schedule n (left_of rss)) m h in
      (
        rbs',
        rw (ap (λ r. r.0) round, ap (λ r. r.1) round, ap (λ r. r.2) round, joined) rest,
        left_of-empty rss rbs' holds',
      )
