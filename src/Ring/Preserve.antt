-- ===== src/Ring/Preserve.antt =====
-- The steps of the producer and of the consumer, and the invariant.
use native.Mathlib.Decide.{dec_le}
use vmars.Prelude.{
  ℕ, ◌+◌, ◌^◌, ◌<◌, ◌≡◌, refl, ap, ◌∙◌, sym, List, [], ◌∷◌, ◌++◌, append_assoc, inl, inr, none,
  some, arith, length,
}
use vmars.Ring.Defs.{
  Rb, Status, header_size, record_data, write_data, tail_index, vmars_spsc_rb_claim,
  vmars_spsc_rb_publish, vmars_spsc_rb_poll, vmars_spsc_rb_release,
}
use vmars.Ring.Records.{Contents}
use vmars.Ring.Produce.{claim_full, claim-Claimed, write-Written, publish-Contents}
use vmars.Ring.Consume.{polled, released, poll_lem, release-Contents, record_data-oldest}
use vmars.Ring.Interleave.{idle, claimed, written, waiting, reading, System}
use vmars.Ring.Invariant.{
  Inv, List-cases, ConsumerInv-cong, ConsumerInv-snoc, ProducerInv-polled, ProducerInv-released,
}

module _ {k : ℕ} (s : System) (inv : Inv k s) where
  open inv use {pending, valid, contents, queue, producer_inv, consumer_inv}

  pub claim-Inv :
      (n a : ℕ) (rb' : Rb)
      → n < 2 ^ 63
      → vmars_spsc_rb_claim s.rb n ≡ (some a, rb')
      → Inv k (record s { rb = rb'; producer = claimed a n })
  claim-Inv n a rb' small e =
      elim (dec_le (s.rb.tail_position + header_size + n) (s.rb.head_position + s.rb.capacity)) [
        | no full ↦ absurd (cc (e, claim_full k s.rb n valid small (omega arith)))
        | yes room ↦
            let (rb1, e1, w, et, eh, ec) = claim-Claimed k s.rb pending n valid contents room in
            let same : rb1 ≡ rb' = cc (e, e1) in
            let at_tail : a ≡ tail_index rb1 = cc (e, e1, et, ec) in
            rw (← same) (record {
              pending = pending;
              valid = w.valid;
              contents = w.contents;
              queue = queue;
              producer_inv = (at_tail, w);
              consumer_inv = ConsumerInv-cong s.rb rb1 pending s.consumer eh ec consumer_inv;
            })
      ]

  pub claim_fails-Inv :
      (n : ℕ) (rb' : Rb)
      → n < 2 ^ 63
      → vmars_spsc_rb_claim s.rb n ≡ (none, rb')
      → Inv k (record s { rb = rb' })
  claim_fails-Inv n rb' small e =
      elim (dec_le (s.rb.tail_position + header_size + n) (s.rb.head_position + s.rb.capacity)) [
        | no full ↦
            let same : s.rb ≡ rb' = cc (e, claim_full k s.rb n valid small (omega arith)) in
            rw (← same) inv
        | yes room ↦ absurd (cc (e, (claim-Claimed k s.rb pending n valid contents room).1))
      ]

  pub write-Inv :
      (a : ℕ) (xs : List ℕ)
      → s.producer ≡ claimed a (length xs)
      → Inv k (record s { rb = write_data s.rb a xs; producer = written a xs })
  unfolding write_data
  write-Inv a xs e =
      let (at_tail, w) = rw e at producer_inv in
      let done = write-Written k s.rb pending xs w in
      rw at_tail (record {
        pending = pending;
        valid = done.claimed.valid;
        contents = done.claimed.contents;
        queue = queue;
        producer_inv = (refl, done);
        consumer_inv =
            ConsumerInv-cong s.rb (write_data s.rb (tail_index s.rb) xs) pending s.consumer refl
              refl consumer_inv;
      })

  pub publish-Inv :
      (a : ℕ) (xs : List ℕ) (status : Status) (rb' : Rb)
      → s.producer ≡ written a xs
      → s.rb.tail_position + header_size + length xs < 2 ^ 62
      → vmars_spsc_rb_publish s.rb a ≡ (status, rb')
      → Inv k (record s { rb = rb'; producer = idle; published = s.published ++ (xs ∷ []) })
  publish-Inv a xs status rb' e range call =
      let (at_tail, w) = rw e at producer_inv in
      let (rb1, e1, v, c, et, eh, ec) = publish-Contents k s.rb pending xs w range in
      let same : rb1 ≡ rb' = cc (call, e1, at_tail) in
      rw (← same) (record {
        pending = pending ++ (xs ∷ []);
        valid = v;
        contents = c;
        queue = ap (λ l. l ++ (xs ∷ [])) queue ∙ append_assoc s.consumed pending (xs ∷ []);
        producer_inv = tt;
        consumer_inv =
            ConsumerInv-snoc rb1 pending xs s.consumer
              (ConsumerInv-cong s.rb rb1 pending s.consumer eh ec consumer_inv);
      })

  pub poll_fails-Inv :
      (rb' : Rb) → vmars_spsc_rb_poll s.rb ≡ (none, rb') → Inv k (record s { rb = rb' })
  poll_fails-Inv rb' call = elim (List-cases pending) [
    | inl e ↦
        let same : s.rb ≡ rb' = cc (call, (poll_lem k s.rb pending valid contents).0 e) in
        rw (← same) inv
    | inr (r, later, e) ↦
        absurd (cc (call, ((poll_lem k s.rb pending valid contents).1 r later e).0))
  ]

  pub poll-Inv :
      (a : ℕ) (rb' : Rb)
      → vmars_spsc_rb_poll s.rb ≡ (some a, rb')
      → Inv k (record s { rb = rb'; consumer = reading a })
  poll-Inv a rb' call = elim (List-cases pending) [
    | inl e ↦ absurd (cc (call, (poll_lem k s.rb pending valid contents).0 e))
    | inr (r, later, e) ↦
        let (result, _, v, c) = (poll_lem k s.rb pending valid contents).1 r later e in
        let same : polled s.rb ≡ rb' = cc (call, result) in
        rw (← same) (record {
          pending = pending;
          valid = v;
          contents = c;
          queue = queue;
          producer_inv = ProducerInv-polled s.rb pending s.producer v producer_inv;
          consumer_inv = (cc (call, result), cc e);
        })
  ]

  pub release-Inv :
      (a : ℕ) (status : Status) (rb' : Rb)
      → s.consumer ≡ reading a
      → vmars_spsc_rb_release s.rb a ≡ (status, rb')
      → Inv k (record s {
        rb = rb';
        consumer = waiting;
        consumed = s.consumed ++ (record_data s.rb a ∷ []);
      })
  release-Inv a status rb' e call = elim (List-cases pending) [
    | inl none_left ↦ absurd ((rw e at consumer_inv).1 none_left)
    | inr (r, later, some_left) ↦
        let at_head = (rw e at consumer_inv).0 in
        let holds : Contents s.rb (r ∷ later) = rw some_left at contents in
        let (result, v, c) = release-Contents k s.rb r later valid holds in
        let same : released s.rb r ≡ rb' = cc (call, result, at_head) in
        let read : record_data s.rb a ≡ r =
          ap (record_data s.rb) at_head ∙ record_data-oldest r later valid holds in
        rw (← same, read)
          (record {
            pending = later;
            valid = v;
            contents = c;
            queue =
                queue
                ∙ ap (◌++◌ s.consumed) some_left
                ∙ sym (append_assoc s.consumed (r ∷ []) later);
            producer_inv =
                ProducerInv-released s.rb r later s.producer v c (rw some_left at producer_inv);
            consumer_inv = tt;
          })
  ]
