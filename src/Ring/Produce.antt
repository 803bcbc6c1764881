-- ===== src/Ring/Produce.antt =====
-- The producer's steps: claim a record, fill it in, publish it.
use native.Mathlib.Nat.{mod-mod, mod-add-mod}
use native.Mathlib.Decide.{dec_le}
use vmars.Prelude.{
  ℕ, ◌+◌, ◌%◌, ◌^◌, ◌≤◌, ◌<◌, ◌≡◌, refl, ap, ◌∙◌, List, [], ◌∷◌, ◌++◌, none, some, arith, length,
  ==-refl,
}
use vmars.Ring.Defs.{
  Rb, success, word, sign_extend, header_size, int32_bytes, record_length, write_data, tail_index,
  claim_record, vmars_spsc_rb_claim, vmars_spsc_rb_publish,
}
use vmars.Ring.Bytes.{
  BytesAt, BytesAt-store_other, BytesAt-store_self, store_bytes-cong, record_length-BytesAt,
}
use vmars.Ring.Valid.{IsValid, capacity_bounds, tail_index_lem, available_capacity_lem}
use vmars.Ring.Records.{Contents, Records-store, Records-snoc}

-- A record of `n` bytes has been claimed at the tail, and the ring holds the records `rs`.
pub record Claimed (k : ℕ) (rb : Rb) (rs : List (List ℕ)) (n : ℕ) : Type 0 where
  pub valid : IsValid k rb
  pub contents : Contents rb rs
  pub room : rb.tail_position + header_size + n ≤ rb.head_cache_position + rb.capacity
  pub header : BytesAt rb.capacity rb.buffer rb.tail_position (int32_bytes n)

-- Its bytes have been filled in.
pub record Written (k : ℕ) (rb : Rb) (rs : List (List ℕ)) (xs : List ℕ) : Type 0 where
  pub claimed : Claimed k rb rs (length xs)
  pub bytes : BytesAt rb.capacity rb.buffer (rb.tail_position + header_size) xs

pub claim_record-Claimed :
    (k : ℕ) (rb : Rb) (rs : List (List ℕ)) (n : ℕ)
    → IsValid k rb
    → Contents rb rs
    → rb.tail_position + header_size + n ≤ rb.head_cache_position + rb.capacity
    → Claimed k (claim_record rb n).1 rs n
unfolding claim_record
claim_record-Claimed k rb rs n v h room =
    let c = rb.capacity in
    let fits : n % 2 ^ 32 ≡ n = omega (arith, capacity_bounds v) in
    let place : tail_index rb % c ≡ rb.tail_position % c =
      ap (λ a. a % c) (tail_index_lem v) ∙ mod-mod rb.tail_position c in
    let same =
      store_bytes-cong c (int32_bytes n) rb.buffer (tail_index rb) rb.tail_position place in
    rw (fits, same)
      (record {
        valid = record {
          capacity_is = v.capacity_is;
          small = v.small;
          head_cached = v.head_cached;
          head_le_tail = v.head_le_tail;
          tail_cached = v.tail_cached;
          fits = v.fits;
          in_range = v.in_range;
        };
        contents =
            Records-store c rs (int32_bytes n) rb.buffer rb.head_position rb.tail_position
              rb.tail_position (omega arith) (omega arith) h;
        room = room;
        header = BytesAt-store_self c (int32_bytes n) rb.buffer rb.tail_position (omega arith);
      })

claim_cached :
    (k : ℕ) (rb : Rb) (n : ℕ)
    → IsValid k rb
    → rb.tail_position + header_size + n ≤ rb.head_cache_position + rb.capacity
    → vmars_spsc_rb_claim rb n ≡ claim_record rb n
unfolding vmars_spsc_rb_claim
claim_cached k rb n v room = ground (arith, capacity_bounds v, available_capacity_lem v)

claim_fresh :
    (k : ℕ) (rb : Rb) (n : ℕ)
    → IsValid k rb
    → rb.head_cache_position + rb.capacity < rb.tail_position + header_size + n
    → rb.tail_position + header_size + n ≤ rb.head_position + rb.capacity
    → vmars_spsc_rb_claim rb n
      ≡ claim_record (record rb { head_cache_position = rb.head_position }) n
unfolding vmars_spsc_rb_claim
claim_fresh k rb n v full room = ground (arith, capacity_bounds v, available_capacity_lem v)

-- A claim for which there is no room between the tail and the consumer's head returns NULL and
-- leaves the ring as it was.
pub claim_full :
    (k : ℕ) (rb : Rb) (n : ℕ)
    → IsValid k rb
    → n < 2 ^ 63
    → rb.head_position + rb.capacity < rb.tail_position + header_size + n
    → vmars_spsc_rb_claim rb n ≡ (none, rb)
unfolding vmars_spsc_rb_claim
claim_full k rb n v small full = ground (arith, capacity_bounds v, available_capacity_lem v)

set_head_cache-IsValid :
    {k : ℕ} {rb : Rb}
    → IsValid k rb
    → IsValid k (record rb { head_cache_position = rb.head_position })
set_head_cache-IsValid v = record {
  capacity_is = v.capacity_is;
  small = v.small;
  head_cached = omega arith;
  head_le_tail = v.head_le_tail;
  tail_cached = v.tail_cached;
  fits = omega (arith, v.fits, v.head_cached);
  in_range = v.in_range;
}

-- A claim for which there is room returns the record at the tail, whose length is set, and keeps
-- all that the ring holds; neither position moves.
pub claim-Claimed :
    (k : ℕ) (rb : Rb) (rs : List (List ℕ)) (n : ℕ)
    → IsValid k rb
    → Contents rb rs
    → rb.tail_position + header_size + n ≤ rb.head_position + rb.capacity
    → (rb' : Rb) × (vmars_spsc_rb_claim rb n ≡ (some (tail_index rb), rb'))
      × Claimed k rb' rs n
      × (rb'.tail_position ≡ rb.tail_position)
      × (rb'.head_position ≡ rb.head_position)
      × (rb'.capacity ≡ rb.capacity)
claim-Claimed k rb rs n v h room =
    elim (dec_le (rb.tail_position + header_size + n) (rb.head_cache_position + rb.capacity)) [
      | yes cached ↦ (
        (claim_record rb n).1,
        claim_cached k rb n v cached ∙ unfold claim_record in refl,
        claim_record-Claimed k rb rs n v h cached,
        unfold claim_record in refl,
        unfold claim_record in refl,
        unfold claim_record in refl,
      )
      | no stale ↦
          let rb1 = record rb { head_cache_position = rb.head_position } in
          (
            (claim_record rb1 n).1,
            claim_fresh k rb n v (omega arith) room ∙ unfold claim_record in refl,
            claim_record-Claimed k rb1 rs n (set_head_cache-IsValid v) h room,
            unfold claim_record in refl,
            unfold claim_record in refl,
            unfold claim_record in refl,
          )
    ]

-- Filling in a claimed record disturbs neither its length nor the records that the ring holds.
pub write-Written :
    (k : ℕ) (rb : Rb) (rs : List (List ℕ)) (xs : List ℕ)
    → Claimed k rb rs (length xs)
    → Written k (write_data rb (tail_index rb) xs) rs xs
unfolding write_data
write-Written k rb rs xs w =
    let c = rb.capacity in
    let v = w.valid in
    let place : (tail_index rb + header_size) % c ≡ (rb.tail_position + header_size) % c =
      ap (λ a. (a + header_size) % c) (tail_index_lem v)
      ∙ mod-add-mod rb.tail_position c header_size in
    let same =
      store_bytes-cong c xs rb.buffer (tail_index rb + header_size) (rb.tail_position + header_size)
        place in
    rw same (record {
      claimed = record {
        valid = record {
          capacity_is = v.capacity_is;
          small = v.small;
          head_cached = v.head_cached;
          head_le_tail = v.head_le_tail;
          tail_cached = v.tail_cached;
          fits = v.fits;
          in_range = v.in_range;
        };
        contents =
            Records-store c rs xs rb.buffer rb.head_position (rb.tail_position + header_size)
              rb.tail_position (omega arith) (omega (arith, w.room, v.head_cached)) w.contents;
        room = w.room;
        header =
            BytesAt-store_other c (int32_bytes (length xs)) xs rb.buffer rb.tail_position
              (rb.tail_position + header_size) (omega arith)
              (omega (arith, w.room, v.head_cached, v.head_le_tail)) w.header;
      };
      bytes =
          BytesAt-store_self c xs rb.buffer (rb.tail_position + header_size)
            (omega (arith, w.room, v.head_cached, v.head_le_tail));
    })

-- Publishing a record that was claimed and filled in appends it to the records that the ring
-- holds. The positions stay in range.
pub publish-Contents :
    (k : ℕ) (rb : Rb) (rs : List (List ℕ)) (xs : List ℕ)
    → Written k rb rs xs
    → rb.tail_position + header_size + length xs < 2 ^ 62
    → (rb' : Rb) × (vmars_spsc_rb_publish rb (tail_index rb) ≡ (success, rb'))
      × IsValid k rb'
      × Contents rb' (rs ++ (xs ∷ []))
      × (rb'.tail_position ≡ rb.tail_position + header_size + length xs)
      × (rb'.head_position ≡ rb.head_position)
      × (rb'.capacity ≡ rb.capacity)
unfolding vmars_spsc_rb_publish
publish-Contents k rb rs xs w range =
    let c = rb.capacity in
    let v = w.claimed.valid in
    let place : tail_index rb % c ≡ rb.tail_position % c =
      ap (λ a. a % c) (tail_index_lem v) ∙ mod-mod rb.tail_position c in
    let size : record_length rb (tail_index rb) ≡ length xs =
      record_length-BytesAt (length xs) rb rb.tail_position (tail_index rb)
        (omega (arith, w.claimed.room, v.head_cached, v.head_le_tail, capacity_bounds v)) place
        w.claimed.header in
    let new_tail = rb.tail_position + header_size + length xs in
    let small : length xs < 2 ^ 31 =
      omega (arith, w.claimed.room, v.head_cached, v.head_le_tail, capacity_bounds v) in
    let moved : word (rb.tail_position + sign_extend (length xs) + header_size) ≡ new_tail =
      ground arith in
    (
      record rb { tail_position = new_tail },
      rw (==-refl (tail_index rb), size, moved),
      record {
        capacity_is = v.capacity_is;
        small = v.small;
        head_cached = v.head_cached;
        head_le_tail = omega (arith, v.head_le_tail);
        tail_cached = omega (arith, v.tail_cached);
        fits = w.claimed.room;
        in_range = range;
      },
      Records-snoc c rs xs rb.buffer rb.head_position rb.tail_position w.claimed.contents
          w.claimed.header w.bytes,
      refl,
      refl,
      refl,
    )
