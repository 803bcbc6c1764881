-- ===== src/Ring/Consume.antt =====
-- The consumer's steps: poll for the oldest record, release it.
use native.Mathlib.Nat.{mod-mod, mod-add-mod}
use vmars.Prelude.{
  ℕ, ◌+◌, ◌%◌, ◌^◌, ◌≤◌, ◌<◌, ◌≡◌, ap, ◌∙◌, List, [], ◌∷◌, none, some, arith, length, ==-refl,
  if◌then◌else◌,
}
use vmars.Ring.Defs.{
  Rb, success, word, sign_extend, not_after, header_size, record_length, record_data, head_index,
  vmars_spsc_rb_poll, vmars_spsc_rb_release,
}
use vmars.Ring.Bytes.{load_bytes-BytesAt, record_length-BytesAt}
use vmars.Ring.Valid.{IsValid, capacity_bounds, head_index_lem}
use vmars.Ring.Records.{Contents, Records-span}

poll_empty :
    (k : ℕ) (rb : Rb)
    → IsValid k rb
    → rb.head_position ≡ rb.tail_position
    → vmars_spsc_rb_poll rb ≡ (none, rb)
unfolding vmars_spsc_rb_poll
poll_empty k rb v e = ground arith

-- The ring that a poll with something to read leaves.
abbrev pub polled : Rb → Rb
polled rb = record rb {
  tail_cache_position =
      if not_after rb.tail_cache_position rb.head_position
      then rb.tail_position
      else rb.tail_cache_position;
}

poll_some :
    (k : ℕ) (rb : Rb)
    → IsValid k rb
    → rb.head_position < rb.tail_position
    → vmars_spsc_rb_poll rb ≡ (some (head_index rb), polled rb)
unfolding vmars_spsc_rb_poll
poll_some k rb v lt = ground arith

polled-IsValid : {k : ℕ} (rb : Rb) → IsValid k rb → IsValid k (polled rb)
polled-IsValid rb v = record {
  capacity_is = v.capacity_is;
  small = v.small;
  head_cached = v.head_cached;
  head_le_tail = v.head_le_tail;
  tail_cached = ground (arith, v.tail_cached);
  fits = v.fits;
  in_range = v.in_range;
}

module _ {k : ℕ} {rb : Rb} (r : List ℕ) (rs : List (List ℕ)) (v : IsValid k rb)
    (h : Contents rb (r ∷ rs)) where
  place : head_index rb % rb.capacity ≡ rb.head_position % rb.capacity
  place = ap (λ a. a % rb.capacity) (head_index_lem v) ∙ mod-mod rb.head_position rb.capacity

  size : rb.head_position + header_size + length r ≤ rb.tail_position
  size =
      omega (arith, Records-span rb.capacity (r ∷ rs) rb.buffer rb.head_position rb.tail_position h)

  small : length r < 2 ^ 31
  small = omega (arith, size, v.head_cached, v.fits, capacity_bounds v)

  pub record_length-oldest : record_length rb (head_index rb) ≡ length r
  record_length-oldest =
      record_length-BytesAt (length r) rb rb.head_position (head_index rb) (omega (arith, small))
        place h.0

  -- What the consumer reads through the pointer that it was handed.
  pub record_data-oldest : record_data rb (head_index rb) ≡ r
  unfolding record_data
  record_data-oldest =
      let behind : (head_index rb + header_size) % rb.capacity
          ≡ (rb.head_position + header_size) % rb.capacity =
        ap (λ a. (a + header_size) % rb.capacity) (head_index_lem v)
        ∙ mod-add-mod rb.head_position rb.capacity header_size in
      rw record_length-oldest (
        load_bytes-BytesAt r rb (rb.head_position + header_size) (head_index rb + header_size)
          behind h.1)

-- On a ring that holds no record, poll returns NULL and changes nothing; on any other it returns
-- the oldest record, with its bytes as they were published, and the ring still holds them all.
pub poll_lem :
    (k : ℕ) (rb : Rb) (rs : List (List ℕ))
    → IsValid k rb
    → Contents rb rs
    → (rs ≡ [] → vmars_spsc_rb_poll rb ≡ (none, rb))
      × ((r : List ℕ) (later : List (List ℕ))
          → rs ≡ r ∷ later
          → (vmars_spsc_rb_poll rb ≡ (some (head_index rb), polled rb))
            × (record_data (polled rb) (head_index (polled rb)) ≡ r)
            × IsValid k (polled rb)
            × Contents (polled rb) rs)
poll_lem k rb rs v h = (
  λ e. poll_empty k rb v (rw e at h),
  λ r later e.
      let h' : Contents rb (r ∷ later) = rw e at h in
      (
        poll_some k rb v (omega (arith, size r later v h')),
        record_data-oldest r later (polled-IsValid rb v) h',
        polled-IsValid rb v,
        h,
      ),
)

abbrev pub released : Rb → List ℕ → Rb
released rb r = record rb { head_position = rb.head_position + header_size + length r }

-- Releasing the oldest record drops it and no other.
pub release-Contents :
    (k : ℕ) (rb : Rb) (r : List ℕ) (rs : List (List ℕ))
    → IsValid k rb
    → Contents rb (r ∷ rs)
    → (vmars_spsc_rb_release rb (head_index rb) ≡ (success, released rb r))
      × IsValid k (released rb r)
      × Contents (released rb r) rs
unfolding vmars_spsc_rb_release
release-Contents k rb r rs v h =
    let moved : word (rb.head_position + header_size + sign_extend (length r))
        ≡ rb.head_position + header_size + length r =
      ground (arith, small r rs v h, size r rs v h, v.in_range) in
    (
      rw (==-refl (head_index rb), record_length-oldest r rs v h, moved),
      record {
        capacity_is = v.capacity_is;
        small = v.small;
        head_cached = omega (arith, v.head_cached);
        head_le_tail = size r rs v h;
        tail_cached = v.tail_cached;
        fits = v.fits;
        in_range = v.in_range;
      },
      h.2,
    )
