-- ===== src/Latency/Decode.antt =====
-- A summary, written into the ring by src/fix.c and read by src/latency_handler.c.
use native.Mathlib.Nat.{pow-succ'}
use vmars.Prelude.{
  length, take, ℕ, zero, suc, ◌/◌, ◌^◌, ◌<◌, ◌≡◌, refl, ap, ◌∙◌, List, [], ◌∷◌, ◌++◌, map, arith,
  none, some, if◌then◌else◌,
}
use vmars.Prelude.Int.{ℤ}
use vmars.KHash.{KHash}
use vmars.Summary.{Summary, little_endian, from_little_endian, encode_summary}
use vmars.Latency.Defs.{
  LatencyRecord, c_string, is_begin, is_complement, diff, latency_nsec, calculate_latency,
  calculate_latencies,
}
use vmars.Latency.Poll.{decode_summary}

from-little_endian : (n x : ℕ) → x < 256 ^ n → from_little_endian (little_endian n x) ≡ x
unfolding from_little_endian little_endian
from-little_endian zero x h = omega arith
from-little_endian (suc n) x h =
    omega (arith, from-little_endian n (x / 256) (omega (arith, pow-succ' 256 n)))

take-length-append : (xs ys : List ℕ) → take (length xs) (xs ++ ys) ≡ xs
take-length-append [] ys = refl
take-length-append (x ∷ xs) ys = ap (λ l. x ∷ l) (take-length-append xs ys)

-- Times of 64 bits, a message type of 32, and a key whose length is an `int32_t`.
pub record Fits (s : Summary) : Type 0 where
  pub tv_sec : s.tv_sec < 2 ^ 64
  pub tv_nsec : s.tv_nsec < 2 ^ 64
  pub msg_type : s.msg_type < 2 ^ 32
  pub key_len : length s.key < 2 ^ 31

-- A summary whose numbers fit their fields is read as it was written: its times, its message type,
-- and its key as a C string.
pub decode-encode :
    (s : Summary)
    → Fits s
    → let t = decode_summary (encode_summary s) in
      (t.tv_sec ≡ s.tv_sec)
      × (t.tv_nsec ≡ s.tv_nsec)
      × (t.msg_type ≡ s.msg_type)
      × (c_string t.key ≡ c_string s.key)
unfolding little_endian
decode-encode s f =
    let size = from-little_endian 4 (length s.key) (omega (arith, f.key_len)) in
    (
      from-little_endian 8 s.tv_sec f.tv_sec,
      from-little_endian 8 s.tv_nsec f.tv_nsec,
      from-little_endian 4 s.msg_type f.msg_type,
      rw size (ap c_string (take-length-append s.key (0 ∷ []))),
    )

abbrev pub AllFit : List Summary → Type 0
AllFit [] = Unit
AllFit (s ∷ ss) = Fits s × AllFit ss

module _ (table : KHash (List ℕ) LatencyRecord) {H : Type 0} (hdr_record_value : H → ℤ → H) where
  open table use {Map, kh_get, kh_put, kh_del}

  calculate_latency-cong :
      (m : Map) (h : H) (s t : Summary)
      → t.tv_sec ≡ s.tv_sec
      → t.tv_nsec ≡ s.tv_nsec
      → t.msg_type ≡ s.msg_type
      → c_string t.key ≡ c_string s.key
      → calculate_latency table hdr_record_value m h t
        ≡ calculate_latency table hdr_record_value m h s
  unfolding calculate_latency latency_nsec
  calculate_latency-cong m h s t a b c d = λ i. elim (kh_get m (d i)) [
    | some r ↦
        if is_complement (c i) r.msg_type
        then (
          kh_del m (d i),
          hdr_record_value h (
              if is_begin (c i)
              then diff (a i) (b i) r.tv_sec r.tv_nsec
              else diff r.tv_sec r.tv_nsec (a i) (b i)),
        )
        else (m, h)
    | none ↦ (kh_put m (d i) (record { msg_type = c i; tv_sec = a i; tv_nsec = b i }), h)
  ]

  -- Summaries that went through the ring give the table and the histogram that they would give as
  -- they were made, if their times, their types and the lengths of their keys fit the fields in
  -- which they are written.
  pub calculate_latencies-decode :
      (ss : List Summary) (m : Map) (h : H)
      → AllFit ss
      → calculate_latencies table hdr_record_value m h (map decode_summary (map encode_summary ss))
        ≡ calculate_latencies table hdr_record_value m h ss
  unfolding calculate_latencies
  calculate_latencies-decode [] m h f = refl
  calculate_latencies-decode (s ∷ ss) m h f =
      let (a, b, c, d) = decode-encode s f.0 in
      let same = calculate_latency-cong m h s (decode_summary (encode_summary s)) a b c d in
      let rest = map decode_summary (map encode_summary ss) in
      let after = calculate_latency table hdr_record_value m h s in
      ap (λ r. calculate_latencies table hdr_record_value r.0 r.1 rest) same
      ∙ calculate_latencies-decode ss after.0 after.1 f.1
