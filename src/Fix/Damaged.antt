-- ===== src/Fix/Damaged.antt =====
-- A packet of messages some of which were damaged, through `vmars_extract_fix_messages` of
-- src/fix.c.
use vmars.Prelude.{
  ℕ, ◌+◌, ◌-◌, ◌≤◌, ◌<◌, ◌≡◌, ◌≢◌, refl, ap, ◌∙◌, List, ◌∷◌, ◌++◌, Option, none, some, true, false,
  arith, Pointer, advance, length, length-append, ◌==◌, if◌then◌else◌, Bool-cases, inl, inr,
}
use vmars.KHash.{KHash}
use vmars.Counters.{increment}
use vmars.Search.Correct.{Occurs}
use vmars.Parser.Defs.{checksum_invalid, int_max, soh}
use vmars.Parser.Encode.{
  header_of, front, checksum_of, print_number, encode_fields, encode_field, trailer,
}
use vmars.Parser.Number.{Stands, Stands-append}
use vmars.Parser.RoundTrip.{Stands-advance, length-trailer}
use vmars.Parser.Damaged.{encode_with, trailer_with, length-trailer_with, parse-damaged}
use vmars.Fix.Details.{no_details, details_callbacks}
use vmars.Fix.Process.{Context}
use vmars.Fix.Fragments.{Ipv4Stream, Fragment}
use vmars.Fix.Extract.{
  try_parse_fix_message, count_result, after_parse, handle_message, vmars_extract_fix_messages,
}
use vmars.Fix.Loop.{process-matcher}
use vmars.Fix.Messages.{
  begin_string, Message, IsMessage, encode_message, details_of, counted, measured, bytes_of,
  AreSeparate, Every, after_all, header-begin, Occurs-Stands,
}
use vmars.Fix.Items.{Items, extract-items}
use vmars.Fix.Next.{IsBegin}
use vmars.Fix.Whole.{length-message, handle_message-message}

-- A message, and the checksum that it arrives with.
pub record Sent : Type 0 where
  pub message : Message
  pub checksum : ℕ

-- The checksum of what the message was written as.
abbrev pub true_checksum : Sent → ℕ
true_checksum x = checksum_of x.message.version (x.message.first ∷ x.message.others)

abbrev pub encode_sent : Sent → List ℕ
encode_sent x = encode_with x.message.version (x.message.first ∷ x.message.others) x.checksum

abbrev pub IsSent : Sent → Type 0
IsSent x = IsMessage x.message × (x.checksum < 1000)

abbrev pub counted_invalid : {Map : Type 0} → Context Map → Context Map
counted_invalid ctx = record ctx {
  counters = record ctx.counters { invalid_checksums = increment ctx.counters.invalid_checksums };
}

-- An intact message is measured, a damaged one is counted and skipped.
abbrev pub received : {Map : Type 0} → ℕ → ℕ → Context Map → Sent → Context Map
received tv_sec tv_nsec ctx x =
    if x.checksum == true_checksum x
    then measured tv_sec tv_nsec ctx x.message
    else counted_invalid ctx

length-encode_sent : (x : Sent) → length (encode_sent x) ≡ length (encode_message x.message)
length-encode_sent x =
    let fs = x.message.first ∷ x.message.others in
    let v = x.message.version in
    omega (
      arith,
      length-append (front v fs) (trailer_with x.checksum),
      length-append (front v fs) (encode_field (trailer v fs)),
      length-trailer v fs,
      length-trailer_with x.checksum,
    )

encode_sent-begin :
    (x : Sent) (p : Pointer) (i : ℕ) → Stands (encode_sent x) p i → Occurs begin_string p i
encode_sent-begin x p i s =
    let v = x.message.version in
    let fs = x.message.first ∷ x.message.others in
    let (rest, e) = header-begin v in
    let whole = Stands-append (front v fs) (trailer_with x.checksum) p i s in
    let header =
      Stands-append (header_of v)
        (print_number (length (encode_fields fs)) ++ (soh ∷ encode_fields fs)) p i whole.0 in
    Occurs-Stands begin_string p i (Stands-append begin_string rest p i (rw e at header.0)).0

encode_sent-intact :
    (x : Sent) → x.checksum ≡ true_checksum x → encode_sent x ≡ encode_message x.message
encode_sent-intact x e =
    ap (λ c. encode_with x.message.version (x.message.first ∷ x.message.others) c) e

module _ {Map : Type 0} where
  try_parse-damaged :
      (ctx : Context Map) (x : Sent) (p : Pointer) (len : ℕ)
      → x.checksum < 1000
      → x.checksum ≢ true_checksum x
      → Stands (encode_sent x) p 0
      → length (encode_sent x) ≤ len
      → len ≤ int_max
      → try_parse_fix_message ctx p len
        ≡ some (
          counted_invalid ctx,
          no_details,
          record { result = checksum_invalid; bytes_consumed = length (encode_sent x) },
        )
  unfolding try_parse_fix_message count_result
  try_parse-damaged ctx x p len digits differs s room limit =
      rw
        (parse-damaged details_callbacks 0 p x.message.version x.message.first x.message.others
          x.checksum len no_details refl digits differs s room limit)
        refl

  received-intact :
      (s n : ℕ) (ctx : Context Map) (x : Sent)
      → (x.checksum == true_checksum x) ≡ true
      → received s n ctx x ≡ measured s n ctx x.message
  received-intact s n ctx x same = rw same refl

  received-damaged :
      (s n : ℕ) (ctx : Context Map) (x : Sent)
      → (x.checksum == true_checksum x) ≡ false
      → received s n ctx x ≡ counted_invalid ctx
  received-damaged s n ctx x differs = rw differs refl

  received-matcher :
      (s n : ℕ) (ctx : Context Map) (x : Sent) → (received s n ctx x).matcher ≡ ctx.matcher
  received-matcher s n ctx x = elim (Bool-cases (x.checksum == true_checksum x)) [
    | inl same ↦
        ap (λ c. c.matcher) (received-intact s n ctx x same)
        ∙ process-matcher (counted ctx) s n (details_of x.message)
    | inr differs ↦ ap (λ c. c.matcher) (received-damaged s n ctx x differs)
  ]

module _ (table : KHash Ipv4Stream Fragment) (stream_id : Ipv4Stream) (tv_sec tv_nsec : ℕ)
    (data_ptr : Pointer) (data_len : ℕ) where
  open table use {Map}

  handle_message-damaged :
      (ctx : Context Map) (x : Sent) (curr left : ℕ) (next : Option ℕ)
      → x.checksum < 1000
      → x.checksum ≢ true_checksum x
      → Stands (encode_sent x) data_ptr curr
      → (let len : ℕ = elim next [ none ↦ left | some p ↦ p - curr ] in len)
        ≡ length (encode_sent x)
      → length (encode_sent x) ≤ int_max
      → handle_message table stream_id tv_sec tv_nsec data_ptr data_len ctx curr next left
        ≡ some (counted_invalid ctx, left - length (encode_sent x))
  unfolding handle_message after_parse
  handle_message-damaged ctx x curr left next digits differs s whole limit =
      let at_curr : curr ≡ curr + 0 = omega arith in
      let parsed =
        try_parse-damaged ctx x (advance data_ptr curr) (length (encode_sent x)) digits differs
          (Stands-advance (encode_sent x) data_ptr curr 0 (rw at_curr at s)) (omega arith) limit in
      rw (whole, parsed) refl

  handle_message-sent :
      (ctx : Context Map) (x : Sent) (curr left : ℕ) (next : Option ℕ)
      → IsSent x
      → Stands (encode_sent x) data_ptr curr
      → (let len : ℕ = elim next [ none ↦ left | some p ↦ p - curr ] in len)
        ≡ length (encode_sent x)
      → length (encode_sent x) ≤ int_max
      → handle_message table stream_id tv_sec tv_nsec data_ptr data_len ctx curr next left
        ≡ some (received tv_sec tv_nsec ctx x, left - length (encode_sent x))
  handle_message-sent ctx x curr left next h s whole limit =
      elim (Bool-cases (x.checksum == true_checksum x)) [
        | inl same ↦
            let e = encode_sent-intact x (ground arith) in
            let turn =
              handle_message-message table stream_id tv_sec tv_nsec data_ptr data_len ctx x.message
                curr left next h.0 (rw e at s) (rw e at whole) (rw e at limit) in
            rw (received-intact tv_sec tv_nsec ctx x same, e) turn
        | inr differs ↦
            let turn =
              handle_message-damaged ctx x curr left next h.1 (λ e. absurd (ground (arith, e))) s
                whole limit in
            rw (received-damaged tv_sec tv_nsec ctx x differs) turn
      ]

  abbrev sent_items : Items table stream_id tv_sec tv_nsec data_ptr data_len Sent
  sent_items = record {
    bytes = encode_sent;
    IsItem = IsSent;
    after = received tv_sec tv_nsec;
    long = λ x. omega (arith, length-message x.message, length-encode_sent x);
    begins = encode_sent-begin;
    after-matcher = received-matcher tv_sec tv_nsec;
    handle_message-after = λ ctx x curr left next. handle_message-sent ctx x curr left next;
  }

  -- A packet of messages, back to back, some of them with a checksum of three digits that is not
  -- theirs: in their order each intact one is counted as valid and measured, and each damaged one is
  -- counted as such and skipped, whatever stands before or behind it; nothing is left over, and
  -- nothing else about the capture thread's state changes. But for its checksum each message can be
  -- written, the pattern that starts a message stands nowhere else in the packet, and the packet's
  -- length is an `int`.
  pub extract-sent :
      (xs : List Sent) (x : Sent) (ctx : Context Map)
      → IsBegin ctx.matcher
      → Every IsSent (x ∷ xs)
      → Stands (bytes_of encode_sent (x ∷ xs)) data_ptr 0
      → AreSeparate encode_sent data_ptr data_len 0 (x ∷ xs)
      → data_len ≡ length (bytes_of encode_sent (x ∷ xs))
      → data_len ≤ int_max
      → vmars_extract_fix_messages table stream_id tv_sec tv_nsec data_ptr data_len ctx
        ≡ some (after_all (received tv_sec tv_nsec) ctx (x ∷ xs))
  extract-sent xs x ctx e h s apart all limit =
      extract-items table stream_id tv_sec tv_nsec data_ptr data_len sent_items xs x ctx e h s apart
        all limit
