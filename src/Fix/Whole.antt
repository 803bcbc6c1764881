-- ===== src/Fix/Whole.antt =====
-- A packet of whole messages, through `vmars_extract_fix_messages` of src/fix.c.
use vmars.Prelude.{
  ℕ, ◌+◌, ◌-◌, ◌≤◌, ◌<◌, ◌≡◌, refl, List, ◌∷◌, Option, none, some, arith, Pointer, advance, length,
}
use vmars.KHash.{KHash}
use vmars.Parser.Defs.{ok, int_max}
use vmars.Parser.Number.{Stands}
use vmars.Parser.RoundTrip.{parse-encode, Stands-advance}
use vmars.Parser.Cut.{length-encode}
use vmars.Fix.Details.{no_details, details_callbacks}
use vmars.Fix.Process.{Context}
use vmars.Fix.Fragments.{Ipv4Stream, Fragment}
use vmars.Fix.Extract.{
  try_parse_fix_message, count_result, after_parse, handle_message, vmars_extract_fix_messages,
}
use vmars.Fix.Loop.{process-matcher}
use vmars.Fix.Messages.{
  begin_string, Message, encode_message, encode_messages, IsMessage, AreMessages, details_of,
  counted, measured, measured_all, AreApart, encode_message-begin,
}
use vmars.Fix.Items.{Items, extract-items}
use vmars.Fix.Next.{IsBegin}

pub length-message : (m : Message) → length begin_string < length (encode_message m)
length-message m = omega (arith, length-encode m.version (m.first ∷ m.others))

module _ {Map : Type 0} where
  pub try_parse-message :
      (ctx : Context Map) (m : Message) (p : Pointer) (len : ℕ)
      → IsMessage m
      → Stands (encode_message m) p 0
      → length (encode_message m) ≤ len
      → len ≤ int_max
      → try_parse_fix_message ctx p len
        ≡ some (
          record ctx { counters = count_result ctx.counters ok },
          details_of m,
          record { result = ok; bytes_consumed = length (encode_message m) },
        )
  unfolding try_parse_fix_message
  try_parse-message ctx m p len h s room limit =
      rw
        (parse-encode details_callbacks 0 p m.version m.first m.others len no_details h s room
          limit)
        refl

module _ (table : KHash Ipv4Stream Fragment) (stream_id : Ipv4Stream) (tv_sec tv_nsec : ℕ)
    (data_ptr : Pointer) (data_len : ℕ) where
  open table use {Map}

  pub handle_message-message :
      (ctx : Context Map) (m : Message) (curr left : ℕ) (next : Option ℕ)
      → IsMessage m
      → Stands (encode_message m) data_ptr curr
      → (let len : ℕ = elim next [ none ↦ left | some p ↦ p - curr ] in len)
        ≡ length (encode_message m)
      → length (encode_message m) ≤ int_max
      → handle_message table stream_id tv_sec tv_nsec data_ptr data_len ctx curr next left
        ≡ some (measured tv_sec tv_nsec ctx m, left - length (encode_message m))
  unfolding handle_message after_parse count_result
  handle_message-message ctx m curr left next h s whole limit =
      let at_curr : curr ≡ curr + 0 = omega arith in
      let parsed =
        try_parse-message ctx m (advance data_ptr curr) (length (encode_message m)) h
          (Stands-advance (encode_message m) data_ptr curr 0 (rw at_curr at s)) (omega arith)
          limit in
      rw (whole, parsed) refl

  abbrev message_items : Items table stream_id tv_sec tv_nsec data_ptr data_len Message
  message_items = record {
    bytes = encode_message;
    IsItem = IsMessage;
    after = measured tv_sec tv_nsec;
    long = length-message;
    begins = encode_message-begin;
    after-matcher = λ ctx m. process-matcher (counted ctx) tv_sec tv_nsec (details_of m);
    handle_message-after = λ ctx m curr left next. handle_message-message ctx m curr left next;
  }

  -- A packet that consists of whole messages, back to back, is taken apart into exactly these: each
  -- is counted as valid and measured, in their order, nothing is left over, and nothing else about
  -- the capture thread's state changes. Each message can be written, the pattern that starts a
  -- message stands nowhere else in the packet, and the packet's length is an `int`.
  pub extract-messages :
      (ms : List Message) (m : Message) (ctx : Context Map)
      → IsBegin ctx.matcher
      → AreMessages (m ∷ ms)
      → Stands (encode_messages (m ∷ ms)) data_ptr 0
      → AreApart data_ptr data_len 0 (m ∷ ms)
      → data_len ≡ length (encode_messages (m ∷ ms))
      → data_len ≤ int_max
      → vmars_extract_fix_messages table stream_id tv_sec tv_nsec data_ptr data_len ctx
        ≡ some (measured_all tv_sec tv_nsec ctx (m ∷ ms))
  extract-messages ms m ctx e h s apart all limit =
      extract-items table stream_id tv_sec tv_nsec data_ptr data_len message_items ms m ctx e h s
        apart all limit
