-- ===== src/Fix/PacketTests.antt =====
-- Whole and split messages, run.
use vmars.Prelude.Nul.{has_no_nul-HasNoNul}
use vmars.Prelude.{ℕ, ◌≡◌, refl, some, List, [], ◌∷◌, Pointer, pointer_to, take, drop, arith}
use vmars.Prelude.Text.{fix_text}
use vmars.Parser.Encode.{print_fuel}
use vmars.Parser.Number.{Stands-pointer_to}
use vmars.Fix.Process.{Context}
use vmars.Fix.Fragments.{Ipv4Stream, Fragment, get_fragment}
use vmars.Fix.Extract.{vmars_extract_fix_messages}
use vmars.Fix.Messages.{encode_message, measured, after_all}
use vmars.Fix.Samples.{
  order, order-IsMessage, capture, get_fragment-capture, capture-IsBegin, fragments,
}
use vmars.Fix.Found.{is_free-Occurs}
use vmars.Fix.Damaged.{Sent, received, counted_invalid, extract-sent}
use vmars.Fix.Parts.{Part, extract, extract_all, message_in_parts}

abbrev stream : Ipv4Stream
stream = record { saddr = 1; daddr = 2; sport = 3; dport = 4 }

abbrev two : List ℕ
two = fix_text "8=FIX.4.2|9=5|35=D|10=180|8=FIX.4.2|9=5|35=D|10=181|"

abbrev two_bytes : Pointer
two_bytes = pointer_to two

-- The first one's checksum is not that of its bytes.
abbrev sent : ℕ → Sent
sent checksum = record { message = order; checksum = checksum }

extract-sent_example :
    vmars_extract_fix_messages fragments stream 7 8 two_bytes 52 capture
    ≡ some (after_all (received 7 8) capture (sent 180 ∷ sent 181 ∷ []))
unfolding print_fuel
extract-sent_example =
    extract-sent fragments stream 7 8 two_bytes 52 (sent 181 ∷ []) (sent 180) capture
      capture-IsBegin ((order-IsMessage, omega arith), ((order-IsMessage, omega arith), tt))
      (Stands-pointer_to two)
      (
        (λ o a b fits. is_free-Occurs two_bytes 25 1 o refl (omega arith) (omega arith)),
        ((λ o a b fits. is_free-Occurs two_bytes 25 27 o refl (omega arith) (omega arith)), tt),
      )
      refl (omega arith)

skips :
    after_all (received 7 8) capture (sent 180 ∷ sent 181 ∷ [])
    ≡ measured 7 8 (counted_invalid capture) order
unfolding print_fuel
skips = refl

abbrev part : ℕ → ℕ → ℕ → Part
part tv_sec from size = record {
  payload = pointer_to (take size (drop from (encode_message order)));
  size = size;
  tv_sec = tv_sec;
  tv_nsec = 8;
}

message_in_parts_example :
    (ctx1 ctx2 : Context (List (Ipv4Stream × Fragment))) × (extract_all fragments stream
        (part 7 0 15 ∷ part 8 15 6 ∷ [])
        capture
      ≡ some ctx1)
    × (extract fragments stream (part 9 21 5) ctx1 ≡ some ctx2)
    × (ctx1.counters ≡ capture.counters)
    × (ctx1.rb ≡ capture.rb)
    × (ctx2.counters ≡ (measured 9 8 capture order).counters)
    × (ctx2.rb ≡ (measured 9 8 capture order).rb)
    × ((id : Ipv4Stream) → get_fragment fragments ctx2 id ≡ get_fragment fragments capture id)
unfolding print_fuel
message_in_parts_example =
    message_in_parts fragments stream capture order (part 7 0 15) (part 8 15 6 ∷ []) (part 9 21 5)
      capture-IsBegin order-IsMessage (has_no_nul-HasNoNul (encode_message order) refl)
      (omega arith) (omega arith) (omega arith) refl
      (Stands-pointer_to (take 15 (encode_message order)))
      (λ o a fits. is_free-Occurs (part 7 0 15).payload 7 1 o refl (omega arith) (omega arith))
      (
        Stands-pointer_to (take 6 (drop 15 (encode_message order))),
        (λ o fits. absurd (omega arith)),
        tt,
      )
      (Stands-pointer_to (take 5 (drop 21 (encode_message order)))) (λ o fits. absurd (omega arith))
      (get_fragment-capture stream)
