-- ===== src/Packet/CaptureTests.antt =====
-- A block of two packets with a message each, from the port 80.
use vmars.Prelude.{◌≡◌, refl, inl, [], ◌∷◌, some, Pointer, slice, arith}
use vmars.Prelude.Text.{fix_text}
use vmars.Counters.{increment}
use vmars.Parser.Encode.{print_fuel}
use vmars.Parser.Number.{Stands-slice}
use vmars.Fix.Found.{is_free-Occurs}
use vmars.Fix.Samples.{fragments, order, order-IsMessage, capture, capture-IsBegin}
use vmars.Packet.Defs.{data_len_of, walk_block}
use vmars.Packet.Samples.{headers, whole_message}
use vmars.Packet.Captured.{Payload, IsCaptured, payload_at, captured, walk_block-captured}

abbrev packet : Payload
packet = record { ppd = whole_message; first = order; others = [] }

abbrev payload : Pointer
payload = payload_at headers 80 whole_message.frame

packet-IsCaptured : IsCaptured headers 80 packet
unfolding print_fuel data_len_of slice
packet-IsCaptured = record {
  protocol = refl;
  from_or_to = inl refl;
  whole = refl;
  limit = omega arith;
  messages = (order-IsMessage, tt);
  stands = Stands-slice (fix_text "8=FIX.4.2|9=5|35=D|10=181|") payload 0 refl;
  apart = (λ o a b fits. is_free-Occurs payload 25 1 o refl (omega arith) (omega arith), tt);
}

walk_block-captured_example :
    let after = captured headers 80 capture (packet ∷ packet ∷ []) in
    walk_block fragments headers 80 capture (whole_message ∷ whole_message ∷ [])
    ≡ some (record after {
      counters = record after.counters { bytes_total = increment after.counters.bytes_total };
    })
walk_block-captured_example =
    walk_block-captured fragments headers 80 capture (packet ∷ packet ∷ []) capture-IsBegin
      (packet-IsCaptured, (packet-IsCaptured, tt))
