-- ===== src/Pipeline/Samples.antt =====
-- An order and the report on it, each in a packet from the port 80, for the tests.
use vmars.Prelude.{
  ℕ, ◌≤◌, ◌≡◌, refl, inl, Bool, true, not, ◌&&◌, List, [], ◌∷◌, ◌++◌, slice, pointer_to, replicate,
  arith, leb, ◌==◌,
}
use vmars.Prelude.Text.{codes, fix_text}
use vmars.Parser.Defs.{soh, int_max}
use vmars.Parser.Encode.{Field, fix42, print_fuel, HasNoSoh, AreFields}
use vmars.Parser.Number.{Stands-slice}
use vmars.Ring.Valid.{IsValid}
use vmars.Ring.Records.{span}
use vmars.Summary.{little_endian}
use vmars.Pipeline.Published.{Holds}
use vmars.Ring.Fifo.{start-Inv}
use vmars.Fix.Process.{select_ids, key_of, strncpy}
use vmars.Fix.Details.{handle_tag}
use vmars.Latency.Defs.{is_begin, is_complement}
use vmars.Fix.Found.{is_free-Occurs}
use vmars.Fix.Messages.{Message, encode_message, details_of}
use vmars.Fix.Samples.{capture, capture-IsBegin, capture-rb}
use vmars.Packet.Defs.{PacketHdr, data_len_of}
use vmars.Packet.Samples.{headers}
use vmars.Packet.Captured.{payload_at}
use vmars.Pipeline.Threads.{IsLoaded}
use vmars.Pipeline.Pair.{IsAnswer, load}

has_no_soh : List ℕ → Bool
has_no_soh [] = true
has_no_soh (x ∷ xs) = not (x == soh) && has_no_soh xs

has_no_soh-HasNoSoh : (xs : List ℕ) → has_no_soh xs ≡ true → HasNoSoh xs
unfolding has_no_soh
has_no_soh-HasNoSoh [] e = tt
has_no_soh-HasNoSoh (x ∷ xs) e =
    ((λ same. absurd (ground (arith, same))), has_no_soh-HasNoSoh xs (ground arith))

are_fields : List Field → Bool
are_fields [] = true
are_fields (f ∷ fs) = leb f.tag int_max && has_no_soh f.value && are_fields fs

are_fields-AreFields : (fs : List Field) → are_fields fs ≡ true → AreFields fs
unfolding are_fields
are_fields-AreFields [] e = tt
are_fields-AreFields (f ∷ fs) e = (
  (ground arith, has_no_soh-HasNoSoh f.value (ground arith)),
  are_fields-AreFields fs (ground arith),
)

abbrev field : ℕ → List ℕ → Field
field tag value = record { tag = tag; value = value }

abbrev pub order : Message
order = record {
  version = fix42;
  first = field 35 (codes "D");
  others =
      field 49 (codes "A")
      ∷ field 56 (codes "B")
      ∷ field 11 (codes "1")
      ∷ field 55 (codes "X")
      ∷ [];
}

abbrev pub report : Message
report = record {
  version = fix42;
  first = field 35 (codes "8");
  others =
      field 49 (codes "B")
      ∷ field 56 (codes "A")
      ∷ field 11 (codes "1")
      ∷ field 55 (codes "X")
      ∷ field 150 (codes "0")
      ∷ [];
}

abbrev packet : ℕ → ℕ → List ℕ → PacketHdr
packet tp_sec tot_len bytes = record {
  frame = pointer_to (
      replicate 12 0
      ++ (8
          ∷ 0
          ∷ 69
          ∷ 0
          ∷ 0
          ∷ tot_len
          ∷ (replicate 16 0 ++ (0 ∷ 80 ∷ (replicate 10 0 ++ (80 ∷ (replicate 7 0 ++ bytes)))))));
  tp_sec = tp_sec;
  tp_nsec = 2;
  tp_snaplen = 57;
}

abbrev pub order_packet : PacketHdr
order_packet = packet 1 87 (fix_text "8=FIX.4.2|9=25|35=D|49=A|56=B|11=1|55=X|10=143|")

abbrev pub report_packet : PacketHdr
report_packet = packet 3 93 (fix_text "8=FIX.4.2|9=31|35=8|49=B|56=A|11=1|55=X|150=0|10=132|")

pub capture-IsValid : IsValid 7 capture.rb
capture-IsValid = rw capture-rb (start-Inv 7 (λ i. 0) (omega arith)).valid

capture-Holds : (new : List (List ℕ)) → span new ≤ 128 → Holds 7 capture.rb [] new
capture-Holds new fits = record {
  valid = capture-IsValid;
  contents = rw capture-rb refl;
  room = rw capture-rb (omega arith);
  range = rw capture-rb (omega arith);
}

pub order-IsLoaded : IsLoaded headers 80 (load 7 capture order_packet order)
unfolding print_fuel data_len_of slice are_fields has_no_soh select_ids handle_tag key_of strncpy
    little_endian
order-IsLoaded = record {
  begin = capture-IsBegin;
  packets = (
    record {
      protocol = refl;
      from_or_to = inl refl;
      whole = refl;
      limit = omega arith;
      messages = (are_fields-AreFields (order.first ∷ order.others) refl, tt);
      stands =
          Stands-slice (encode_message order) (payload_at headers 80 order_packet.frame) 0 refl;
      apart = (
        λ o a b fits.
            is_free-Occurs (payload_at headers 80 order_packet.frame) 46 1 o refl (omega arith)
              (omega arith),
        tt,
      );
    },
    tt,
  );
  timed = (omega arith, omega arith, tt);
  holds = capture-Holds _ (omega arith);
}

pub report-IsLoaded : IsLoaded headers 80 (load 7 capture report_packet report)
unfolding print_fuel data_len_of slice are_fields has_no_soh select_ids handle_tag key_of strncpy
    little_endian
report-IsLoaded = record {
  begin = capture-IsBegin;
  packets = (
    record {
      protocol = refl;
      from_or_to = inl refl;
      whole = refl;
      limit = omega arith;
      messages = (are_fields-AreFields (report.first ∷ report.others) refl, tt);
      stands =
          Stands-slice (encode_message report) (payload_at headers 80 report_packet.frame) 0 refl;
      apart = (
        λ o a b fits.
            is_free-Occurs (payload_at headers 80 report_packet.frame) 52 1 o refl (omega arith)
              (omega arith),
        tt,
      );
    },
    tt,
  );
  timed = (omega arith, omega arith, tt);
  holds = capture-Holds _ (omega arith);
}

pub report-IsAnswer : IsAnswer (details_of order) (details_of report)
unfolding print_fuel select_ids handle_tag is_begin is_complement
report-IsAnswer = record {
  request = (_, refl);
  response = (_, refl);
  begins = refl;
  pair = refl;
  remote = refl;
  local = refl;
  order = refl;
  instrument = refl;
}
