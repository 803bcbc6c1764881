-- ===== src/Packet/Samples.antt =====
-- Two packets and the layout of their headers, for the tests.
use vmars.Prelude.{ℕ, ◌+◌, ◌*◌, ◌/◌, ◌%◌, List, ◌∷◌, ◌++◌, Pointer, pointer_to, replicate}
use vmars.Prelude.Text.{codes, fix_text}
use vmars.Packet.Defs.{Headers, PacketHdr}

abbrev uint16 : Pointer → ℕ → ℕ
uint16 p i = p i + 256 * p (i + 1)

-- The layout of a little-endian machine; addresses are left out.
abbrev pub headers : Headers
headers = record {
  h_proto = λ p. uint16 p 12;
  iphdr = λ p. record { ihl = p 0 % 16; tot_len = uint16 p 2; saddr = 0; daddr = 0 };
  tcphdr = λ p. record { source = uint16 p 0; dest = uint16 p 2; doff = p 12 / 16 };
}

abbrev packet : List ℕ → PacketHdr
packet bytes = record { frame = pointer_to bytes; tp_sec = 1; tp_nsec = 2; tp_snaplen = 57 }

abbrev pub other : PacketHdr
other = packet (replicate 57 0)

-- Port 80, three bytes of payload.
abbrev pub start_of_message : PacketHdr
start_of_message = packet (
    replicate 12 0
    ++ (8
        ∷ 0
        ∷ 69
        ∷ 0
        ∷ 0
        ∷ 43
        ∷ (replicate 16 0 ++ (0 ∷ 80 ∷ (replicate 10 0 ++ (80 ∷ (replicate 7 0 ++ codes "8=F")))))))

-- Port 80, and a message of 26 bytes.
abbrev pub whole_message : PacketHdr
whole_message = packet (
    replicate 12 0
    ++ (8
        ∷ 0
        ∷ 69
        ∷ 0
        ∷ 0
        ∷ 66
        ∷ (replicate 16 0
            ++ (0
                ∷ 80
                ∷ (replicate 10 0
                    ++ (80 ∷ (replicate 7 0 ++ fix_text "8=FIX.4.2|9=5|35=D|10=181|")))))))
