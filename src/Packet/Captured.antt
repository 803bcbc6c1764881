-- ===== src/Packet/Captured.antt =====
-- Packets of whole messages in `walk_block` of src/packet.c.
use vmars.Prelude.{
  ℕ, ◌+◌, ◌*◌, ◌≤◌, ◌<◌, ◌≡◌, refl, ◌∙◌, ◌⊎◌, List, [], ◌∷◌, map, some, Pointer, advance, length,
  length-append, arith,
}
use vmars.KHash.{KHash}
use vmars.Counters.{increment}
use vmars.Parser.Defs.{int_max}
use vmars.Parser.Number.{Stands}
use vmars.Fix.Process.{Context}
use vmars.Fix.Fragments.{Ipv4Stream, Fragment}
use vmars.Fix.Loop.{process-matcher}
use vmars.Fix.Messages.{
  Message, encode_message, encode_messages, AreMessages, AreApart, details_of, counted, measured,
  measured_all,
}
use vmars.Fix.Next.{IsBegin}
use vmars.Fix.Whole.{length-message, extract-messages}
use vmars.Packet.Defs.{
  Headers, PacketHdr, eth_hlen, eth_p_ip, htons, data_len_of, display, display_all, walk_block,
}

-- A packet, and the messages that it carries: one at least.
pub record Payload : Type 0 where
  pub ppd : PacketHdr
  pub first : Message
  pub others : List Message

measured_all-matcher :
    {Map : Type 0} (ms : List Message) (s n : ℕ) (ctx : Context Map)
    → (measured_all s n ctx ms).matcher ≡ ctx.matcher
measured_all-matcher [] s n ctx = refl
measured_all-matcher (m ∷ ms) s n ctx =
    measured_all-matcher ms s n (measured s n ctx m)
    ∙ process-matcher (counted ctx) s n (details_of m)

module _ (headers : Headers) (port : ℕ) where
  open headers use {h_proto, iphdr, tcphdr}

  -- The payload's beginning, behind the headers of the frame.
  abbrev pub payload_at : Pointer → Pointer
  payload_at eth =
      let ip = iphdr (advance eth eth_hlen) in
      let tcp = tcphdr (advance eth (eth_hlen + ip.ihl * 4)) in
      advance eth (eth_hlen + ip.ihl * 4 + tcp.doff * 4)

  -- An IPv4 packet from or to the port, which consists of its messages.
  pub record IsCaptured (p : Payload) : Type 0 where
    pub protocol : h_proto p.ppd.frame ≡ htons eth_p_ip
    pub from_or_to :
        let eth = p.ppd.frame in
        let tcp = tcphdr (advance eth (eth_hlen + (iphdr (advance eth eth_hlen)).ihl * 4)) in
        (htons tcp.source ≡ port) ⊎ (htons tcp.dest ≡ port)
    pub whole :
        let eth = p.ppd.frame in
        let ip = iphdr (advance eth eth_hlen) in
        data_len_of ip (tcphdr (advance eth (eth_hlen + ip.ihl * 4)))
        ≡ length (encode_messages (p.first ∷ p.others))
    pub limit : length (encode_messages (p.first ∷ p.others)) ≤ int_max
    pub messages : AreMessages (p.first ∷ p.others)
    pub stands : Stands (encode_messages (p.first ∷ p.others)) (payload_at p.ppd.frame) 0
    pub apart :
        AreApart
          (payload_at p.ppd.frame)
          (length (encode_messages (p.first ∷ p.others)))
          0
          (p.first ∷ p.others)

  abbrev pub AreCaptured : List Payload → Type 0
  AreCaptured [] = Unit
  AreCaptured (p ∷ ps) = IsCaptured p × AreCaptured ps

  -- All messages measured, each with its packet's time.
  abbrev pub captured : {Map : Type 0} → Context Map → List Payload → Context Map
  captured ctx [] = ctx
  captured ctx (p ∷ ps) =
      captured (measured_all p.ppd.tp_sec p.ppd.tp_nsec ctx (p.first ∷ p.others)) ps

module _ (table : KHash Ipv4Stream Fragment) (headers : Headers) (port : ℕ) where
  open table use {Map}
  open headers use {h_proto, iphdr, tcphdr}

  display-captured :
      (ctx : Context Map) (p : Payload)
      → IsBegin ctx.matcher
      → IsCaptured headers port p
      → display table headers port ctx p.ppd
        ≡ some (measured_all p.ppd.tp_sec p.ppd.tp_nsec ctx (p.first ∷ p.others))
  unfolding display
  display-captured ctx p begin c =
      let eth = p.ppd.frame in
      let ip = iphdr (advance eth eth_hlen) in
      let tcp = tcphdr (advance eth (eth_hlen + ip.ihl * 4)) in
      let stream_id : Ipv4Stream = record {
        saddr = ip.saddr;
        daddr = ip.daddr;
        sport = tcp.source;
        dport = tcp.dest;
      } in
      let n = length (encode_messages (p.first ∷ p.others)) in
      let some_bytes : 0 < n = omega (
        arith,
        length-message p.first,
        length-append (encode_message p.first) (encode_messages p.others),
      ) in
      let extracted =
        extract-messages table stream_id p.ppd.tp_sec p.ppd.tp_nsec (payload_at headers port eth) n
          p.others p.first ctx begin c.messages c.stands c.apart refl c.limit in
      rw c.whole (ground (arith, c.protocol, c.from_or_to, some_bytes, extracted))

  display_all-captured :
      (ps : List Payload) (ctx : Context Map)
      → IsBegin ctx.matcher
      → AreCaptured headers port ps
      → display_all table headers port ctx (map (λ p. p.ppd) ps)
        ≡ some (captured headers port ctx ps)
  unfolding display_all
  display_all-captured [] ctx begin cs = refl
  display_all-captured (p ∷ ps) ctx begin cs =
      let same = measured_all-matcher (p.first ∷ p.others) p.ppd.tp_sec p.ppd.tp_nsec ctx in
      let rest =
        display_all-captured ps (measured_all p.ppd.tp_sec p.ppd.tp_nsec ctx (p.first ∷ p.others))
          (rw same begin) cs.1 in
      rw (display-captured ctx p begin cs.0) rest

  -- A block of packets that carry whole messages, from or to the port: each message of each packet
  -- is measured, in their order and with its packet's time, whatever streams they belong to, and
  -- the block is counted once. The thread has the matcher for the start of a message.
  pub walk_block-captured :
      (ctx : Context Map) (ps : List Payload)
      → IsBegin ctx.matcher
      → AreCaptured headers port ps
      → let after = captured headers port ctx ps in
        walk_block table headers port ctx (map (λ p. p.ppd) ps)
        ≡ some (record after {
          counters = record after.counters { bytes_total = increment after.counters.bytes_total };
        })
  unfolding walk_block
  walk_block-captured ctx ps begin cs = rw (display_all-captured ps ctx begin cs) refl
