-- ===== src/Packet/Total.antt =====
-- What a block of packets of src/packet.c adds to the counter that is reported as bytes.
use vmars.Prelude.{ℕ, ◌+◌, ◌*◌, ◌≡◌, ap, ◌∙◌, List, [], ◌∷◌, some, arith, advance}
use vmars.KHash.{KHash}
use vmars.Counters.{increment}
use vmars.Parser.Sound.{bind-eq-some}
use vmars.Fix.Process.{Context}
use vmars.Fix.Fragments.{Ipv4Stream, Fragment}
use vmars.Fix.Bytes.{bytes_total_of, Keeps, extract-bytes}
use vmars.Packet.Defs.{Headers, PacketHdr, eth_hlen, data_len_of, display, display_all, walk_block}

module _ (table : KHash Ipv4Stream Fragment) (headers : Headers) (port : ℕ) where
  open table use {Map}
  open headers use {iphdr, tcphdr}

  display-bytes :
      (ctx : Context Map) (ppd : PacketHdr) → Keeps ctx (display table headers port ctx ppd)
  unfolding display
  display-bytes ctx ppd ctx' e =
      let eth = ppd.frame in
      let ip = iphdr (advance eth eth_hlen) in
      let tcp = tcphdr (advance eth (eth_hlen + ip.ihl * 4)) in
      let stream_id : Ipv4Stream = record {
        saddr = ip.saddr;
        daddr = ip.daddr;
        sport = tcp.source;
        dport = tcp.dest;
      } in
      let data_ptr = advance eth (eth_hlen + ip.ihl * 4 + tcp.doff * 4) in
      ground (
        arith,
        extract-bytes table stream_id ppd.tp_sec ppd.tp_nsec data_ptr (data_len_of ip tcp) ctx ctx',
      )

  display_all-bytes :
      (ppds : List PacketHdr) (ctx : Context Map)
      → Keeps ctx (display_all table headers port ctx ppds)
  unfolding display_all
  display_all-bytes [] ctx ctx' e = ground arith
  display_all-bytes (ppd ∷ ppds) ctx ctx' e =
      let (c, first, rest) = bind-eq-some (display table headers port ctx ppd) _ e in
      display_all-bytes ppds c ctx' rest ∙ display-bytes ctx ppd c first

  -- However many packets a block holds, and whatever their lengths, walking it adds exactly one to
  -- the counter that is reported as the number of bytes, if no step is undefined.
  pub walk_block-bytes_total :
      (ctx ctx' : Context Map) (ppds : List PacketHdr)
      → walk_block table headers port ctx ppds ≡ some ctx'
      → bytes_total_of ctx' ≡ increment (bytes_total_of ctx)
  unfolding walk_block
  walk_block-bytes_total ctx ctx' ppds e =
      let (c, walked, counted) = bind-eq-some (display_all table headers port ctx ppds) _ e in
      let last : bytes_total_of ctx' ≡ increment (bytes_total_of c) = ground arith in
      last ∙ ap increment (display_all-bytes ppds ctx c walked)
