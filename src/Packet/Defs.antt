-- ===== src/Packet/Defs.antt =====
-- `display` and `walk_block` of src/packet.c. The layouts of the kernel's headers are parameters.
use vmars.Prelude.{
  ℕ, ◌+◌, ◌*◌, ◌/◌, ◌%◌, not, ◌&&◌, List, [], ◌∷◌, Option, some, Pointer, advance, ◌==◌,
  if◌then◌else◌,
}
use vmars.KHash.{KHash}
use vmars.Counters.{increment}
use vmars.Parser.Defs.{◌>>=◌}
use vmars.Ring.Defs.{sub_word}
use vmars.Fix.Process.{Context}
use vmars.Fix.Fragments.{Ipv4Stream, Fragment}
use vmars.Fix.Extract.{vmars_extract_fix_messages}

-- What is read of `struct iphdr`, and of `struct tcphdr`.
pub record IpHeader : Type 0 where
  pub ihl : ℕ
  pub tot_len : ℕ
  pub saddr : ℕ
  pub daddr : ℕ

pub record TcpHeader : Type 0 where
  pub source : ℕ
  pub dest : ℕ
  pub doff : ℕ

-- The structs that <linux/if_ether.h>, <linux/ip.h> and <linux/tcp.h> lay over the bytes at a pointer.
pub record Headers : Type 0 where
  pub h_proto : Pointer → ℕ
  pub iphdr : Pointer → IpHeader
  pub tcphdr : Pointer → TcpHeader

-- `struct tpacket3_hdr`: the frame is the pointer `ppd + tp_mac`. A block's packets are linked by
-- `tp_next_offset`; here they are a list.
pub record PacketHdr : Type 0 where
  pub frame : Pointer
  pub tp_sec : ℕ
  pub tp_nsec : ℕ
  pub tp_snaplen : ℕ

abbrev pub eth_hlen : ℕ
eth_hlen = 14

abbrev pub eth_p_ip : ℕ
eth_p_ip = 0x0800

-- The byte order of the network, and back.
abbrev pub htons : ℕ → ℕ
htons x = x % 256 * 256 + x / 256 % 256

-- `data_len`: a `size_t`, which wraps if the headers are longer than the packet.
unfoldable pub data_len_of : IpHeader → TcpHeader → ℕ
data_len_of ip tcp = sub_word (htons ip.tot_len) (ip.ihl * 4 + tcp.doff * 4)

module _ (table : KHash Ipv4Stream Fragment) (headers : Headers) (port : ℕ) where
  open table use {Map}
  open headers use {h_proto, iphdr, tcphdr}

  unfoldable pub display : Context Map → PacketHdr → Option (Context Map)
  display ctx ppd =
      let eth = ppd.frame in
      let ip = iphdr (advance eth eth_hlen) in
      let iphdr_len = ip.ihl * 4 in
      let tcp = tcphdr (advance eth (eth_hlen + iphdr_len)) in
      let doff = tcp.doff * 4 in
      let data_ptr = advance eth (eth_hlen + iphdr_len + doff) in
      let data_len = data_len_of ip tcp in
      let stream_id : Ipv4Stream = record {
        saddr = ip.saddr;
        daddr = ip.daddr;
        sport = tcp.source;
        dport = tcp.dest;
      } in
      let extract =
        vmars_extract_fix_messages table stream_id ppd.tp_sec ppd.tp_nsec data_ptr data_len ctx in
      if not (h_proto eth == htons eth_p_ip)
      then some ctx
      else if not (htons tcp.source == port) && not (htons tcp.dest == port)
      then some ctx
      else if data_len == 0
      then some ctx
      else extract

  unfoldable pub display_all : Context Map → List PacketHdr → Option (Context Map)
  display_all ctx [] = some ctx
  display_all ctx (ppd ∷ ppds) = display ctx ppd >>= λ (ctx' : Context Map). display_all ctx' ppds

  -- The sum of the packets' lengths, `bytes`, is computed and not used.
  unfoldable pub walk_block : Context Map → List PacketHdr → Option (Context Map)
  walk_block ctx ppds = display_all ctx ppds >>= λ (ctx' : Context Map). some (record ctx' {
    counters = record ctx'.counters { bytes_total = increment ctx'.counters.bytes_total };
  })
