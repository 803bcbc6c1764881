-- ===== src/Packet/RingTests.antt =====
-- The ring of blocks at work: one block of two packets.
use vmars.Prelude.{
  get_elem?, ℕ, ◌+◌, ◌*◌, ◌%◌, ◌≤◌, ◌<◌, ◌≡◌, ◌↔◌, refl, true, false, if◌then◌else◌, ◌==◌, List, [],
  ◌∷◌, ◌++◌, some, none, replicate, arith,
}
use vmars.Prelude.Text.{codes}
use vmars.Prelude.Int.{pos}
use vmars.Search.{fill, boyermoore_init, boyermoore_search}
use vmars.Fix.Process.{Context, strncpy}
use vmars.Fix.Fragments.{Ipv4Stream, Fragment, get_fragment, put_fragment}
use vmars.Fix.Extract.{
  first_message, handle_leading, message_loop, keep_rest, vmars_extract_fix_messages,
}
use vmars.Fix.Samples.{fragments, context}
use vmars.Packet.Defs.{PacketHdr, data_len_of, display, display_all, walk_block}
use vmars.Packet.Samples.{headers, other, start_of_message}
use vmars.Packet.Socket.{
  socket, setsockopt, mmap, bind, ioctl_hwtstamp, setaffinity, munmap, close, Os, req, map_len,
  fill_rd, setup_socket,
}
use vmars.Packet.Setup.{IsReady, ring_of, setup_socket_iff}
use vmars.Packet.Poll.{BlockDesc, BlockStatus, Capture, num_blocks, poll_loop}
use vmars.Packet.Blocks.{IsFree, Free}
use vmars.Packet.Order.{World, Reach, here, next, hand_over, InOrder, Reach-InOrder}
use vmars.Packet.Drain.{idle, poll_loop-catch_up}
use vmars.Packet.Thread.{Thread, set_affinity, blocks_of, vmars_poll_socket}
use vmars.Packet.Round.{vmars_poll_socket-round, rd_base-ring_of}

abbrev status : BlockStatus
status = record { kernel = 0; user = 1 }

abbrev empty : BlockDesc
empty = record { block_status = 0; packets = [] }

abbrev full : BlockDesc
full = record { block_status = 1; packets = other ∷ start_of_message ∷ [] }

abbrev start : World fragments headers 80 status
start = record {
  capture = record { ctx = context; blocks = λ k. empty; block_num = 0 };
  filled = [];
}

abbrev handed : World fragments headers 80 status
handed = record {
  capture = record { ctx = context; blocks = λ k. if k == 0 then full else empty; block_num = 0 };
  filled = full.packets ∷ [];
}

start-handed : Reach fragments headers 80 status start handed
start-handed = next here (hand_over full refl (λ e. absurd (omega (arith, e))))

abbrev walked : Context (List (Ipv4Stream × Fragment))
walked = record context {
  counters = record context.counters { bytes_total = 1 };
  state = some (
      (
        record { saddr = 0; daddr = 0; sport = 80 * 256; dport = 0 },
        record { capacity = 4088; s = codes "8=F" },
      )
      ∷ []);
}

Reach-InOrder_example :
    (taken pending : List (List PacketHdr)) × InOrder fragments headers 80 status context handed
      taken pending
Reach-InOrder_example =
    Reach-InOrder fragments headers 80 status start handed refl (refl, refl, λ i lt. refl)
      start-handed

poll_loop-catch_up_example :
    (n : ℕ) × (s : Capture (List (Ipv4Stream × Fragment))) × (n ≤ num_blocks)
    × (poll_loop fragments headers 80 status (idle fragments headers 80 status n) handed.capture
        ≡ some s)
    × (s.ctx ≡ walked)
    × ((k : ℕ) → k < num_blocks → IsFree status (s.blocks k))
unfolding walk_block display_all display data_len_of vmars_extract_fix_messages first_message
    boyermoore_search handle_leading get_fragment put_fragment strncpy vmars.Prelude.slice
    message_loop keep_rest
poll_loop-catch_up_example =
    poll_loop-catch_up fragments headers 80 status start handed walked refl
      (refl, refl, λ i lt. refl) start-handed refl

abbrev os : Os
os = record {
  result = λ calls c. elim c [
    | socket ↦ pos 3
    | setsockopt fd o ↦ pos 0
    | mmap fd n ↦ pos 0
    | bind fd n ↦ pos 0
    | ioctl_hwtstamp fd name ↦ pos 0
    | setaffinity n ↦ pos 0
    | munmap a n ↦ pos 0
    | close fd ↦ pos 0
  ];
  address = λ calls c. some 4096;
  if_nametoindex = λ name. 2;
  ifnamsiz = 16;
}

setup_socket_iff_example :
    ((setup_socket os 1111 (codes "eth0") true []).0 ≡ some (3, ring_of 1111 4096))
    ↔ ((map : ℕ) × (ring_of 1111 4096 ≡ ring_of 1111 map) × IsReady os 1111 (codes "eth0") [] 3 map)
setup_socket_iff_example = setup_socket_iff os 1111 (codes "eth0") [] 3 (ring_of 1111 4096) true

opens : (setup_socket os 1111 (codes "eth0") true []).0 ≡ some (3, ring_of 1111 4096)
opens = setup_socket_iff_example.1 (
  4096,
  refl,
  record {
    opened = refl;
    version = (0, refl);
    rx_ring = (0, refl);
    at = refl;
    bound = (0, refl);
    fanned = refl;
  },
)

abbrev memory : ℕ → BlockDesc
memory a = if a == 4096 then full else empty

abbrev thread : Thread
thread = record {
  fanout_id = 1111;
  interface = codes "eth0";
  port = 80;
  cpu_num = pos 1;
  use_hw_timestamps = true;
}

-- All blocks but the first are empty.
thread-Free :
    Free status (blocks_of fragments headers status os memory thread (ring_of 1111 4096)) 0 1
thread-Free i a b =
    let place : (0 + i) % num_blocks ≡ i = omega arith in
    let base = rd_base-ring_of 1111 4096 i b in rw (place, base) (ground arith)

vmars_poll_socket-round_example :
    vmars_poll_socket fragments headers status os memory thread context
      (idle fragments headers 80 status 1)
      []
    ≡ some (
      record walked {
        matcher = elim (boyermoore_init (codes "8=FIX.4.")) [ none ↦ context.matcher | some m ↦ m ];
        counters = record walked.counters { fd = 3 };
      },
      close 3
          ∷ munmap 4096 (map_len req)
          ∷ (setup_socket os 1111 (codes "eth0") true (setaffinity 1 ∷ [])).1,
    )
unfolding fill_rd set_affinity boyermoore_init fill walk_block display_all display data_len_of
    vmars_extract_fix_messages first_message boyermoore_search handle_leading get_fragment
    put_fragment strncpy vmars.Prelude.slice message_loop keep_rest
vmars_poll_socket-round_example =
    vmars_poll_socket-round fragments headers status os memory thread context _ _ 3 4096
      ((other ∷ start_of_message ∷ []) ∷ []) [] refl refl
      (record {
        opened = refl;
        version = (0, refl);
        rx_ring = (0, refl);
        at = refl;
        bound = (0, refl);
        fanned = refl;
      })
      ((λ e. absurd (omega (arith, e))), refl, tt) thread-Free (omega arith) refl
