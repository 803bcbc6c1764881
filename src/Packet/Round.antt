-- ===== src/Packet/Round.antt =====
-- A capture thread of src/packet.c from its start to its end.
use Prim.Native.Nat.{bit_and}
use vmars.Prelude.{
  get_elem?, ℕ, zero, suc, ◌+◌, ◌*◌, ◌≤◌, ◌<◌, ◌≡◌, refl, List, [], ◌∷◌, some, length, arith,
}
use vmars.KHash.{KHash}
use vmars.Search.{Matcher}
use vmars.Fix.Process.{Context}
use vmars.Fix.Fragments.{Ipv4Stream, Fragment}
use vmars.Fix.Next.{IsBegin}
use vmars.Packet.Defs.{Headers, PacketHdr}
use vmars.Packet.Socket.{
  Iovec, blocksiz, Call, munmap, close, Os, req, map_len, setup_socket, teardown_socket,
}
use vmars.Packet.Setup.{IsReady, ring_of, fill_rd-blocks, setup_socket-ready}
use vmars.Packet.Poll.{BlockDesc, BlockStatus, Capture, num_blocks}
use vmars.Packet.Blocks.{Held, Free}
use vmars.Packet.Order.{World, InOrder, walk_blocks}
use vmars.Packet.Drain.{idle, poll_loop-pending}
use vmars.Packet.Thread.{Thread, rd_base, set_affinity, blocks_of, vmars_poll_socket}

rd_base-get_elem? :
    (rd : List Iovec) (k : ℕ) (v : Iovec) → get_elem? rd k ≡ some v → rd_base rd k ≡ v.iov_base
rd_base-get_elem? [] k v e = absurd (ground arith)
rd_base-get_elem? (x ∷ rd) zero v e = ground arith
rd_base-get_elem? (x ∷ rd) (suc k) v e = rd_base-get_elem? rd k v e

pub rd_base-ring_of :
    (fanout_id map k : ℕ)
    → k < num_blocks
    → rd_base (ring_of fanout_id map).rd k ≡ map + k * blocksiz
rd_base-ring_of fanout_id map k lt =
    rd_base-get_elem? (ring_of fanout_id map).rd k _ (fill_rd-blocks map k lt).0

module _ (table : KHash Ipv4Stream Fragment) (headers : Headers) (status : BlockStatus) (os : Os)
    (memory : ℕ → BlockDesc) (thread : Thread) where
  open table use {Map}

  abbrev pub started : Context Map → Matcher → ℕ → Context Map
  started ctx matcher fd = record ctx {
    matcher = matcher;
    counters = record ctx.counters { fd = fd };
  }

  -- A capture thread whose socket opens walks the blocks that the kernel filled, in their order,
  -- with the matcher for the start of a message and the descriptor in its counters; when the signal
  -- comes after that many turns it unmaps the memory that it mapped, all of it, and closes the
  -- socket, after all other calls. Up to 64 blocks are filled, from the first on, when the loop
  -- begins, and the walk over them is defined; the two values of a status are told apart by the bit
  -- that is tested.
  pub vmars_poll_socket-round :
      (ctx d : Context Map) (matcher : Matcher) (fd map : ℕ) (pss : List (List PacketHdr))
      (calls : List Call)
      → IsBegin matcher
      → bit_and status.kernel status.user ≡ 0
      → IsReady os thread.fanout_id thread.interface (set_affinity thread.cpu_num calls) fd map
      → Held status
          (blocks_of table headers status os memory thread (ring_of thread.fanout_id map))
          0
          pss
      → Free status
          (blocks_of table headers status os memory thread (ring_of thread.fanout_id map))
          0
          (length pss)
      → length pss ≤ num_blocks
      → walk_blocks table headers thread.port status (started ctx matcher fd) pss ≡ some d
      → vmars_poll_socket table headers status os memory thread ctx
          (idle table headers thread.port status (length pss))
          calls
        ≡ some (
          d,
          close fd
              ∷ munmap map (map_len req)
              ∷ (setup_socket os thread.fanout_id thread.interface thread.use_hw_timestamps
                  (set_affinity thread.cpu_num calls)).1,
        )
  unfolding vmars_poll_socket teardown_socket
  vmars_poll_socket-round ctx d matcher fd map pss calls begin bits ready held free fits walked =
      let port = thread.port in
      let ring = ring_of thread.fanout_id map in
      let opened =
        setup_socket-ready os thread.fanout_id thread.interface (set_affinity thread.cpu_num calls)
          fd map thread.use_hw_timestamps ready in
      let capture : Capture Map = record {
        ctx = started ctx matcher fd;
        blocks = blocks_of table headers status os memory thread ring;
        block_num = 0;
      } in
      let world : World table headers port status = record { capture = capture; filled = pss } in
      let order : InOrder table headers port status capture.ctx world [] pss = record {
        all = refl;
        walked = refl;
        at = refl;
        fits = fits;
        held = held;
        free = free;
      } in
      let (s, run, there, _) =
        poll_loop-pending table headers port status pss [] capture.ctx d world bits order walked in
      rw (begin, opened, run, there) refl
