-- ===== src/Packet/Thread.antt =====
-- `vmars_poll_socket` of src/packet.c as a whole, up to the signal that ends it.
use vmars.Prelude.{ℕ, zero, suc, Bool, List, [], ◌∷◌, Option, none, some}
use vmars.Prelude.Int.{ℤ, pos, negsuc}
use vmars.KHash.{KHash}
use vmars.Search.{Matcher, boyermoore_init}
use vmars.Parser.Defs.{◌>>=◌}
use vmars.Fix.Process.{Context}
use vmars.Fix.Fragments.{Ipv4Stream, Fragment}
use vmars.Fix.Messages.{begin_string}
use vmars.Packet.Defs.{Headers}
use vmars.Packet.Socket.{Iovec, Ring, Call, setaffinity, Os, setup_socket, teardown_socket}
use vmars.Packet.Poll.{BlockDesc, BlockStatus, Capture, poll_loop}

-- What is read of `vmars_capture_context_t` besides the part that fix.c touches.
pub record Thread : Type 0 where
  pub fanout_id : ℕ
  pub interface : List ℕ
  pub port : ℕ
  pub cpu_num : ℤ
  pub use_hw_timestamps : Bool

-- The thread is bound to its processor, if it has one; a failure is only reported.
unfoldable pub set_affinity : ℤ → List Call → List Call
set_affinity (pos cpu_num) calls = setaffinity cpu_num ∷ calls
set_affinity (negsuc _) calls = calls

-- `ring.rd[k].iov_base`; `k` is less than the number of blocks.
abbrev pub rd_base : List Iovec → ℕ → ℕ
rd_base [] k = 0
rd_base (v ∷ rd) zero = v.iov_base
rd_base (v ∷ rd) (suc k) = rd_base rd k

module _ (table : KHash Ipv4Stream Fragment) (headers : Headers) (status : BlockStatus) (os : Os)
    (memory : ℕ → BlockDesc) (thread : Thread) where
  open table use {Map}

  abbrev pub blocks_of : Ring → ℕ → BlockDesc
  blocks_of ring k = memory (rd_base ring.rd k)

  -- What is left of the context, and the calls that were made. The thread exits if its socket
  -- cannot be opened.
  unfoldable pub vmars_poll_socket :
      Context Map
      → List ((ℕ → BlockDesc) → ℕ → BlockDesc)
      → List Call
      → Option (Context Map × List Call)
  vmars_poll_socket ctx moves calls = boyermoore_init begin_string >>= λ (matcher : Matcher).
      let ready : Context Map = record ctx { matcher = matcher } in
      let setup =
        setup_socket os thread.fanout_id thread.interface thread.use_hw_timestamps
          (set_affinity thread.cpu_num calls) in
      elim setup.0 [
        | none ↦ some (ready, setup.1)
        | some (fd, ring) ↦
            poll_loop table headers thread.port status moves (record {
              ctx = record ready { counters = record ready.counters { fd = fd } };
              blocks = blocks_of ring;
              block_num = 0;
            })
            >>= λ (s : Capture Map). some (s.ctx, teardown_socket ring fd setup.1)
      ]
