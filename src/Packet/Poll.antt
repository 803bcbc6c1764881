-- ===== src/Packet/Poll.antt =====
-- The loop of `vmars_poll_socket` of src/packet.c, over the ring of blocks that is shared with the kernel.
use vmars.Prelude.{ℕ, ◌+◌, ◌%◌, List, [], ◌∷◌, Option, some, ◌==◌, if◌then◌else◌}
use Prim.Native.Nat.{bit_and}
use vmars.KHash.{KHash}
use vmars.Parser.Defs.{◌>>=◌}
use vmars.Fix.Process.{Context}
use vmars.Fix.Fragments.{Ipv4Stream, Fragment}
use vmars.Packet.Defs.{Headers, PacketHdr, walk_block}

-- `struct block_desc`: the packets that its header leads to.
pub record BlockDesc : Type 0 where
  pub block_status : ℕ
  pub packets : List PacketHdr

-- `blocks` of vmars_poll_socket
abbrev pub num_blocks : ℕ
num_blocks = 64

abbrev pub update : {A : Type 0} → (ℕ → A) → ℕ → A → ℕ → A
update f k x j = if j == k then x else f j

-- TP_STATUS_KERNEL and TP_STATUS_USER of <linux/if_packet.h>
pub record BlockStatus : Type 0 where
  pub kernel : ℕ
  pub user : ℕ

unfoldable pub flush_block : BlockStatus → BlockDesc → BlockDesc
flush_block status pbd = record pbd { block_status = status.kernel }

-- What a capture thread keeps from turn to turn, and the blocks.
pub record Capture (Map : Type 0) : Type 0 where
  pub ctx : Context Map
  pub blocks : ℕ → BlockDesc
  pub block_num : ℕ

module _ (table : KHash Ipv4Stream Fragment) (headers : Headers) (port : ℕ)
    (status : BlockStatus) where
  open table use {Map}

  -- One turn of the loop. A block that the kernel owns is waited for, in `poll`.
  unfoldable pub poll_turn : Capture Map → Option (Capture Map)
  poll_turn s =
      let pbd = s.blocks s.block_num in
      let walked : Option (Capture Map) =
        walk_block table headers port s.ctx pbd.packets >>= λ (ctx' : Context Map). some (record {
          ctx = ctx';
          blocks = update s.blocks s.block_num (flush_block status pbd);
          block_num = (s.block_num + 1) % num_blocks;
        }) in
      if bit_and pbd.block_status status.user == 0 then some s else walked

  -- The loop, up to the signal: before each turn the kernel does something to the blocks.
  unfoldable pub poll_loop :
      List ((ℕ → BlockDesc) → ℕ → BlockDesc) → Capture Map → Option (Capture Map)
  poll_loop [] s = some s
  poll_loop (kernel ∷ moves) s =
      poll_turn (record s { blocks = kernel s.blocks }) >>= λ (s' : Capture Map). poll_loop moves s'
