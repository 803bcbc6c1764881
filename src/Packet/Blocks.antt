-- ===== src/Packet/Blocks.antt =====
-- The capture thread and the kernel at work on the ring of blocks, in any order.
use Prim.Native.Nat.{bit_and}
use vmars.Prelude.{
  ℕ, suc, ◌+◌, ◌%◌, ◌≤◌, ◌<◌, ◌≡◌, ◌≢◌, List, [], ◌∷◌, ◌++◌, some, length, arith, Option-cases, inl,
  inr,
}
use vmars.KHash.{KHash}
use vmars.Fix.Process.{Context}
use vmars.Fix.Fragments.{Ipv4Stream, Fragment}
use vmars.Packet.Defs.{Headers, PacketHdr, walk_block}
use vmars.Packet.Poll.{BlockDesc, BlockStatus, Capture, num_blocks, update, flush_block, poll_turn}

abbrev pub Blocks : Type 0
Blocks = ℕ → BlockDesc

abbrev pub IsFree : BlockStatus → BlockDesc → Type 0
IsFree status b = bit_and b.block_status status.user ≡ 0

-- The blocks from the `n`-th on belong to the thread and hold these packets.
abbrev pub Held : BlockStatus → Blocks → ℕ → List (List PacketHdr) → Type 0
Held status blocks n [] = Unit
Held status blocks n (ps ∷ pss) =
    (¬ IsFree status (blocks (n % num_blocks)))
    × ((blocks (n % num_blocks)).packets ≡ ps)
    × Held status blocks (n + 1) pss

-- The other blocks, up to a whole round behind the `n`-th, belong to the kernel.
abbrev pub Free : BlockStatus → Blocks → ℕ → ℕ → Type 0
Free status blocks n k =
    (i : ℕ) → k ≤ i → i < num_blocks → IsFree status (blocks ((n + i) % num_blocks))

-- Another block changes.
pub Held-update :
    (status : BlockStatus) (blocks : Blocks) (k : ℕ) (b : BlockDesc) (pss : List (List PacketHdr))
    (n : ℕ)
    → ((i : ℕ) → i < length pss → (n + i) % num_blocks ≢ k)
    → Held status blocks n pss
    → Held status (update blocks k b) n pss
Held-update status blocks k b [] n apart h = tt
Held-update status blocks k b (ps ∷ pss) n apart h =
    let other = apart 0 (omega arith) in
    let at_n : n + 0 ≡ n = omega arith in
    let other' : n % num_blocks ≢ k = rw at_n at other in
    (
      ground arith,
      ground arith,
      Held-update status blocks k b pss (n + 1)
          (λ i lt e. apart (suc i) (omega arith) (ground arith)) h.2,
    )

pub Held-snoc :
    (status : BlockStatus) (blocks : Blocks) (ps : List PacketHdr) (pss : List (List PacketHdr))
    (n : ℕ)
    → Held status blocks n pss
    → ¬ IsFree status (blocks ((n + length pss) % num_blocks))
    → (blocks ((n + length pss) % num_blocks)).packets ≡ ps
    → Held status blocks n (pss ++ (ps ∷ []))
Held-snoc status blocks ps [] n h mine it =
    let at_n : n + 0 ≡ n = omega arith in (rw at_n at mine, rw at_n at it, tt)
Held-snoc status blocks ps (qs ∷ pss) n h mine it =
    let at_n : n + suc (length pss) ≡ n + 1 + length pss = omega arith in
    (h.0, h.1, Held-snoc status blocks ps pss (n + 1) h.2 (rw at_n at mine) (rw at_n at it))

module _ (table : KHash Ipv4Stream Fragment) (headers : Headers) (port : ℕ)
    (status : BlockStatus) where
  open table use {Map}

  -- The block is walked, handed back, and the next one is up.
  abbrev pub after_block : Capture Map → Context Map → Capture Map
  after_block s c = record {
    ctx = c;
    blocks = update s.blocks s.block_num (flush_block status (s.blocks s.block_num));
    block_num = (s.block_num + 1) % num_blocks;
  }

  pub poll_turn-free :
      (s : Capture Map)
      → IsFree status (s.blocks s.block_num)
      → poll_turn table headers port status s ≡ some s
  unfolding poll_turn
  poll_turn-free s own = ground arith

  pub poll_turn-mine :
      (s : Capture Map) (c : Context Map)
      → ¬ IsFree status (s.blocks s.block_num)
      → walk_block table headers port s.ctx (s.blocks s.block_num).packets ≡ some c
      → poll_turn table headers port status s ≡ some (after_block s c)
  unfolding poll_turn
  poll_turn-mine s c mine walked = ground arith

  pub poll_turn_inv :
      (s s' : Capture Map)
      → ¬ IsFree status (s.blocks s.block_num)
      → poll_turn table headers port status s ≡ some s'
      → (c : Context Map) × (walk_block table headers port s.ctx (s.blocks s.block_num).packets
          ≡ some c)
        × (s' ≡ after_block s c)
  unfolding poll_turn
  poll_turn_inv s s' mine e =
      elim (Option-cases (walk_block table headers port s.ctx (s.blocks s.block_num).packets)) [
        | inl undefined ↦ absurd (ground arith)
        | inr (c, walked) ↦ (c, walked, ground arith)
      ]
