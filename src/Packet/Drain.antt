-- ===== src/Packet/Drain.antt =====
-- Turns of the loop of `vmars_poll_socket` of src/packet.c while the kernel does nothing.
use Prim.Native.Nat.{bit_and}
use vmars.Prelude.{
  ℕ, ◌+◌, ◌-◌, ◌%◌, ◌≤◌, ◌<◌, ◌≡◌, refl, List, [], ◌∷◌, ◌++◌, Option, some, length, arith,
  append_assoc, append-nil, replicate,
}
use vmars.KHash.{KHash}
use vmars.Parser.Sound.{bind-eq-some}
use vmars.Fix.Process.{Context}
use vmars.Fix.Fragments.{Ipv4Stream, Fragment}
use vmars.Packet.Defs.{Headers, PacketHdr, walk_block}
use vmars.Packet.Poll.{BlockStatus, Capture, num_blocks, BlockDesc, poll_loop}
use vmars.Packet.Blocks.{IsFree, after_block, poll_turn-mine}
use vmars.Packet.Order.{World, Reach, IsStart, InOrder, walk_blocks, taken-InOrder, Reach-InOrder}

module _ (table : KHash Ipv4Stream Fragment) (headers : Headers) (port : ℕ)
    (status : BlockStatus) where
  open table use {Map}

  abbrev walks : Context Map → List (List PacketHdr) → Option (Context Map)
  walks = walk_blocks table headers port status

  -- That many turns in which the kernel does nothing.
  abbrev pub idle : ℕ → List ((ℕ → BlockDesc) → ℕ → BlockDesc)
  idle n = replicate n (λ blocks. blocks)

  walk_blocks-append :
      (pss qss : List (List PacketHdr)) (ctx c d : Context Map)
      → walks ctx pss ≡ some c
      → walks ctx (pss ++ qss) ≡ some d
      → walks c qss ≡ some d
  walk_blocks-append [] qss ctx c d e all = let same : ctx ≡ c = ground arith in rw same at all
  walk_blocks-append (ps ∷ pss) qss ctx c d e all =
      let (c1, first, rest) = bind-eq-some (walk_block table headers port ctx ps) _ e in
      walk_blocks-append pss qss c1 c d rest (rw first at all)

  pub poll_loop-pending :
      (pending taken : List (List PacketHdr)) (ctx d : Context Map)
      (w : World table headers port status)
      → bit_and status.kernel status.user ≡ 0
      → InOrder table headers port status ctx w taken pending
      → walks w.capture.ctx pending ≡ some d
      → (s : Capture Map) × (poll_loop table headers port status (idle (length pending)) w.capture
          ≡ some s)
        × (s.ctx ≡ d)
        × InOrder table headers port status ctx (record w { capture = s }) (taken ++ pending) []
  unfolding poll_loop
  poll_loop-pending [] taken ctx d w bits o e =
      (w.capture, refl, ground arith, rw (append-nil taken) o)
  poll_loop-pending (ps ∷ pending) taken ctx d w bits o e =
      let (c, first, rest) = bind-eq-some (walk_block table headers port w.capture.ctx ps) _ e in
      let turn =
        poll_turn-mine table headers port status w.capture c (rw o.at o.held.0)
          (rw (o.at, o.held.1) first) in
      let after = taken-InOrder table headers port status ctx c w ps taken pending bits o first in
      let (s, run, there, done) =
        poll_loop-pending pending (taken ++ (ps ∷ [])) ctx d
          (record w { capture = after_block table headers port status w.capture c }) bits after
          rest in
      (s, rw turn run, there, rw (append_assoc taken (ps ∷ []) pending) at done)

  -- The capture thread catches up: from wherever it stands, at most 64 turns of its loop without
  -- the kernel take it to where all blocks that were filled are walked, in their order, and every
  -- block belongs to the kernel again. The walk over the filled blocks is defined; the rest is as
  -- for the order of the blocks.
  pub poll_loop-catch_up :
      (w w' : World table headers port status) (d : Context Map)
      → bit_and status.kernel status.user ≡ 0
      → IsStart table headers port status w
      → Reach table headers port status w w'
      → walk_blocks table headers port status w.capture.ctx w'.filled ≡ some d
      → (n : ℕ) × (s : Capture Map) × (n ≤ num_blocks)
        × (poll_loop table headers port status (idle n) w'.capture ≡ some s)
        × (s.ctx ≡ d)
        × ((k : ℕ) → k < num_blocks → IsFree status (s.blocks k))
  poll_loop-catch_up w w' d bits start r all =
      let (taken, pending, o) = Reach-InOrder table headers port status w w' bits start r in
      let rest =
        walk_blocks-append taken pending w.capture.ctx w'.capture.ctx d o.walked
          (rw o.all at all) in
      let (s, run, there, done) = poll_loop-pending pending taken w.capture.ctx d w' bits o rest in
      let n = length (taken ++ pending) in
      (
        length pending,
        s,
        o.fits,
        run,
        there,
        λ k lt.
            let i = (k + (num_blocks - n % num_blocks)) % num_blocks in
            let place : (n + i) % num_blocks ≡ k = omega arith in
            rw place at (done.free i (omega arith) (omega arith)),
      )
