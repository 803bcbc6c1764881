-- ===== src/Packet/Order.antt =====
-- The order of the blocks in the loop of `vmars_poll_socket` of src/packet.c.
use Prim.Native.Nat.{bit_and}
use native.Mathlib.Decide.{dec_lt}
use vmars.Prelude.{
  ℕ, suc, ◌+◌, ◌-◌, ◌%◌, ◌≤◌, ◌<◌, ◌≡◌, ◌≢◌, refl, sym, ap, ◌∙◌, List, [], ◌∷◌, ◌++◌, Option, some,
  length, length-append, arith, append_assoc,
}
use mathlib.Core.Option.{some-injective}
use mathlib.Core.Path.{subst}
use vmars.KHash.{KHash}
use vmars.Parser.Defs.{◌>>=◌}
use vmars.Parser.Sound.{bind-eq-some}
use vmars.Fix.Process.{Context}
use vmars.Fix.Fragments.{Ipv4Stream, Fragment}
use vmars.Packet.Defs.{Headers, PacketHdr, walk_block}
use vmars.Packet.Poll.{BlockDesc, BlockStatus, Capture, num_blocks, update, flush_block, poll_turn}
use vmars.Packet.Blocks.{
  Blocks, IsFree, Held, Free, Held-update, Held-snoc, after_block, poll_turn-free, poll_turn_inv,
}

module _ (table : KHash Ipv4Stream Fragment) (headers : Headers) (port : ℕ)
    (status : BlockStatus) where
  open table use {Map}

  -- The blocks are walked one after the other.
  abbrev pub walk_blocks : Context Map → List (List PacketHdr) → Option (Context Map)
  walk_blocks ctx [] = some ctx
  walk_blocks ctx (ps ∷ pss) =
      walk_block table headers port ctx ps >>= λ (c : Context Map). walk_blocks c pss

  -- The capture thread, and the blocks that the kernel filled so far.
  pub record World : Type 0 where
    pub capture : Capture Map
    pub filled : List (List PacketHdr)

  -- The kernel fills the blocks in turn, each only when it is its own.
  pub data Step (w : World) : World → Type 0 where
    hand_over :
        (b : BlockDesc)
        → IsFree status (w.capture.blocks (length w.filled % num_blocks))
        → ¬ IsFree status b
        → Step w (record {
          capture = record w.capture {
            blocks = update w.capture.blocks (length w.filled % num_blocks) b;
          };
          filled = w.filled ++ (b.packets ∷ []);
        })
    turn :
        (s : Capture Map)
        → poll_turn table headers port status w.capture ≡ some s
        → Step w (record w { capture = s })

  pub data Reach (w : World) : World → Type 0 where
    here : Reach w w
    next : {u v : World} → Reach w u → Step u v → Reach w v

  -- The blocks taken so far, and those that wait in the ring.
  pub record InOrder (ctx : Context Map) (w : World) (taken pending : List (List PacketHdr))
      : Type 0 where
    pub all : w.filled ≡ taken ++ pending
    pub walked : walk_blocks ctx taken ≡ some w.capture.ctx
    pub at : w.capture.block_num ≡ length taken % num_blocks
    pub fits : length pending ≤ num_blocks
    pub held : Held status w.capture.blocks (length taken) pending
    pub free : Free status w.capture.blocks (length taken) (length pending)

  pub walk_blocks-snoc :
      (pss : List (List PacketHdr)) (ps : List PacketHdr) (ctx c d : Context Map)
      → walk_blocks ctx pss ≡ some c
      → walk_block table headers port c ps ≡ some d
      → walk_blocks ctx (pss ++ (ps ∷ [])) ≡ some d
  walk_blocks-snoc [] ps ctx c d e last = let same : ctx ≡ c = ground arith in rw (same, last) refl
  walk_blocks-snoc (qs ∷ pss) ps ctx c d e last =
      let (c1, first, rest) = bind-eq-some (walk_block table headers port ctx qs) _ e in
      rw first (walk_blocks-snoc pss ps c1 c d rest last)

  -- The kernel finds its next block free only if fewer blocks than there are wait.
  Held-room :
      (blocks : Blocks) (n : ℕ) (pss : List (List PacketHdr))
      → Held status blocks n pss
      → length pss ≤ num_blocks
      → IsFree status (blocks ((n + length pss) % num_blocks))
      → length pss < num_blocks
  Held-room blocks n [] h le own = omega arith
  Held-room blocks n (ps ∷ pss) h le own = elim (dec_lt (length (ps ∷ pss)) num_blocks) [
    | yes lt ↦ lt
    | no ge ↦
        let round : (n + length (ps ∷ pss)) % num_blocks ≡ n % num_blocks = omega arith in
        absurd (h.0 (rw round at own))
  ]

  hand_over-InOrder :
      (ctx : Context Map) (w : World) (b : BlockDesc) (taken pending : List (List PacketHdr))
      → InOrder ctx w taken pending
      → IsFree status (w.capture.blocks (length w.filled % num_blocks))
      → ¬ IsFree status b
      → InOrder ctx
          (record {
            capture = record w.capture {
              blocks = update w.capture.blocks (length w.filled % num_blocks) b;
            };
            filled = w.filled ++ (b.packets ∷ []);
          })
          taken
          (pending ++ (b.packets ∷ []))
  hand_over-InOrder ctx w b taken pending o own mine =
      let n = length taken in
      let blocks = w.capture.blocks in
      let size : length w.filled ≡ n + length pending =
        ap length o.all ∙ length-append taken pending in
      let size' = length-append pending (b.packets ∷ []) in
      let k = length w.filled % num_blocks in
      let room = Held-room blocks n pending o.held o.fits (rw size at own) in
      let same : (n + length pending) % num_blocks ≡ k = rw size refl in
      record {
        all = ap (λ l. l ++ (b.packets ∷ [])) o.all ∙ append_assoc taken pending (b.packets ∷ []);
        walked = o.walked;
        at = o.at;
        fits = omega arith;
        held =
            Held-snoc status (update blocks k b) b.packets pending n
              (Held-update status blocks k b pending n (λ i lt e. omega arith) o.held)
              (ground arith) (ground arith);
        free = λ i ge lt.
            let other : (n + i) % num_blocks ≢ k = λ e. omega arith in
            let before = o.free i (omega arith) lt in ground arith;
      }

  pub taken-InOrder :
      (ctx c : Context Map) (w : World) (ps : List PacketHdr)
      (taken pending : List (List PacketHdr))
      → bit_and status.kernel status.user ≡ 0
      → InOrder ctx w taken (ps ∷ pending)
      → walk_block table headers port w.capture.ctx ps ≡ some c
      → InOrder ctx
          (record w { capture = after_block table headers port status w.capture c })
          (taken ++ (ps ∷ []))
          pending
  unfolding flush_block
  taken-InOrder ctx c w ps taken pending bits o last =
      let n = length taken in
      let size = length-append taken (ps ∷ []) in
      let blocks = w.capture.blocks in
      let k = w.capture.block_num in
      let at = o.at in
      let size' : length (taken ++ (ps ∷ [])) ≡ n + 1 = omega arith in
      let flushed = flush_block status (blocks k) in
      record {
        all = o.all ∙ sym (append_assoc taken (ps ∷ []) pending);
        walked = walk_blocks-snoc taken ps ctx w.capture.ctx c o.walked last;
        at = omega arith;
        fits = omega (arith, o.fits);
        held = rw size' (
            Held-update status blocks k flushed pending (n + 1) (λ i lt e. omega (arith, o.fits))
              o.held.2);
        free = λ i ge lt. elim (dec_lt i (num_blocks - 1)) [
          | yes inside ↦
              let before = o.free (suc i) (omega arith) (omega arith) in
              let place : (n + suc i) % num_blocks
                  ≡ (length (taken ++ (ps ∷ [])) + i) % num_blocks =
                omega arith in
              let other : (n + suc i) % num_blocks ≢ k = λ e. omega arith in ground arith
          | no last ↦
              let place : (length (taken ++ (ps ∷ [])) + i) % num_blocks ≡ k = omega arith in
              ground arith
        ];
      }

  poll_turn-InOrder :
      (ctx : Context Map) (w : World) (s : Capture Map) (taken pending : List (List PacketHdr))
      → bit_and status.kernel status.user ≡ 0
      → InOrder ctx w taken pending
      → poll_turn table headers port status w.capture ≡ some s
      → (taken' pending' : List (List PacketHdr)) × InOrder ctx
          (record w { capture = s })
          taken'
          pending'
  poll_turn-InOrder ctx w s taken [] bits o e =
      let own = o.free 0 (omega arith) (omega arith) in
      let start : (length taken + 0) % num_blocks ≡ w.capture.block_num = omega (arith, o.at) in
      let same : w.capture ≡ s =
        some-injective _ _
          (sym (poll_turn-free table headers port status w.capture (rw start at own)) ∙ e) in
      (taken, [], subst (λ s. InOrder ctx (record w { capture = s }) taken []) same o)
  poll_turn-InOrder ctx w s taken (ps ∷ pending) bits o e =
      let mine = o.held.0 in
      let (c, walked, same) =
        poll_turn_inv table headers port status w.capture s (rw o.at mine) e in
      let last = rw (o.at, o.held.1) at walked in
      (taken ++ (ps ∷ []), pending, rw same (taken-InOrder ctx c w ps taken pending bits o last))

  Reach-InOrder_from :
      {w w' : World} (ctx : Context Map)
      → bit_and status.kernel status.user ≡ 0
      → InOrder ctx w [] []
      → Reach w w'
      → (taken pending : List (List PacketHdr)) × InOrder ctx w' taken pending
  Reach-InOrder_from ctx bits o here = ([], [], o)
  Reach-InOrder_from ctx bits o (next r (hand_over b own mine)) =
      let (taken, pending, before) = Reach-InOrder_from ctx bits o r in
      (taken, pending ++ (b.packets ∷ []), hand_over-InOrder ctx _ b taken pending before own mine)
  Reach-InOrder_from ctx bits o (next r (turn s e)) =
      let (taken, pending, before) = Reach-InOrder_from ctx bits o r in
      poll_turn-InOrder ctx _ s taken pending bits before e

  -- Before the first block is handed over.
  abbrev pub IsStart : World → Type 0
  IsStart w =
      (w.filled ≡ [])
      × (w.capture.block_num ≡ 0)
      × ((i : ℕ) → i < num_blocks → IsFree status (w.capture.blocks i))

  IsStart-InOrder : (w : World) → IsStart w → InOrder w.capture.ctx w [] []
  IsStart-InOrder w s = record {
    all = s.0;
    walked = refl;
    at = s.1;
    fits = omega arith;
    held = tt;
    free = λ i ge lt. let e : (0 + i) % num_blocks ≡ i = omega arith in rw e (s.2 i lt);
  }

  -- Whatever the kernel and the capture thread do, and in whichever order, the blocks that the
  -- kernel filled are those that the thread walked, from its first state on and in this order,
  -- followed by at most 64 that wait in the ring, from the thread's place on: none is lost, walked
  -- twice or overtaken, and all the others are the kernel's. The kernel fills the blocks in turn,
  -- and only those that are its own; the two values of a block's status are told apart by the bit
  -- that the thread tests.
  pub Reach-InOrder :
      (w w' : World)
      → bit_and status.kernel status.user ≡ 0
      → IsStart w
      → Reach w w'
      → (taken pending : List (List PacketHdr)) × InOrder w.capture.ctx w' taken pending
  Reach-InOrder w w' bits start r =
      Reach-InOrder_from w.capture.ctx bits (IsStart-InOrder w start) r
