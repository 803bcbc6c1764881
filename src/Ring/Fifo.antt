-- ===== src/Ring/Fifo.antt =====
-- The ring of src/spsc_rb.c as a queue.
use vmars.Prelude.{ℕ, ◌^◌, ◌≤◌, ◌≡◌, refl, List, [], ◌++◌, arith}
use vmars.Ring.Records.{Contents}
use vmars.Ring.Interleave.{
  idle, waiting, System, Step, claim, claim_fails, write, publish, poll, poll_fails, release, Reach,
  here, next,
}
use vmars.Ring.Invariant.{Inv}
use vmars.Ring.Preserve.{
  claim-Inv, claim_fails-Inv, write-Inv, publish-Inv, poll-Inv, poll_fails-Inv, release-Inv,
}

Step-Inv : {k : ℕ} {s t : System} → Inv k s → Step s t → Inv k t
Step-Inv {s = s} inv (claim n a rb' _ small e) = claim-Inv s inv n a rb' small e
Step-Inv {s = s} inv (claim_fails n rb' _ small e) = claim_fails-Inv s inv n rb' small e
Step-Inv {s = s} inv (write a xs e) = write-Inv s inv a xs e
Step-Inv {s = s} inv (publish a xs st rb' e range call) = publish-Inv s inv a xs st rb' e range call
Step-Inv {s = s} inv (poll a rb' _ call) = poll-Inv s inv a rb' call
Step-Inv {s = s} inv (poll_fails rb' _ call) = poll_fails-Inv s inv rb' call
Step-Inv {s = s} inv (release a st rb' e call) = release-Inv s inv a st rb' e call

pub Reach-Inv : {k : ℕ} {s t : System} → Inv k s → Reach s t → Inv k t
Reach-Inv inv here = inv
Reach-Inv inv (next r step) = Step-Inv (Reach-Inv inv r) step

-- A ring of 2^k bytes as `vmars_spsc_rb_init` leaves it, with nobody at work.
abbrev pub start : ℕ → (ℕ → ℕ) → System
start k buffer = record {
  rb = record {
    buffer = buffer;
    capacity = 2 ^ k;
    tail_cache_position = 0;
    tail_position = 0;
    head_cache_position = 0;
    head_position = 0;
  };
  producer = idle;
  consumer = waiting;
  published = [];
  consumed = [];
}

pub start-Inv : (k : ℕ) (buffer : ℕ → ℕ) → k ≤ 30 → Inv k (start k buffer)
start-Inv k buffer small = record {
  pending = [];
  valid = record {
    capacity_is = refl;
    small = small;
    head_cached = omega arith;
    head_le_tail = omega arith;
    tail_cached = omega arith;
    fits = omega arith;
    in_range = omega arith;
  };
  contents = refl;
  queue = refl;
  producer_inv = tt;
  consumer_inv = tt;
}

-- In every interleaving of claims, writes, publications, polls and releases on a fresh ring of 2^k
-- bytes (k at most 30, and fewer than 2^62 bytes published): what the consumer has read is what
-- the producer has published, in order and byte for byte, up to the records still in the ring,
-- and those are intact in the ring's memory.
pub fifo :
    (k : ℕ) (buffer : ℕ → ℕ) {t : System}
    → k ≤ 30
    → Reach (start k buffer) t
    → (pending : List (List ℕ)) × (t.published ≡ t.consumed ++ pending) × Contents t.rb pending
fifo k buffer small run =
    let inv = Reach-Inv (start-Inv k buffer small) run in (inv.pending, inv.queue, inv.contents)
