-- ===== src/Packet/Socket.antt =====
-- `setup_socket` and `teardown_socket` of src/packet.c. The system calls are parameters: each
-- answers to the calls that were made before it, the last one first. Messages are left out.
use vmars.Prelude.{
  ℕ, zero, suc, ◌+◌, ◌*◌, ◌/◌, ◌%◌, ◌^◌, Bool, List, [], ◌∷◌, Option, none, some, take,
  if◌then◌else◌,
}
use vmars.Prelude.Int.{ℤ, pos, negsuc}

-- `struct iovec`
pub record Iovec : Type 0 where
  pub iov_base : ℕ
  pub iov_len : ℕ

-- What is set of `struct tpacket_req3`.
pub record Req : Type 0 where
  pub tp_block_size : ℕ
  pub tp_frame_size : ℕ
  pub tp_block_nr : ℕ
  pub tp_frame_nr : ℕ
  pub tp_retire_blk_tov : ℕ
  pub tp_feature_req_word : ℕ

-- `struct ring`
pub record Ring : Type 0 where
  pub rd : List Iovec
  pub map : ℕ
  pub req : Req
  pub fanout_id : ℕ

pub data SockOpt : Type 0 where
  packet_version : SockOpt
  packet_rx_ring : Req → SockOpt
  packet_fanout : ℕ → SockOpt
  packet_timestamp : SockOpt

pub data Call : Type 0 where
  socket : Call
  setsockopt : ℕ → SockOpt → Call
  mmap : ℕ → ℕ → Call
  bind : ℕ → ℕ → Call
  ioctl_hwtstamp : ℕ → List ℕ → Call
  setaffinity : ℕ → Call
  munmap : ℕ → ℕ → Call
  close : ℕ → Call

-- `address` is what mmap returns, `none` for MAP_FAILED; `ifnamsiz` is the size of `ifr_name`.
pub record Os : Type 0 where
  pub result : List Call → Call → ℤ
  pub address : List Call → Call → Option ℕ
  pub if_nametoindex : List ℕ → ℕ
  pub ifnamsiz : ℕ

-- A result, or an early return, with the calls that were made.
abbrev pub Attempt {ℓ} : Type ℓ → Type ℓ
Attempt A = List Call → Option A × List Call

abbrev pub continue {ℓ κ} :
    {A : Type ℓ} {B : Type κ} → Option A × List Call → (A → Attempt B) → Option B × List Call
continue (none, calls) f = (none, calls)
continue (some a, calls) f = f a calls

infixl 5 ◌>>=◌
abbrev pub ◌>>=◌ {ℓ κ} : {A : Type ℓ} {B : Type κ} → Attempt A → (A → Attempt B) → Attempt B
(m >>= f) calls = continue (m calls) f

abbrev pub non_negative : ℤ → Option ℕ
non_negative (pos n) = some n
non_negative (negsuc n) = none

abbrev pub only_zero : ℤ → Option ℕ
only_zero (pos zero) = some 0
only_zero _ = none

abbrev pub blocksiz : ℕ
blocksiz = 2 ^ 22

abbrev pub framesiz : ℕ
framesiz = 2 ^ 11

abbrev pub blocknum : ℕ
blocknum = 64

-- The products are of `unsigned int`.
-- The bit TP_FT_REQ_FILL_RXHASH of linux/if_packet.h.
abbrev tp_ft_req_fill_rxhash : ℕ
tp_ft_req_fill_rxhash = 1

abbrev pub req : Req
req = record {
  tp_block_size = blocksiz;
  tp_frame_size = framesiz;
  tp_block_nr = blocknum;
  tp_frame_nr = blocksiz * blocknum % 2 ^ 32 / framesiz;
  tp_retire_blk_tov = 60;
  tp_feature_req_word = tp_ft_req_fill_rxhash;
}

abbrev pub map_len : Req → ℕ
map_len r = r.tp_block_size * r.tp_block_nr % 2 ^ 32

-- The loop over `rd`, from `i` on, for `n` rounds.
unfoldable pub fill_rd : ℕ → ℕ → ℕ → Req → List Iovec
fill_rd zero i map r = []
fill_rd (suc n) i map r =
    record { iov_base = map + i * r.tp_block_size % 2 ^ 32; iov_len = r.tp_block_size }
    ∷ fill_rd n (i + 1) map r

module _ (os : Os) where
  open os use {result, address, if_nametoindex, ifnamsiz}

  -- A call whose negative result ends the function.
  unfoldable pub checked : Call → Attempt ℕ
  checked c calls = (non_negative (result calls c), c ∷ calls)

  -- A call whose result ends the function if it is not 0.
  unfoldable pub zero_checked : Call → Attempt ℕ
  zero_checked c calls = (only_zero (result calls c), c ∷ calls)

  unfoldable pub mapped : Call → Attempt ℕ
  mapped c calls = (address calls c, c ∷ calls)

  -- The two calls for hardware timestamps, which may fail.
  unfoldable pub enable_hw_timestamps : ℕ → List ℕ → List Call → List Call
  enable_hw_timestamps fd netdev calls =
      let hwtstamp = ioctl_hwtstamp fd (take ifnamsiz netdev) in
      elim (result calls hwtstamp) [
        | negsuc _ ↦ hwtstamp ∷ calls
        | pos _ ↦ setsockopt fd packet_timestamp ∷ hwtstamp ∷ calls
      ]

  -- `none` is -1.
  unfoldable pub setup_socket : ℕ → List ℕ → Bool → Attempt (ℕ × Ring)
  setup_socket fanout_id netdev use_hw_timestamps = do
    fd ← checked socket
    _ ← checked (setsockopt fd packet_version)
    _ ← checked (setsockopt fd (packet_rx_ring req))
    map ← mapped (mmap fd (map_len req))
    _ ← checked (bind fd (if_nametoindex netdev))
    _ ← zero_checked (setsockopt fd (packet_fanout fanout_id))
    λ calls. (
      some (
        fd,
        record { rd = fill_rd blocknum 0 map req; map = map; req = req; fanout_id = fanout_id },
      ),
      (if use_hw_timestamps then enable_hw_timestamps fd netdev calls else calls),
    )

unfoldable pub teardown_socket : Ring → ℕ → List Call → List Call
teardown_socket ring fd calls = close fd ∷ munmap ring.map (map_len ring.req) ∷ calls
