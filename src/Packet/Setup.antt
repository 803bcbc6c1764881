-- ===== src/Packet/Setup.antt =====
-- What `setup_socket` makes of the answers of the system.
use vmars.Prelude.{
  get_elem?, ℕ, zero, suc, ◌+◌, ◌*◌, ◌%◌, ◌^◌, ◌≤◌, ◌<◌, ◌≡◌, ◌↔◌, refl, sym, ap, Bool, List, ◌∷◌,
  Option, none, some, arith,
}
use mathlib.Core.Option.{some-injective}
use vmars.Prelude.Int.{ℤ, pos, negsuc}
use vmars.Packet.Socket.{
  Req, Ring, packet_version, packet_rx_ring, packet_fanout, Call, socket, setsockopt, mmap, bind,
  Os, Attempt, continue, non_negative, only_zero, blocksiz, blocknum, req, map_len, fill_rd,
  checked, zero_checked, mapped, setup_socket,
}

continue_inv {ℓ κ} :
    {A : Type ℓ} {B : Type κ} (m : Option A × List Call) (f : A → Attempt B) (b : B)
    → (continue m f).0 ≡ some b
    → (a : A) × (m.0 ≡ some a) × ((f a m.1).0 ≡ some b)
continue_inv (none, calls) f b e = absurd (ground arith)
continue_inv (some a, calls) f b e = (a, refl, e)

non_negative_inv : (r : ℤ) (n : ℕ) → non_negative r ≡ some n → r ≡ pos n
non_negative_inv (pos m) n e = ground arith
non_negative_inv (negsuc m) n e = absurd (ground arith)

only_zero_inv : (r : ℤ) (n : ℕ) → only_zero r ≡ some n → r ≡ pos 0
only_zero_inv (pos zero) n e = refl
only_zero_inv (pos (suc m)) n e = absurd (ground arith)
only_zero_inv (negsuc m) n e = absurd (ground arith)

abbrev pub ring_of : ℕ → ℕ → Ring
ring_of fanout_id map = record {
  rd = fill_rd blocknum 0 map req;
  map = map;
  req = req;
  fanout_id = fanout_id;
}

module _ (os : Os) (fanout_id : ℕ) (netdev : List ℕ) (calls : List Call) where
  open os use {result, address, if_nametoindex}

  checked_inv {κ} :
      {B : Type κ} (c : Call) (before : List Call) (f : ℕ → Attempt B) (b : B)
      → (continue (checked os c before) f).0 ≡ some b
      → (n : ℕ) × (result before c ≡ pos n) × ((f n (c ∷ before)).0 ≡ some b)
  unfolding checked
  checked_inv c before f b e =
      let (n, r, rest) = continue_inv (non_negative (result before c), c ∷ before) f b e in
      (n, non_negative_inv (result before c) n r, rest)

  zero_checked_inv {κ} :
      {B : Type κ} (c : Call) (before : List Call) (f : ℕ → Attempt B) (b : B)
      → (continue (zero_checked os c before) f).0 ≡ some b
      → (n : ℕ) × (result before c ≡ pos 0) × ((f n (c ∷ before)).0 ≡ some b)
  unfolding zero_checked
  zero_checked_inv c before f b e =
      let (n, r, rest) = continue_inv (only_zero (result before c), c ∷ before) f b e in
      (n, only_zero_inv (result before c) n r, rest)

  mapped_inv {κ} :
      {B : Type κ} (c : Call) (before : List Call) (f : ℕ → Attempt B) (b : B)
      → (continue (mapped os c before) f).0 ≡ some b
      → (n : ℕ) × (address before c ≡ some n) × ((f n (c ∷ before)).0 ≡ some b)
  unfolding mapped
  mapped_inv c before f b e = continue_inv (address before c, c ∷ before) f b e

  -- The six calls that have to succeed, in their order, each after those before it.
  pub record IsReady (fd map : ℕ) : Type 0 where
    pub opened : result calls socket ≡ pos fd
    pub version : (n : ℕ) × (result (socket ∷ calls) (setsockopt fd packet_version) ≡ pos n)
    pub rx_ring :
        (n : ℕ) × (result
            (setsockopt fd packet_version ∷ socket ∷ calls)
            (setsockopt fd (packet_rx_ring req))
          ≡ pos n)
    pub at :
        address
          (setsockopt fd (packet_rx_ring req) ∷ setsockopt fd packet_version ∷ socket ∷ calls)
          (mmap fd (map_len req))
        ≡ some map
    pub bound :
        (n : ℕ) × (result
            (mmap fd (map_len req)
              ∷ setsockopt fd (packet_rx_ring req)
              ∷ setsockopt fd packet_version
              ∷ socket
              ∷ calls)
            (bind fd (if_nametoindex netdev))
          ≡ pos n)
    pub fanned :
        result
          (bind fd (if_nametoindex netdev)
            ∷ mmap fd (map_len req)
            ∷ setsockopt fd (packet_rx_ring req)
            ∷ setsockopt fd packet_version
            ∷ socket
            ∷ calls)
          (setsockopt fd (packet_fanout fanout_id))
        ≡ pos 0

  pub setup_socket-ready :
      (fd map : ℕ) (hw : Bool)
      → IsReady fd map
      → (setup_socket os fanout_id netdev hw calls).0 ≡ some (fd, ring_of fanout_id map)
  unfolding setup_socket checked zero_checked mapped
  setup_socket-ready fd map hw r =
      rw (r.opened, r.version.1, r.rx_ring.1, r.at, r.bound.1, r.fanned) refl

  IsReady-same :
      (fd' fd map : ℕ) (ring : Ring)
      → IsReady fd' map
      → fd' ≡ fd
      → ring_of fanout_id map ≡ ring
      → (map : ℕ) × (ring ≡ ring_of fanout_id map) × IsReady fd map
  IsReady-same fd' fd map ring ready same_fd same_ring = (map, sym same_ring, rw same_fd at ready)

  setup_socket_inv :
      (fd : ℕ) (ring : Ring) (hw : Bool)
      → (setup_socket os fanout_id netdev hw calls).0 ≡ some (fd, ring)
      → (map : ℕ) × (ring ≡ ring_of fanout_id map) × IsReady fd map
  unfolding setup_socket
  setup_socket_inv fd ring hw e =
      let (fd', opened, e1) = checked_inv _ _ _ _ e in
      let (n2, version, e2) = checked_inv _ _ _ _ e1 in
      let (n3, rx_ring, e3) = checked_inv _ _ _ _ e2 in
      let (map, at, e4) = mapped_inv _ _ _ _ e3 in
      let (n5, bound, e5) = checked_inv _ _ _ _ e4 in
      let (n6, fanned, e6) = zero_checked_inv _ _ _ _ e5 in
      let ready : IsReady fd' map = record {
        opened = opened;
        version = (n2, version);
        rx_ring = (n3, rx_ring);
        at = at;
        bound = (n5, bound);
        fanned = fanned;
      } in
      let same = some-injective _ _ e6 in
      IsReady-same fd' fd map ring ready (ap (λ r. r.0) same) (ap (λ r. r.1) same)

  -- Opening the capture socket succeeds exactly if the six calls that it needs do: then it returns
  -- the descriptor that the first one gave, and the ring at the address that the kernel mapped.
  -- Whether hardware timestamps are asked for, and what their two calls answer, makes no difference.
  pub setup_socket_iff :
      (fd : ℕ) (ring : Ring) (hw : Bool)
      → ((setup_socket os fanout_id netdev hw calls).0 ≡ some (fd, ring))
        ↔ ((map : ℕ) × (ring ≡ ring_of fanout_id map) × IsReady fd map)
  setup_socket_iff fd ring hw =
      (setup_socket_inv fd ring hw, λ r. rw r.1 (setup_socket-ready fd r.0 hw r.2))

get_elem?-fill_rd :
    (n i j map : ℕ) (r : Req)
    → j < n
    → get_elem? (fill_rd n i map r) j
      ≡ some (record {
        iov_base = map + (i + j) * r.tp_block_size % 2 ^ 32;
        iov_len = r.tp_block_size;
      })
unfolding fill_rd
get_elem?-fill_rd zero i j map r lt = absurd (omega arith)
get_elem?-fill_rd (suc n) i zero map r lt = let e : i + 0 ≡ i = omega arith in rw e refl
get_elem?-fill_rd (suc n) i (suc j) map r lt =
    let e : i + suc j ≡ i + 1 + j = omega arith in
    rw e (get_elem?-fill_rd n (i + 1) j map r (omega arith))

-- The 64 blocks of the ring lie in the memory that was mapped, one behind the other, with no gap
-- and no overlap: block k begins k times 2^22 bytes behind the start, whatever the width of the
-- products, and the last one ends where the mapping ends.
pub fill_rd-blocks :
    (map k : ℕ)
    → k < blocknum
    → (get_elem? (fill_rd blocknum 0 map req) k
        ≡ some (record { iov_base = map + k * blocksiz; iov_len = blocksiz }))
      × (map + k * blocksiz + blocksiz ≤ map + map_len req)
      × (map + blocknum * blocksiz ≡ map + map_len req)
fill_rd-blocks map k lt =
    let small : (0 + k) * blocksiz % 2 ^ 32 ≡ k * blocksiz = omega arith in
    (rw small at (get_elem?-fill_rd blocknum 0 k map req lt), omega arith, refl)
