-- ===== src/Fix/Fragments.antt =====
-- The fragments of fix.c: what is kept of a stream until the rest of its message arrives.
use vmars.Prelude.{
  ℕ, ◌+◌, ◌-◌, ◌*◌, ◌%◌, ◌^◌, ◌≡◌, Bool, true, ◌&&◌, ◌↔◌, List, ◌++◌, Option, none, some, Pointer,
  slice, ltb, ◌==◌, if◌then◌else◌, arith,
}
use vmars.KHash.{KHash}
use vmars.Fix.Process.{Context, strncpy}

-- `ipv4_stream_t`
pub record Ipv4Stream : Type 0 where
  pub saddr : ℕ
  pub daddr : ℕ
  pub sport : ℕ
  pub dport : ℕ

unfoldable pub ipv4_stream_hash : Ipv4Stream → ℕ
ipv4_stream_hash id =
    let r1 = (id.saddr * 31 + id.daddr) % 2 ^ 32 in
    let r2 = (r1 * 31 + id.sport) % 2 ^ 32 in (r2 * 31 + id.dport) % 2 ^ 32

unfoldable pub ipv4_stream_equal : Ipv4Stream → Ipv4Stream → Bool
ipv4_stream_equal a b =
    a.saddr == b.saddr && a.daddr == b.daddr && a.sport == b.sport && a.dport == b.dport

-- `fragment_t`: the `len` bytes that it holds.
pub record Fragment : Type 0 where
  pub capacity : ℕ
  pub s : List ℕ

-- MAX_FRAGMENT_TOTAL_SIZE - sizeof(fragment_t)
abbrev pub fragment_capacity : ℕ
fragment_capacity = 4096 - 8

module _ (table : KHash Ipv4Stream Fragment) where
  open table use {Map, kh_init, kh_get, kh_put, kh_del}

  unfoldable pub get_fragment : Context Map → Ipv4Stream → Option Fragment
  get_fragment ctx stream_id = elim ctx.state [
    | none ↦ none
    | some fragment_map ↦ kh_get fragment_map stream_id
  ]

  -- The fragment of the stream, a new one if there is none; `none` for bytes past its buffer's end.
  unfoldable pub put_fragment : Context Map → Ipv4Stream → Pointer → ℕ → Option (Context Map)
  put_fragment ctx stream_id messsage len =
      let fragment_map : Map = elim ctx.state [ none ↦ kh_init | some m ↦ m ] in
      let capacity : ℕ = elim (kh_get fragment_map stream_id) [
        | none ↦ fragment_capacity
        | some f ↦ f.capacity
      ] in
      let fragment : Fragment = record {
        capacity = capacity;
        s = strncpy (slice messsage 0 len);
      } in
      if ltb capacity len
      then none
      else some (record ctx { state = some (kh_put fragment_map stream_id fragment) })

  unfoldable pub remove_fragment : Context Map → Ipv4Stream → Context Map
  remove_fragment ctx stream_id = elim ctx.state [
    | none ↦ ctx
    | some fragment_map ↦ elim (kh_get fragment_map stream_id) [
      | none ↦ ctx
      | some _ ↦ record ctx { state = some (kh_del fragment_map stream_id) }
    ]
  ]

  -- `strncpy(&fragment->s[fragment->len], …)`, `fragment->len += fragment_len`: the fragment in
  -- the map, and the fragment itself.
  unfoldable pub append_fragment :
      Context Map → Ipv4Stream → Fragment → Pointer → ℕ → Context Map × Fragment
  append_fragment ctx stream_id fragment data_ptr fragment_len =
      let longer : Fragment = record fragment {
        s = fragment.s ++ strncpy (slice data_ptr 0 fragment_len);
      } in
      let ctx' : Context Map = elim ctx.state [
        | none ↦ ctx
        | some fragment_map ↦ record ctx { state = some (kh_put fragment_map stream_id longer) }
      ] in
      (ctx', longer)

-- Streams are equal exactly if all four of their parts are, and equal streams have one hash: what
-- khash.h asks of the two functions.
pub ipv4_stream_equal_iff :
    (a b : Ipv4Stream)
    → ((ipv4_stream_equal a b ≡ true) ↔ (a ≡ b))
      × (ipv4_stream_equal a b ≡ true → ipv4_stream_hash a ≡ ipv4_stream_hash b)
unfolding ipv4_stream_equal ipv4_stream_hash
ipv4_stream_equal_iff a b = (ground arith, λ e. ground arith)
