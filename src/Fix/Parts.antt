-- ===== src/Fix/Parts.antt =====
-- One message in any number of packets, through `vmars_extract_fix_messages` of src/fix.c.
use vmars.Prelude.Nul.{HasNoNul}
use vmars.Prelude.{
  ℕ, ◌+◌, ◌-◌, ◌≤◌, ◌<◌, ◌≡◌, refl, sym, ◌∙◌, inl, inr, Bool-cases, false, List, [], ◌∷◌, Option,
  some, none, arith, Pointer, length, take, drop,
}
use vmars.KHash.{KHash}
use vmars.Search.Correct.{Occurs}
use vmars.Parser.Defs.{◌>>=◌}
use vmars.Parser.Number.{Stands}
use vmars.Fix.Process.{Context}
use vmars.Fix.Fragments.{Ipv4Stream, Fragment, fragment_capacity, get_fragment}
use vmars.Fix.Extract.{vmars_extract_fix_messages}
use vmars.Fix.Messages.{begin_string, Message, encode_message, IsMessage, measured}
use vmars.Fix.Next.{IsBegin}
use vmars.Fix.Stored.{fragments_of, with_fragments, get_fragment_lem}
use vmars.Fix.Split.{kept, extract-first_part}
use vmars.Fix.Joined.{joined, completed, extract-rest, process-with_fragments}
use vmars.Fix.Middle.{with_part, extract-middle}

-- A packet's payload of `size` bytes, and its time.
pub record Part : Type 0 where
  pub payload : Pointer
  pub size : ℕ
  pub tv_sec : ℕ
  pub tv_nsec : ℕ

abbrev pub size_of : List Part → ℕ
size_of [] = 0
size_of (q ∷ qs) = q.size + size_of qs

-- The pattern stands nowhere in the payload.
abbrev pub IsFree : Part → Type 0
IsFree q = (o : ℕ) → o + length begin_string ≤ q.size → ¬ Occurs begin_string q.payload o

-- The payloads are what stands in the message from byte `len` on, and the pattern is in none.
abbrev pub AreParts : Message → ℕ → List Part → Type 0
AreParts m len [] = Unit
AreParts m len (q ∷ qs) =
    Stands (take q.size (drop len (encode_message m))) q.payload 0
    × IsFree q
    × AreParts m (len + q.size) qs

module _ (table : KHash Ipv4Stream Fragment) (stream_id : Ipv4Stream) where
  open table use {Map, key_equal, key_equal_iff, kh_get, kh_put, kh_del, get-put, get-del}

  abbrev pub extract : Part → Context Map → Option (Context Map)
  extract q ctx = vmars_extract_fix_messages table stream_id q.tv_sec q.tv_nsec q.payload q.size ctx

  -- The packets in order.
  abbrev pub extract_all : List Part → Context Map → Option (Context Map)
  extract_all [] ctx = some ctx
  extract_all (q ∷ qs) ctx = extract q ctx >>= extract_all qs

  -- The first `len` bytes have arrived since `ctx`: they are the stream's fragment, and all else is
  -- as it was.
  record Waits (ctx ctx' : Context Map) (m : Message) (len : ℕ) : Type 0 where
    pub map : Map
    pub state : ctx'.state ≡ some map
    pub found :
        kh_get map stream_id
        ≡ some (record { capacity = fragment_capacity; s = take len (encode_message m) })
    pub others :
        (j : Ipv4Stream)
        → key_equal stream_id j ≡ false
        → kh_get map j ≡ kh_get (fragments_of table ctx) j
    pub counters : ctx'.counters ≡ ctx.counters
    pub rb : ctx'.rb ≡ ctx.rb
    pub matcher : ctx'.matcher ≡ ctx.matcher

  get-put_same : (map : Map) (f : Fragment) → kh_get (kh_put map stream_id f) stream_id ≡ some f
  get-put_same map f =
      ground (arith, get-put map stream_id f stream_id, key_equal_iff stream_id stream_id)

  get-put_other :
      (map : Map) (f : Fragment) (j : Ipv4Stream)
      → key_equal stream_id j ≡ false
      → kh_get (kh_put map stream_id f) j ≡ kh_get map j
  get-put_other map f j other = ground (arith, get-put map stream_id f j)

  module _ (ctx : Context Map) (m : Message) (begin : IsBegin ctx.matcher)
      (clean : HasNoNul (encode_message m))
      (fits : length (encode_message m) < fragment_capacity) where
    first-Waits :
        (q : Part)
        → 0 < q.size
        → q.size < length (encode_message m)
        → Stands (take q.size (encode_message m)) q.payload 0
        → ((o : ℕ) → 0 < o → o + length begin_string ≤ q.size → ¬ Occurs begin_string q.payload o)
        → get_fragment table ctx stream_id ≡ none
        → (ctx' : Context Map) × (extract q ctx ≡ some ctx') × Waits ctx ctx' m q.size
    first-Waits q more cut s apart new =
        let part = take q.size (encode_message m) in
        let first =
          extract-first_part table stream_id q.tv_sec q.tv_nsec q.payload ctx m q.size begin more
            cut (omega arith) clean s apart new in
        (
          kept table stream_id q.tv_sec q.tv_nsec q.payload ctx part,
          first,
          record {
            map = _;
            state = refl;
            found = get-put_same (fragments_of table ctx) _;
            others = get-put_other (fragments_of table ctx) _;
            counters = refl;
            rb = refl;
            matcher = refl;
          },
        )

    middle-Waits :
        (q : Part) (ctx' : Context Map) (len : ℕ)
        → Waits ctx ctx' m len
        → Stands (take q.size (drop len (encode_message m))) q.payload 0
        → IsFree q
        → len + q.size < length (encode_message m)
        → (ctx'' : Context Map) × (extract q ctx' ≡ some ctx'') × Waits ctx ctx'' m (len + q.size)
    middle-Waits q ctx' len w s free cut =
        let part = take (len + q.size) (encode_message m) in
        let next =
          extract-middle table stream_id q.tv_sec q.tv_nsec q.payload ctx' w.map m len q.size
            w.state w.found (rw w.matcher begin) clean s cut (omega arith) free in
        (
          with_fragments table ctx'
              (with_part table stream_id q.tv_sec q.tv_nsec q.payload w.map m (len + q.size)),
          next,
          record {
            map = _;
            state = refl;
            found = get-put_same w.map _;
            others = λ j other. get-put_other w.map _ j other ∙ w.others j other;
            counters = w.counters;
            rb = w.rb;
            matcher = w.matcher;
          },
        )

    middles-Waits :
        (qs : List Part) (ctx' : Context Map) (len : ℕ)
        → Waits ctx ctx' m len
        → AreParts m len qs
        → len + size_of qs < length (encode_message m)
        → (ctx'' : Context Map) × (extract_all qs ctx' ≡ some ctx'')
          × Waits ctx ctx'' m (len + size_of qs)
    middles-Waits [] ctx' len w parts cut =
        let e : len + 0 ≡ len = omega arith in (ctx', refl, rw e w)
    middles-Waits (q ∷ qs) ctx' len w parts cut =
        let (ctx1, one, w1) = middle-Waits q ctx' len w parts.0 parts.1 (omega arith) in
        let (ctx2, rest, w2) = middles-Waits qs ctx1 (len + q.size) w1 parts.2 (omega arith) in
        let e : len + (q.size + size_of qs) ≡ len + q.size + size_of qs = omega arith in
        (ctx2, rw one rest, rw e w2)

  get-completed :
      (map map' : Map) (f : Fragment) (j : Ipv4Stream)
      → kh_get map stream_id ≡ none
      → ((j : Ipv4Stream) → key_equal stream_id j ≡ false → kh_get map' j ≡ kh_get map j)
      → kh_get (kh_del (kh_put map' stream_id f) stream_id) j ≡ kh_get map j
  get-completed map map' f j free others = elim (Bool-cases (key_equal stream_id j)) [
    | inl same ↦
        ground (arith, get-del (kh_put map' stream_id f) stream_id j, key_equal_iff stream_id j)
    | inr other ↦ ground (
      arith,
      get-del (kh_put map' stream_id f) stream_id j,
      get-put map' stream_id f j,
      others j other,
    )
  ]

  -- A message that arrives in two packets or more is measured once, with the time of the last: the
  -- packets before it leave the counters and the ring buffer alone, and after it they are what the
  -- whole message in one packet makes of them, and each stream has the fragment that it had before.
  -- The message can be written, holds no NUL and is shorter than a fragment's buffer, the first and
  -- the last packet have a byte of it at least, the pattern stands nowhere in a packet but at the
  -- beginning of the first, and nothing is kept of the stream before.
  pub message_in_parts :
      (ctx : Context Map) (m : Message) (first : Part) (middle : List Part) (last : Part)
      → IsBegin ctx.matcher
      → IsMessage m
      → HasNoNul (encode_message m)
      → length (encode_message m) < fragment_capacity
      → 0 < first.size
      → 0 < last.size
      → first.size + size_of middle + last.size ≡ length (encode_message m)
      → Stands (take first.size (encode_message m)) first.payload 0
      → ((o : ℕ)
          → 0 < o
          → o + length begin_string ≤ first.size
          → ¬ Occurs begin_string first.payload o)
      → AreParts m first.size middle
      → Stands (drop (first.size + size_of middle) (encode_message m)) last.payload 0
      → IsFree last
      → get_fragment table ctx stream_id ≡ none
      → (ctx1 ctx2 : Context Map) × (extract_all (first ∷ middle) ctx ≡ some ctx1)
        × (extract last ctx1 ≡ some ctx2)
        × (ctx1.counters ≡ ctx.counters)
        × (ctx1.rb ≡ ctx.rb)
        × (ctx2.counters ≡ (measured last.tv_sec last.tv_nsec ctx m).counters)
        × (ctx2.rb ≡ (measured last.tv_sec last.tv_nsec ctx m).rb)
        × ((id : Ipv4Stream) → get_fragment table ctx2 id ≡ get_fragment table ctx id)
  message_in_parts ctx m first middle last begin h clean fits some_first some_last whole s1 apart
        parts s2 free new =
      let len = first.size + size_of middle in
      let (ctx0, one, w0) =
        first-Waits ctx m begin clean fits first some_first (omega arith) s1 apart new in
      let (ctx1, others, w) =
        middles-Waits ctx m begin clean fits middle ctx0 first.size w0 parts (omega arith) in
      let rest : length (encode_message m) - len ≡ last.size = omega arith in
      let done =
        extract-rest table stream_id last.tv_sec last.tv_nsec last.payload ctx1 w.map m len w.state
          w.found (rw w.matcher begin) h clean s2 (omega arith) fits (rw rest free) in
      let at_end =
        with_fragments table ctx1
          (joined table stream_id last.tv_sec last.tv_nsec last.payload w.map m) in
      let (a, b) = process-with_fragments at_end ctx last.tv_sec last.tv_nsec m w.counters w.rb in
      let ctx2 = completed table stream_id last.tv_sec last.tv_nsec last.payload ctx1 w.map m in
      let empty = sym (get_fragment_lem table ctx stream_id) ∙ new in
      (
        ctx1,
        ctx2,
        rw one others,
        rw rest at done,
        w.counters,
        w.rb,
        a,
        b,
        λ id.
            get_fragment_lem table ctx2 id
            ∙ get-completed (fragments_of table ctx) w.map _ id empty w.others
            ∙ sym (get_fragment_lem table ctx id),
      )
