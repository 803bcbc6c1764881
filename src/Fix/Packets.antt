-- ===== src/Fix/Packets.antt =====
-- One message in two packets, through `vmars_extract_fix_messages` of src/fix.c.
use vmars.Prelude.Nul.{HasNoNul}
use vmars.Prelude.{
  [], Option, ℕ, ◌+◌, ◌-◌, ◌≤◌, ◌<◌, ◌≡◌, refl, sym, ◌∙◌, some, none, arith, Pointer, length, take,
  drop,
}
use vmars.Parser.Defs.{◌>>=◌}
use vmars.KHash.{KHash}
use vmars.Search.Correct.{Occurs}
use vmars.Parser.Number.{Stands}
use vmars.Fix.Process.{Context}
use vmars.Fix.Fragments.{Ipv4Stream, Fragment, fragment_capacity, get_fragment}
use vmars.Fix.Extract.{vmars_extract_fix_messages}
use vmars.Fix.Messages.{begin_string, Message, encode_message, IsMessage, measured}
use vmars.Fix.Next.{IsBegin}
use vmars.Fix.Parts.{Part, message_in_parts}

bind_some : {A : Type 0} (o : Option A) → (o >>= λ a. some a) ≡ o
bind_some none = refl
bind_some (some a) = refl

module _ (table : KHash Ipv4Stream Fragment) (stream_id : Ipv4Stream) (sec1 nsec1 sec2 nsec2 : ℕ)
    (p q : Pointer) where
  open table use {Map, kh_get, kh_put, kh_del, get-put, key_equal_iff}

  -- A message that arrives in two packets is measured once, with the time of the second: the first
  -- packet leaves the counters and the ring buffer alone, and after the second they are what the
  -- whole message in one packet makes of them, and each stream has the fragment that it had before.
  -- The message can be written, holds no NUL and is shorter than a fragment's buffer, either part
  -- of it has a byte at least, the pattern stands nowhere but at its beginning, and nothing is kept
  -- of the stream before.
  pub split_message :
      (ctx : Context Map) (m : Message) (len : ℕ)
      → IsBegin ctx.matcher
      → IsMessage m
      → HasNoNul (encode_message m)
      → length (encode_message m) < fragment_capacity
      → 0 < len
      → len < length (encode_message m)
      → Stands (take len (encode_message m)) p 0
      → Stands (drop len (encode_message m)) q 0
      → ((o : ℕ) → 0 < o → o + length begin_string ≤ len → ¬ Occurs begin_string p o)
      → ((o : ℕ)
          → o + length begin_string ≤ length (encode_message m) - len
          → ¬ Occurs begin_string q o)
      → get_fragment table ctx stream_id ≡ none
      → (ctx1 ctx2 : Context Map) × (vmars_extract_fix_messages table stream_id sec1 nsec1 p len ctx
          ≡ some ctx1)
        × (vmars_extract_fix_messages table stream_id sec2 nsec2 q
              (length (encode_message m) - len)
              ctx1
            ≡ some ctx2)
        × (ctx1.counters ≡ ctx.counters)
        × (ctx1.rb ≡ ctx.rb)
        × (ctx2.counters ≡ (measured sec2 nsec2 ctx m).counters)
        × (ctx2.rb ≡ (measured sec2 nsec2 ctx m).rb)
        × ((id : Ipv4Stream) → get_fragment table ctx2 id ≡ get_fragment table ctx id)
  split_message ctx m len e h clean fits some_len cut s1 s2 apart1 apart2 new =
      let first : Part = record { payload = p; size = len; tv_sec = sec1; tv_nsec = nsec1 } in
      let last : Part = record {
        payload = q;
        size = length (encode_message m) - len;
        tv_sec = sec2;
        tv_nsec = nsec2;
      } in
      let end : len + 0 ≡ len = omega arith in
      let (ctx1, ctx2, one, other, a, b, c, d, fragments) =
        message_in_parts table stream_id ctx m first [] last e h clean fits some_len (omega arith)
          (omega arith) s1 apart1 tt (rw end s2) apart2 new in
      (ctx1, ctx2, sym (bind_some _) ∙ one, other, a, b, c, d, fragments)
