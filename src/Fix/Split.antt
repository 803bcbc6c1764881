-- ===== src/Fix/Split.antt =====
-- The first part of a message in `vmars_extract_fix_messages` of src/fix.c.
use native.Mathlib.Decide.{dec_lt}
use vmars.Prelude.Nul.{HasNoNul-take-drop, HasNoNul}
use vmars.Prelude.{
  ℕ, zero, suc, ◌+◌, ◌-◌, ◌^◌, ◌≤◌, ◌<◌, ◌≡◌, refl, ap, true, List, [], ◌∷◌, ◌++◌, none, some,
  arith, Pointer, advance, length, ltb, take, drop,
}
use vmars.KHash.{KHash}
use vmars.Search.Correct.{Occurs}
use vmars.Parser.Defs.{message_too_short, int_max}
use vmars.Parser.Encode.{Field, Version, encode, fix42, fix44}
use vmars.Parser.Number.{Stands}
use vmars.Parser.RoundTrip.{Stands-advance}
use vmars.Parser.Cut.{parse-cut, Stands-take_both}
use vmars.Fix.Details.{no_details, details_callbacks}
use vmars.Fix.Process.{Context}
use vmars.Fix.Fragments.{Ipv4Stream, Fragment, fragment_capacity, get_fragment}
use vmars.Fix.Extract.{
  count_result, try_parse_fix_message, after_parse, handle_leading, next_message, handle_message,
  message_loop, keep_rest, first_message, vmars_extract_fix_messages,
}
use vmars.Fix.Loop.{message_loop-end}
use vmars.Fix.Messages.{begin_string, Message, encode_message, Occurs-Stands}
use vmars.Fix.Next.{IsBegin, IsBegin-len, search-some-start, search-none-start, next_message-none}
use vmars.Fix.Stored.{fragments_of, with_fragments, put_fragment-new}

pub length-take : (k : ℕ) (xs : List ℕ) → k ≤ length xs → length (take k xs) ≡ k
length-take zero xs h = refl
length-take (suc k) [] h = absurd (omega arith)
length-take (suc k) (x ∷ xs) h = ap suc (length-take k xs (omega arith))

pub take-drop : (k : ℕ) (xs : List ℕ) → take k xs ++ drop k xs ≡ xs
take-drop zero xs = refl
take-drop (suc k) [] = refl
take-drop (suc k) (x ∷ xs) = ap (λ l. x ∷ l) (take-drop k xs)

encode-tail :
    (v : Version) (fs : List Field) → (rest : List ℕ) × (encode v fs ≡ begin_string ++ rest)
encode-tail fix42 fs = (_, refl)
encode-tail fix44 fs = (_, refl)

begin-cut :
    (m : Message) (p : Pointer) (len : ℕ)
    → Stands (take len (encode_message m)) p 0
    → length begin_string ≤ len
    → Occurs begin_string p 0
begin-cut m p len s le =
    let (rest, e) = encode-tail m.version (m.first ∷ m.others) in
    Occurs-Stands begin_string p 0 (Stands-take_both len begin_string rest p 0 (rw e at s) le).0

module _ (table : KHash Ipv4Stream Fragment) (stream_id : Ipv4Stream) (tv_sec tv_nsec : ℕ)
    (p : Pointer) where
  open table use {Map, kh_put}

  -- The fragment map with a first fragment for the stream.
  abbrev pub kept : Context Map → List ℕ → Context Map
  kept ctx xs =
      with_fragments table ctx (
        kh_put (fragments_of table ctx) stream_id (record { capacity = fragment_capacity; s = xs }))

  pub try_parse-cut :
      (ctx : Context Map) (m : Message) (q : Pointer) (len : ℕ)
      → Stands (take len (encode_message m)) q 0
      → len < length (encode_message m)
      → length (encode_message m) ≤ int_max
      → try_parse_fix_message ctx q len
        ≡ some (ctx, no_details, record { result = message_too_short; bytes_consumed = len })
  unfolding try_parse_fix_message count_result
  try_parse-cut ctx m q len s cut limit =
      rw (parse-cut details_callbacks 0 q m.version m.first m.others len no_details s cut limit)
        refl

  handle_message-cut :
      (ctx : Context Map) (m : Message) (len : ℕ)
      → Stands (take len (encode_message m)) p 0
      → HasNoNul (encode_message m)
      → len < length (encode_message m)
      → length (encode_message m) ≤ fragment_capacity
      → get_fragment table ctx stream_id ≡ none
      → handle_message table stream_id tv_sec tv_nsec p len ctx 0 none len
        ≡ some (kept ctx (take len (encode_message m)), 0)
  unfolding handle_message after_parse
  handle_message-cut ctx m len s clean cut fits new =
      let first = take len (encode_message m) in
      let size = length-take len (encode_message m) (omega arith) in
      let there = Stands-advance first p 0 0 s in
      let parsed = try_parse-cut ctx m (advance p 0) len there cut (omega arith) in
      let put =
        put_fragment-new table ctx stream_id first (advance p 0) new there
          (HasNoNul-take-drop len (encode_message m) clean).0 (omega arith) in
      let rest : len - len ≡ 0 = omega arith in rw (parsed, rw size at put, rest) refl

  handle_leading-short :
      (ctx : Context Map) (m : Message) (len : ℕ)
      → IsBegin ctx.matcher
      → len < length begin_string
      → len < length (encode_message m)
      → HasNoNul (encode_message m)
      → Stands (take len (encode_message m)) p 0
      → get_fragment table ctx stream_id ≡ none
      → handle_leading table stream_id tv_sec tv_nsec p len ctx len
        ≡ some (kept ctx (take len (encode_message m)))
  unfolding handle_leading
  handle_leading-short ctx m len e short cut clean s new =
      let first = take len (encode_message m) in
      let size = length-take len (encode_message m) (omega arith) in
      let put =
        put_fragment-new table ctx stream_id first p new s
          (HasNoNul-take-drop len (encode_message m) clean).0 (omega arith) in
      let pattern = IsBegin-len e in
      let too_short : ltb len ctx.matcher.len ≡ true = ground arith in
      simp (handle_leading, new, too_short, rw size at put) refl

  message_loop-single :
      (ctx ctx' : Context Map) (len : ℕ)
      → next_message table stream_id tv_sec tv_nsec p len ctx 0 len ≡ none
      → handle_message table stream_id tv_sec tv_nsec p len ctx 0 none len ≡ some (ctx', 0)
      → message_loop table stream_id tv_sec tv_nsec p len (len + 1) ctx (some 0) len
        ≡ some (ctx', 0)
  unfolding message_loop
  message_loop-single ctx ctx' len last turn =
      let fuel : len + 1 ≡ suc len = omega arith in
      rw (fuel, last, turn) (message_loop-end table stream_id tv_sec tv_nsec p len len ctx' 0)

  -- The first packet: any first part of a message, of at least one byte.
  pub extract-first_part :
      (ctx : Context Map) (m : Message) (len : ℕ)
      → IsBegin ctx.matcher
      → 0 < len
      → len < length (encode_message m)
      → length (encode_message m) ≤ fragment_capacity
      → HasNoNul (encode_message m)
      → Stands (take len (encode_message m)) p 0
      → ((o : ℕ) → 0 < o → o + length begin_string ≤ len → ¬ Occurs begin_string p o)
      → get_fragment table ctx stream_id ≡ none
      → vmars_extract_fix_messages table stream_id tv_sec tv_nsec p len ctx
        ≡ some (kept ctx (take len (encode_message m)))
  unfolding vmars_extract_fix_messages first_message keep_rest handle_leading message_loop
  extract-first_part ctx m len e more cut fits clean s apart new =
      elim (dec_lt len (length begin_string)) [
        | yes short ↦
            let int_len : ltb len (2 ^ 31) ≡ true = ground arith in
            let nowhere =
              search-none-start p len e (λ o room there. absurd (omega arith)) (omega arith) in
            let leading = handle_leading-short ctx m len e short cut clean s new in
            let rest : len - len ≡ 0 = omega arith in rw (int_len, nowhere, leading, rest) refl
        | no long ↦
            let int_len : ltb len (2 ^ 31) ≡ true = ground arith in
            let here = begin-cut m p len s (omega arith) in
            let found = search-some-start p len e here (omega arith) (omega arith) in
            let whole : len - 0 ≡ len = omega arith in
            let last =
              next_message-none table stream_id tv_sec tv_nsec p len ctx 0 len e
                (λ o lt fits. apart o lt (omega arith)) (omega arith) in
            let turn = handle_message-cut ctx m len s clean cut fits new in
            rw (int_len, found, whole, message_loop-single ctx _ len last turn) refl
      ]
