-- ===== src/Fix/Middle.antt =====
-- A packet with neither the beginning nor the end of a message, in `vmars_extract_fix_messages` of
-- src/fix.c.
use vmars.Prelude.Nul.{HasNoNul-take-drop, HasNoNul}
use vmars.Prelude.{
  ℕ, zero, suc, ◌+◌, ◌-◌, ◌^◌, ◌≤◌, ◌<◌, ◌≡◌, refl, ap, ◌∙◌, true, false, List, [], ◌∷◌, ◌++◌, some,
  arith, Pointer, pointer_to, length, length-drop, ltb, take, drop,
}
use vmars.KHash.{KHash}
use vmars.Search.Correct.{Occurs}
use vmars.Parser.Number.{Stands, Stands-pointer_to}
use vmars.Ring.Defs.{word}
use vmars.Fix.Process.{Context}
use vmars.Fix.Fragments.{Ipv4Stream, Fragment, fragment_capacity, get_fragment, append_fragment}
use vmars.Fix.Extract.{
  after_fragment, complete_fragment, handle_leading, message_loop, keep_rest, first_message,
  vmars_extract_fix_messages,
}
use vmars.Fix.Messages.{begin_string, Message, encode_message}
use vmars.Fix.Next.{IsBegin, search-none-start}
use vmars.Fix.Stored.{fragments_of, with_fragments, get_fragment_lem, append_fragment_lem}
use vmars.Fix.Split.{length-take, try_parse-cut}
use vmars.Fix.Joined.{fragment_of}

take-add : (len n : ℕ) (xs : List ℕ) → take len xs ++ take n (drop len xs) ≡ take (len + n) xs
take-add zero n xs = let e : 0 + n ≡ n = omega arith in rw e refl
take-add (suc len) zero [] = let e : suc len + 0 ≡ suc len = omega arith in rw e refl
take-add (suc len) (suc n) [] =
    let e : suc len + suc n ≡ suc (len + suc n) = omega arith in rw e refl
take-add (suc len) n (x ∷ xs) =
    let e : suc len + n ≡ suc (len + n) = omega arith in rw e (ap (λ l. x ∷ l) (take-add len n xs))

module _ (table : KHash Ipv4Stream Fragment) (stream_id : Ipv4Stream) (tv_sec tv_nsec : ℕ)
    (p : Pointer) where
  open table use {Map, kh_get, kh_put}

  -- The map with the fragment that is the first `len` bytes of a message.
  abbrev pub with_part : Map → Message → ℕ → Map
  with_part map m len =
      kh_put map stream_id
        (fragment_of table stream_id tv_sec tv_nsec p (take len (encode_message m)))

  append-part :
      (ctx : Context Map) (map : Map) (m : Message) (len n : ℕ)
      → ctx.state ≡ some map
      → HasNoNul (encode_message m)
      → Stands (take n (drop len (encode_message m))) p 0
      → len + n < length (encode_message m)
      → append_fragment table ctx stream_id
          (fragment_of table stream_id tv_sec tv_nsec p (take len (encode_message m)))
          p
          n
        ≡ (
          with_fragments table ctx (with_part map m (len + n)),
          fragment_of table stream_id tv_sec tv_nsec p (take (len + n) (encode_message m)),
        )
  append-part ctx map m len n old clean s cut =
      let bytes = encode_message m in
      let rest = drop len bytes in
      let size : length (take n rest) ≡ n =
        length-take n rest (omega (arith, length-drop len bytes)) in
      let no_nul = (HasNoNul-take-drop n rest (HasNoNul-take-drop len bytes clean).1).0 in
      let added =
        append_fragment_lem table ctx map stream_id
          (fragment_of table stream_id tv_sec tv_nsec p (take len bytes)) (take n rest) p old s
          no_nul in
      rw (size, take-add len n bytes) at added

  complete_fragment-part :
      (ctx : Context Map) (map : Map) (m : Message) (len n : ℕ)
      → ctx.state ≡ some map
      → HasNoNul (encode_message m)
      → Stands (take n (drop len (encode_message m))) p 0
      → len + n < length (encode_message m)
      → length (encode_message m) ≤ fragment_capacity
      → complete_fragment table stream_id tv_sec tv_nsec p n ctx
          (fragment_of table stream_id tv_sec tv_nsec p (take len (encode_message m)))
          n
        ≡ some (with_fragments table ctx (with_part map m (len + n)))
  unfolding complete_fragment after_fragment
  complete_fragment-part ctx map m len n old clean s cut fits =
      let bytes = encode_message m in
      let joined = with_fragments table ctx (with_part map m (len + n)) in
      let added = append-part ctx map m len n old clean s cut in
      let more = length-take (len + n) bytes (omega arith) in
      let parsed =
        try_parse-cut table stream_id tv_sec tv_nsec p joined m (pointer_to (take (len + n) bytes))
          (len + n) (Stands-pointer_to (take (len + n) bytes)) cut (omega arith) in
      let size : length (take len bytes) + n ≡ len + n = omega (arith, length-take len bytes) in
      let room : ltb (word (len + n)) fragment_capacity ≡ true = ground arith in
      let copied : ltb fragment_capacity n ≡ false = ground arith in
      simp (complete_fragment, after_fragment, added, size, more, room, copied, parsed) refl

  pub extract-middle :
      (ctx : Context Map) (map : Map) (m : Message) (len n : ℕ)
      → ctx.state ≡ some map
      → kh_get map stream_id
        ≡ some (fragment_of table stream_id tv_sec tv_nsec p (take len (encode_message m)))
      → IsBegin ctx.matcher
      → HasNoNul (encode_message m)
      → Stands (take n (drop len (encode_message m))) p 0
      → len + n < length (encode_message m)
      → length (encode_message m) ≤ fragment_capacity
      → ((o : ℕ) → o + length begin_string ≤ n → ¬ Occurs begin_string p o)
      → vmars_extract_fix_messages table stream_id tv_sec tv_nsec p n ctx
        ≡ some (with_fragments table ctx (with_part map m (len + n)))
  unfolding vmars_extract_fix_messages first_message keep_rest handle_leading message_loop
  extract-middle ctx map m len n old found e clean s cut fits apart =
      let int_len : ltb n (2 ^ 31) ≡ true = ground arith in
      let nowhere = search-none-start p n e apart (omega arith) in
      let same : fragments_of table ctx ≡ map = rw old refl in
      let fragments : get_fragment table ctx stream_id
          ≡ some (fragment_of table stream_id tv_sec tv_nsec p (take len (encode_message m))) =
        get_fragment_lem table ctx stream_id ∙ ap (λ m. kh_get m stream_id) same ∙ found in
      let done = complete_fragment-part ctx map m len n old clean s cut fits in
      let leading : handle_leading table stream_id tv_sec tv_nsec p n ctx n
          ≡ some (with_fragments table ctx (with_part map m (len + n))) =
        simp (handle_leading, fragments, done) refl in
      let end : n - n ≡ 0 = omega arith in rw (int_len, nowhere, leading, end) refl
