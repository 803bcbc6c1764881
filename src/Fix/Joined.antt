-- ===== src/Fix/Joined.antt =====
-- The rest of a message in `vmars_extract_fix_messages` of src/fix.c, after its first part.
use vmars.Prelude.Nul.{HasNoNul-take-drop, HasNoNul}
use vmars.Prelude.{
  ℕ, ◌+◌, ◌-◌, ◌^◌, ◌≤◌, ◌<◌, ◌≡◌, refl, ap, ◌∙◌, true, false, List, some, arith, Pointer,
  pointer_to, length, length-drop, ltb, take, drop,
}
use vmars.KHash.{KHash}
use vmars.Search.Correct.{Occurs}
use vmars.Parser.Defs.{ok}
use vmars.Parser.Number.{Stands, Stands-pointer_to}
use vmars.Ring.Defs.{word}
use vmars.Fix.Process.{Context, process_for_latency_measurement}
use vmars.Fix.Fragments.{Ipv4Stream, Fragment, fragment_capacity, get_fragment, append_fragment}
use vmars.Fix.Extract.{
  count_result, after_fragment, complete_fragment, handle_leading, message_loop, keep_rest,
  first_message, vmars_extract_fix_messages,
}
use vmars.Fix.Messages.{
  begin_string, Message, encode_message, IsMessage, details_of, counted, measured,
}
use vmars.Fix.Next.{IsBegin, search-none-start}
use vmars.Fix.Stored.{
  fragments_of, with_fragments, get_fragment_lem, append_fragment_lem, remove_fragment_lem,
  process-state,
}
use vmars.Fix.Split.{length-take, take-drop}
use vmars.Fix.Whole.{try_parse-message}

module _ (table : KHash Ipv4Stream Fragment) (stream_id : Ipv4Stream) (tv_sec tv_nsec : ℕ)
    (p : Pointer) where
  open table use {Map, kh_get, kh_put, kh_del, get-put, key_equal_iff}

  abbrev pub fragment_of : List ℕ → Fragment
  fragment_of xs = record { capacity = fragment_capacity; s = xs }

  abbrev pub joined : Map → Message → Map
  joined map m = kh_put map stream_id (fragment_of (encode_message m))

  -- The message measured, and its fragment no longer kept.
  abbrev pub completed : Context Map → Map → Message → Context Map
  completed ctx map m =
      with_fragments table (measured tv_sec tv_nsec (with_fragments table ctx (joined map m)) m)
        (kh_del (joined map m) stream_id)

  after_fragment-ok :
      (data_len : ℕ) (ctx : Context Map) (map : Map) (m : Message)
      → after_fragment table stream_id tv_sec tv_nsec p data_len ok
          (counted (with_fragments table ctx (joined map m)))
          (details_of m)
        ≡ completed ctx map m
  unfolding after_fragment
  after_fragment-ok data_len ctx map m =
      let at_end = counted (with_fragments table ctx (joined map m)) in
      let after = process_for_latency_measurement at_end tv_sec tv_nsec (details_of m) in
      remove_fragment_lem table after (joined map m) stream_id (fragment_of (encode_message m))
        (process-state at_end tv_sec tv_nsec (details_of m))
        (ground (
          arith,
          get-put map stream_id (fragment_of (encode_message m)) stream_id,
          key_equal_iff stream_id stream_id,
        ))

  append-joined :
      (ctx : Context Map) (map : Map) (m : Message) (len : ℕ)
      → ctx.state ≡ some map
      → HasNoNul (encode_message m)
      → Stands (drop len (encode_message m)) p 0
      → append_fragment table ctx stream_id
          (fragment_of (take len (encode_message m)))
          p
          (length (encode_message m) - len)
        ≡ (with_fragments table ctx (joined map m), fragment_of (encode_message m))
  append-joined ctx map m len old clean s =
      let rest = drop len (encode_message m) in
      let added =
        append_fragment_lem table ctx map stream_id (fragment_of (take len (encode_message m))) rest
          p old s (HasNoNul-take-drop len (encode_message m) clean).1 in
      rw (length-drop len (encode_message m), take-drop len (encode_message m)) at added

  complete_fragment-rest :
      (ctx : Context Map) (map : Map) (m : Message) (len : ℕ)
      → ctx.state ≡ some map
      → IsMessage m
      → HasNoNul (encode_message m)
      → Stands (drop len (encode_message m)) p 0
      → len < length (encode_message m)
      → length (encode_message m) < fragment_capacity
      → complete_fragment table stream_id tv_sec tv_nsec p
          (length (encode_message m) - len)
          ctx
          (fragment_of (take len (encode_message m)))
          (length (encode_message m) - len)
        ≡ some (completed ctx map m)
  unfolding complete_fragment count_result
  complete_fragment-rest ctx map m len old h clean s cut fits =
      let bytes = encode_message m in
      let added = append-joined ctx map m len old clean s in
      let parsed =
        try_parse-message (with_fragments table ctx (joined map m)) m (pointer_to bytes)
          (length bytes) h (Stands-pointer_to bytes) (omega arith) (omega arith) in
      let size : length (take len bytes) + (length bytes - len) ≡ length bytes =
        omega (arith, length-take len bytes) in
      let room : ltb (word (length bytes)) fragment_capacity ≡ true = ground arith in
      let copied : ltb fragment_capacity (length bytes - len) ≡ false = ground arith in
      simp
        (
          complete_fragment,
          added,
          size,
          room,
          copied,
          parsed,
          after_fragment-ok (length bytes - len) ctx map m,
        )
        refl

  pub extract-rest :
      (ctx : Context Map) (map : Map) (m : Message) (len : ℕ)
      → ctx.state ≡ some map
      → kh_get map stream_id ≡ some (fragment_of (take len (encode_message m)))
      → IsBegin ctx.matcher
      → IsMessage m
      → HasNoNul (encode_message m)
      → Stands (drop len (encode_message m)) p 0
      → len < length (encode_message m)
      → length (encode_message m) < fragment_capacity
      → ((o : ℕ)
          → o + length begin_string ≤ length (encode_message m) - len
          → ¬ Occurs begin_string p o)
      → vmars_extract_fix_messages table stream_id tv_sec tv_nsec p
          (length (encode_message m) - len)
          ctx
        ≡ some (completed ctx map m)
  unfolding vmars_extract_fix_messages first_message keep_rest handle_leading message_loop
  extract-rest ctx map m len old found e h clean s cut fits apart =
      let left = length (encode_message m) - len in
      let int_len : ltb left (2 ^ 31) ≡ true = ground arith in
      let nowhere = search-none-start p left e apart (omega arith) in
      let same : fragments_of table ctx ≡ map = rw old refl in
      let fragments : get_fragment table ctx stream_id
          ≡ some (fragment_of (take len (encode_message m))) =
        get_fragment_lem table ctx stream_id ∙ ap (λ m. kh_get m stream_id) same ∙ found in
      let done = complete_fragment-rest ctx map m len old h clean s cut fits in
      let leading : handle_leading table stream_id tv_sec tv_nsec p left ctx left
          ≡ some (completed ctx map m) =
        simp (handle_leading, fragments, done) refl in
      let end : left - left ≡ 0 = omega arith in rw (int_len, nowhere, leading, end) refl

module _ {Map : Type 0} where
  -- What is measured depends on the counters and the ring buffer only.
  pub process-with_fragments :
      (table_state : Context Map) (ctx : Context Map) (s n : ℕ) (m : Message)
      → table_state.counters ≡ ctx.counters
      → table_state.rb ≡ ctx.rb
      → ((measured s n table_state m).counters ≡ (measured s n ctx m).counters)
        × ((measured s n table_state m).rb ≡ (measured s n ctx m).rb)
  unfolding process_for_latency_measurement
  process-with_fragments other ctx s n m a b = ground arith
