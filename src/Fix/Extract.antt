-- ===== src/Fix/Extract.antt =====
-- `vmars_extract_fix_messages`: the FIX messages of one packet, and of the fragment before it.
-- `none` is undefined behaviour: an overflow in the parser, or a fragment larger than its buffer.
use vmars.Prelude.{
  ℕ, zero, suc, ◌+◌, ◌-◌, ◌^◌, Bool, false, Option, none, some, Pointer, advance, pointer_to,
  length, ltb, ◌==◌, if◌then◌else◌,
}
use vmars.KHash.{KHash}
use vmars.Counters.{Counters, increment}
use vmars.Search.{boyermoore_search}
use vmars.Parser.Defs.{
  Code, ok, message_too_short, checksum_invalid, ParseResult, vmars_fix_parse_msg, ◌>>=◌,
}
use vmars.Ring.Defs.{word}
use vmars.Fix.Details.{FixDetails, no_details, details_callbacks}
use vmars.Fix.Process.{Context, process_for_latency_measurement}
use vmars.Fix.Fragments.{
  Ipv4Stream, Fragment, get_fragment, put_fragment, remove_fragment, append_fragment,
}

-- What the result of a parse counts as.
unfoldable pub count_result : Counters → Code → Counters
count_result c ok = record c { valid_messages = increment c.valid_messages }
count_result c message_too_short = c
count_result c checksum_invalid = record c { invalid_checksums = increment c.invalid_checksums }
count_result c _ = record c { parsing_errors = increment c.parsing_errors }

module _ {Map : Type 0} where
  unfoldable pub try_parse_fix_message :
      Context Map → Pointer → ℕ → Option (Context Map × FixDetails × ParseResult)
  try_parse_fix_message ctx fix_messsage fix_message_len =
      vmars_fix_parse_msg details_callbacks 0 fix_messsage fix_message_len no_details
      >>= λ (r : FixDetails × ParseResult).
          some (record ctx { counters = count_result ctx.counters r.1.result }, r.0, r.1)

  -- A message that parsed is measured.
  abbrev pub process_if_ok : Code → Context Map → ℕ → ℕ → FixDetails → Context Map
  process_if_ok ok ctx tv_sec tv_nsec d = process_for_latency_measurement ctx tv_sec tv_nsec d
  process_if_ok _ ctx tv_sec tv_nsec d = ctx

module _ (table : KHash Ipv4Stream Fragment) (stream_id : Ipv4Stream) (tv_sec tv_nsec : ℕ)
    (data_ptr : Pointer) (data_len : ℕ) where
  open table use {Map}

  -- What is done with a fragment after it was parsed.
  unfoldable pub after_fragment : Code → Context Map → FixDetails → Context Map
  after_fragment message_too_short ctx d = ctx
  after_fragment code ctx d =
      remove_fragment table (process_if_ok code ctx tv_sec tv_nsec d) stream_id

  -- The packet's first `fragment_len` bytes, behind a fragment of the stream. The sum of the sizes
  -- may wrap; the copy is then one of more bytes than the fragment has room for.
  unfoldable pub complete_fragment : Context Map → Fragment → ℕ → Option (Context Map)
  complete_fragment ctx fragment fragment_len =
      let (joined, longer) = append_fragment table ctx stream_id fragment data_ptr fragment_len in
      let done =
        try_parse_fix_message joined (pointer_to longer.s) (length longer.s)
        >>= λ (r : Context Map × FixDetails × ParseResult).
            some (after_fragment r.2.result r.0 r.1) in
      let checked = if ltb fragment.capacity fragment_len then none else done in
      if ltb (word (length fragment.s + fragment_len)) fragment.capacity then checked else some ctx

  -- The packet does not begin with a message.
  unfoldable pub handle_leading : Context Map → ℕ → Option (Context Map)
  handle_leading ctx fragment_len = elim (get_fragment table ctx stream_id) [
    | none ↦
        if ltb data_len ctx.matcher.len
        then put_fragment table ctx stream_id data_ptr data_len
        else some (record ctx {
          counters = record ctx.counters {
            corrupt_messages = increment ctx.counters.corrupt_messages;
          };
        })
    | some fragment ↦ complete_fragment ctx fragment fragment_len
  ]

  -- One turn of the loop, up to the assignments at its end. Positions are offsets into the packet.
  unfoldable pub next_message : Context Map → ℕ → ℕ → Option ℕ
  next_message ctx curr buf_remaining =
      let len = ctx.matcher.len in
      if ltb len buf_remaining
      then elim (boyermoore_search ctx.matcher (advance data_ptr (curr + len))
          (buf_remaining - len)) [ none ↦ none | some p ↦ some (curr + len + p) ]
      else none

  -- What is done with the message at `curr` after it was parsed.
  unfoldable pub after_parse : Code → Context Map → FixDetails → ℕ → ℕ → Option (Context Map)
  after_parse message_too_short ctx d curr fix_message_len =
      put_fragment table ctx stream_id (advance data_ptr curr) fix_message_len
  after_parse code ctx d curr fix_message_len = some (process_if_ok code ctx tv_sec tv_nsec d)

  unfoldable pub handle_message : Context Map → ℕ → Option ℕ → ℕ → Option (Context Map × ℕ)
  handle_message ctx curr next buf_remaining =
      let fix_message_len : ℕ = elim next [ none ↦ buf_remaining | some p ↦ p - curr ] in
      try_parse_fix_message ctx (advance data_ptr curr) fix_message_len
      >>= λ (r : Context Map × FixDetails × ParseResult).
          after_parse r.2.result r.0 r.1 curr fix_message_len >>= λ (ctx' : Context Map).
          some (ctx', buf_remaining - r.2.bytes_consumed)

  -- The loop, with NULL for `curr` at its end; each turn consumes a byte at least.
  unfoldable pub message_loop : ℕ → Context Map → Option ℕ → ℕ → Option (Context Map × ℕ)
  message_loop fuel ctx none buf_remaining = some (ctx, buf_remaining)
  message_loop zero ctx (some curr) buf_remaining = none
  message_loop (suc fuel) ctx (some curr) buf_remaining =
      let next = next_message ctx curr buf_remaining in
      handle_message ctx curr next buf_remaining >>= λ (r : Context Map × ℕ).
      message_loop fuel r.0 next r.1

  -- What the parser left over is kept as a fragment.
  unfoldable pub keep_rest : Context Map → ℕ → Option (Context Map)
  keep_rest ctx buf_remaining =
      if ltb 0 buf_remaining
      then put_fragment table ctx stream_id (advance data_ptr (data_len - buf_remaining))
          buf_remaining
      else some ctx

  -- The first search. A `data_len` that is negative as an `int` leaves nothing to search.
  unfoldable pub first_message : Context Map → Option ℕ
  first_message ctx =
      if ltb data_len (2 ^ 31) then boyermoore_search ctx.matcher data_ptr data_len else none

  unfoldable pub vmars_extract_fix_messages : Context Map → Option (Context Map)
  vmars_extract_fix_messages ctx =
      let curr = first_message ctx in
      let fragment_len : ℕ = elim curr [ none ↦ data_len | some p ↦ p ] in
      let leading = handle_leading ctx fragment_len in
      let starts : Bool = elim curr [ none ↦ false | some p ↦ p == 0 ] in
      (if starts then some ctx else leading) >>= λ (ctx' : Context Map).
      message_loop (data_len + 1) ctx' curr (data_len - fragment_len) >>= λ (r : Context Map × ℕ).
      keep_rest r.0 r.1
