-- ===== src/Fix/Loop.antt =====
-- The fuel of the loop over the messages of a packet, in src/fix.c.
use vmars.Prelude.{
  ℕ, zero, suc, ◌+◌, ◌-◌, ◌≤◌, ◌<◌, ◌≡◌, refl, Option, none, some, arith, Pointer, advance,
  Option-cases, inl, inr,
}
use vmars.KHash.{KHash}
use vmars.Parser.Defs.{
  ok, message_too_short, checksum_invalid, tag_invalid, empty_value, invalid_type, Code,
  ParseResult, vmars_fix_parse_msg,
}
use vmars.Parser.Sound.{bytes_consumed-pos}
use vmars.Fix.Details.{FixDetails, no_details, details_callbacks}
use vmars.Fix.Process.{Context, process_for_latency_measurement}
use vmars.Fix.Fragments.{Ipv4Stream, Fragment, put_fragment}
use vmars.Fix.Extract.{
  try_parse_fix_message, process_if_ok, next_message, handle_message, message_loop, after_parse,
}

pub process-matcher :
    {Map : Type 0} (ctx : Context Map) (s n : ℕ) (d : FixDetails)
    → (process_for_latency_measurement ctx s n d).matcher ≡ ctx.matcher
unfolding process_for_latency_measurement
process-matcher ctx s n d = ground arith

process_if_ok-matcher :
    {Map : Type 0} (code : Code) (ctx : Context Map) (s n : ℕ) (d : FixDetails)
    → (process_if_ok code ctx s n d).matcher ≡ ctx.matcher
process_if_ok-matcher ok ctx s n d = process-matcher ctx s n d
process_if_ok-matcher message_too_short ctx s n d = refl
process_if_ok-matcher checksum_invalid ctx s n d = refl
process_if_ok-matcher tag_invalid ctx s n d = refl
process_if_ok-matcher empty_value ctx s n d = refl
process_if_ok-matcher invalid_type ctx s n d = refl

module _ (table : KHash Ipv4Stream Fragment) (stream_id : Ipv4Stream) (tv_sec tv_nsec : ℕ)
    (data_ptr : Pointer) (data_len : ℕ) where
  open table use {Map}

  put_fragment-matcher :
      (ctx ctx' : Context Map) (p : Pointer) (len : ℕ)
      → put_fragment table ctx stream_id p len ≡ some ctx'
      → ctx'.matcher ≡ ctx.matcher
  unfolding put_fragment
  put_fragment-matcher ctx ctx' p len e = ground arith

  -- The next message lies behind the current one, by the length of the pattern at least, and is
  -- looked for only if more bytes than that are left.
  next_message-bounds :
      (ctx : Context Map) (curr left q : ℕ)
      → next_message table stream_id tv_sec tv_nsec data_ptr data_len ctx curr left ≡ some q
      → (curr + ctx.matcher.len ≤ q) × (ctx.matcher.len < left)
  unfolding next_message
  next_message-bounds ctx curr left q e = ground arith

  after_parse-matcher :
      (code : Code) (ctx ctx' : Context Map) (d : FixDetails) (curr len : ℕ)
      → after_parse table stream_id tv_sec tv_nsec data_ptr data_len code ctx d curr len ≡ some ctx'
      → ctx'.matcher ≡ ctx.matcher
  unfolding after_parse
  after_parse-matcher ok ctx ctx' d curr len e =
      ground (arith, process-matcher ctx tv_sec tv_nsec d)
  after_parse-matcher message_too_short ctx ctx' d curr len e =
      put_fragment-matcher ctx ctx' (advance data_ptr curr) len e
  after_parse-matcher checksum_invalid ctx ctx' d curr len e = ground arith
  after_parse-matcher tag_invalid ctx ctx' d curr len e = ground arith
  after_parse-matcher empty_value ctx ctx' d curr len e = ground arith
  after_parse-matcher invalid_type ctx ctx' d curr len e = ground arith

  try_parse-progress :
      (ctx : Context Map) (p : Pointer) (len : ℕ) (r : Context Map × FixDetails × ParseResult)
      → try_parse_fix_message ctx p len ≡ some r
      → 0 < len
      → (r.0.matcher ≡ ctx.matcher) × (0 < r.2.bytes_consumed)
  unfolding try_parse_fix_message
  try_parse-progress ctx p len r e more =
      elim (Option-cases (vmars_fix_parse_msg details_callbacks 0 p len no_details)) [
        | inl undefined ↦ absurd (ground arith)
        | inr (out, parse) ↦
            let some_consumed =
              bytes_consumed-pos details_callbacks 0 p len no_details out parse more in
            ground arith
      ]

  handle_message-progress :
      (ctx : Context Map) (curr q left : ℕ) (out : Context Map × ℕ)
      → handle_message table stream_id tv_sec tv_nsec data_ptr data_len ctx curr (some q) left
        ≡ some out
      → curr < q
      → 0 < left
      → (out.0.matcher ≡ ctx.matcher) × (out.1 < left)
  unfolding handle_message
  handle_message-progress ctx curr q left out e ahead more =
      elim (Option-cases (try_parse_fix_message ctx (advance data_ptr curr) (q - curr))) [
        | inl undefined ↦ absurd (ground arith)
        | inr (r, parse) ↦
            let made =
              try_parse-progress ctx (advance data_ptr curr) (q - curr) r parse (omega arith) in
            elim (Option-cases (
              after_parse table stream_id tv_sec tv_nsec data_ptr data_len r.2.result r.0 r.1 curr
                (q - curr))) [
                  | inl undefined ↦ absurd (ground arith)
                  | inr (ctx', done) ↦
                      let kept = after_parse-matcher r.2.result r.0 ctx' r.1 curr (q - curr) done in
                      ground arith
                ]
      ]

  pub message_loop-end :
      (fuel : ℕ) (ctx : Context Map) (left : ℕ)
      → message_loop table stream_id tv_sec tv_nsec data_ptr data_len fuel ctx none left
        ≡ some (ctx, left)
  unfolding message_loop
  message_loop-end zero ctx left = refl
  message_loop-end (suc fuel) ctx left = refl

  -- A finite run of the loop of the source, turn by turn, with the number of its turns: from the
  -- state at a test of `curr` to the state behind the loop, or to a turn that is undefined.
  pub data Run : ℕ → Context Map → Option ℕ → ℕ → Option (Context Map × ℕ) → Type 0 where
    stop : {ctx : Context Map} {left : ℕ} → Run 0 ctx none left (some (ctx, left))
    undefined :
        {ctx : Context Map} {curr left : ℕ} {next : Option ℕ}
        → next_message table stream_id tv_sec tv_nsec data_ptr data_len ctx curr left ≡ next
        → handle_message table stream_id tv_sec tv_nsec data_ptr data_len ctx curr next left ≡ none
        → Run 1 ctx (some curr) left none
    turn :
        {n : ℕ} {ctx ctx' : Context Map} {curr left left' : ℕ} {next : Option ℕ}
        {result : Option (Context Map × ℕ)}
        → next_message table stream_id tv_sec tv_nsec data_ptr data_len ctx curr left ≡ next
        → handle_message table stream_id tv_sec tv_nsec data_ptr data_len ctx curr next left
          ≡ some (ctx', left')
        → Run n ctx' next left' result
        → Run (suc n) ctx (some curr) left result

  -- The loop over the messages of a packet ends: there is a finite run of its turns, at most one
  -- more than the number of bytes left, and with more fuel than bytes left the model's result is the
  -- result of this run, which is undefined only if a turn of it is. The pattern that is searched
  -- for is not empty.
  pub message_loop-Run :
      (fuel : ℕ) (ctx : Context Map) (curr : Option ℕ) (left : ℕ)
      → 0 < ctx.matcher.len
      → left < fuel
      → (n : ℕ) × (n ≤ left + 1)
        × Run n ctx curr left
            (message_loop table stream_id tv_sec tv_nsec data_ptr data_len fuel ctx curr left)
  unfolding message_loop
  message_loop-Run zero ctx curr left pattern enough = absurd (omega arith)
  message_loop-Run (suc fuel) ctx none left pattern enough = (0, omega arith, stop)
  message_loop-Run (suc fuel) ctx (some curr) left pattern enough =
      let next = next_message table stream_id tv_sec tv_nsec data_ptr data_len ctx curr left in
      let handle = handle_message table stream_id tv_sec tv_nsec data_ptr data_len ctx curr in
      elim (Option-cases next) [
        | inl last ↦ elim (Option-cases (handle none left)) [
          | inl wrong ↦ (1, omega arith, rw (last, wrong) (undefined last wrong))
          | inr (out, done) ↦ (
            1,
            omega arith,
            rw (last, done, message_loop-end fuel out.0 out.1) (turn last done stop),
          )
        ]
        | inr (q, found) ↦ elim (Option-cases (handle (some q) left)) [
          | inl wrong ↦ (1, omega arith, rw (found, wrong) (undefined found wrong))
          | inr (out, done) ↦
              let ahead = next_message-bounds ctx curr left q found in
              let (same, less) =
                handle_message-progress ctx curr q left out done (omega arith) (omega arith) in
              let (n, few, run) =
                message_loop-Run fuel out.0 (some q) out.1 (rw same pattern) (omega arith) in
              (suc n, omega arith, rw (found, done) (turn found done run))
        ]
      ]
