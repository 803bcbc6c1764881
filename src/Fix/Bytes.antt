-- ===== src/Fix/Bytes.antt =====
-- `bytes_total` in the extraction of src/fix.c.
use vmars.Prelude.{
  ◌-◌, advance, ℕ, zero, suc, ◌+◌, ◌≡◌, refl, ap, ◌∙◌, Option, none, some, arith, Pointer, Bool,
  true, false, ◌==◌, Option-cases, inl, inr, length, pointer_to, if◌then◌else◌,
}
use vmars.KHash.{KHash}
use vmars.Counters.{Counters}
use vmars.Parser.Defs.{
  ok, message_too_short, checksum_invalid, tag_invalid, empty_value, invalid_type, Code,
  ParseResult, vmars_fix_parse_msg, ◌>>=◌,
}
use vmars.Parser.Sound.{bind-eq-some}
use vmars.Fix.Details.{FixDetails, no_details, details_callbacks}
use vmars.Fix.Process.{Context, process_for_latency_measurement, record_message_type_counter}
use vmars.Fix.Fragments.{
  Ipv4Stream, Fragment, get_fragment, put_fragment, append_fragment, remove_fragment,
}
use vmars.Fix.Extract.{
  count_result, try_parse_fix_message, process_if_ok, after_fragment, complete_fragment,
  handle_leading, next_message, after_parse, handle_message, message_loop, keep_rest, first_message,
  vmars_extract_fix_messages,
}

abbrev pub bytes_total_of : {Map : Type 0} → Context Map → ℕ
bytes_total_of ctx = ctx.counters.bytes_total

-- A step that may fail, and that leaves the counter alone if it does not.
abbrev pub Keeps : {Map : Type 0} → Context Map → Option (Context Map) → Type 0
Keeps {Map} ctx m = (ctx' : Context Map) → m ≡ some ctx' → bytes_total_of ctx' ≡ bytes_total_of ctx

pub Keeps-bind :
    {Map : Type 0} (ctx : Context Map) (m : Option (Context Map))
    (f : Context Map → Option (Context Map))
    → Keeps ctx m
    → ((c : Context Map) → Keeps c (f c))
    → Keeps ctx (m >>= f)
Keeps-bind ctx m f h k ctx' e =
    let (c, first, second) = bind-eq-some m f e in k c ctx' second ∙ h c first

begin-bytes :
    {Map : Type 0} (starts : Bool) (ctx : Context Map) (leading : Option (Context Map))
    → Keeps ctx leading
    → Keeps ctx (if starts then some ctx else leading)
begin-bytes true ctx leading h ctx' e = ground arith
begin-bytes false ctx leading h ctx' e = h ctx' e

count_result-bytes :
    (c : Counters) (code : Code) → (count_result c code).bytes_total ≡ c.bytes_total
unfolding count_result
count_result-bytes c ok = refl
count_result-bytes c message_too_short = refl
count_result-bytes c checksum_invalid = refl
count_result-bytes c tag_invalid = refl
count_result-bytes c empty_value = refl
count_result-bytes c invalid_type = refl

type_counter-bytes :
    (c : Counters) (t : ℕ) → (record_message_type_counter c t).bytes_total ≡ c.bytes_total
unfolding record_message_type_counter
type_counter-bytes c t = ground arith

module _ {Map : Type 0} where
  process-bytes :
      (ctx : Context Map) (s n : ℕ) (d : FixDetails)
      → bytes_total_of (process_for_latency_measurement ctx s n d) ≡ bytes_total_of ctx
  unfolding process_for_latency_measurement
  process-bytes ctx s n d = ground (arith, type_counter-bytes ctx.counters d.message_type)

  process_if_ok-bytes :
      (code : Code) (ctx : Context Map) (s n : ℕ) (d : FixDetails)
      → bytes_total_of (process_if_ok code ctx s n d) ≡ bytes_total_of ctx
  process_if_ok-bytes ok ctx s n d = process-bytes ctx s n d
  process_if_ok-bytes message_too_short ctx s n d = refl
  process_if_ok-bytes checksum_invalid ctx s n d = refl
  process_if_ok-bytes tag_invalid ctx s n d = refl
  process_if_ok-bytes empty_value ctx s n d = refl
  process_if_ok-bytes invalid_type ctx s n d = refl

  try_parse-bytes :
      (ctx : Context Map) (p : Pointer) (len : ℕ) (r : Context Map × FixDetails × ParseResult)
      → try_parse_fix_message ctx p len ≡ some r
      → bytes_total_of r.0 ≡ bytes_total_of ctx
  unfolding try_parse_fix_message
  try_parse-bytes ctx p len r e =
      elim (Option-cases (vmars_fix_parse_msg details_callbacks 0 p len no_details)) [
        | inl undefined ↦ absurd (ground arith)
        | inr (out, parse) ↦ ground (arith, count_result-bytes ctx.counters out.1.result)
      ]

module _ (table : KHash Ipv4Stream Fragment) (stream_id : Ipv4Stream) where
  open table use {Map}

  put_fragment-bytes :
      (ctx : Context Map) (p : Pointer) (len : ℕ)
      → Keeps ctx (put_fragment table ctx stream_id p len)
  unfolding put_fragment
  put_fragment-bytes ctx p len ctx' e = ground arith

  append_fragment-bytes :
      (ctx : Context Map) (f : Fragment) (p : Pointer) (len : ℕ)
      → bytes_total_of (append_fragment table ctx stream_id f p len).0 ≡ bytes_total_of ctx
  unfolding append_fragment
  append_fragment-bytes ctx f p len = ground arith

  remove_fragment-bytes :
      (ctx : Context Map)
      → bytes_total_of (remove_fragment table ctx stream_id) ≡ bytes_total_of ctx
  unfolding remove_fragment
  remove_fragment-bytes ctx = ground arith

module _ (table : KHash Ipv4Stream Fragment) (stream_id : Ipv4Stream) (tv_sec tv_nsec : ℕ)
    (data_ptr : Pointer) (data_len : ℕ) where
  open table use {Map}

  after_fragment-bytes :
      (code : Code) (ctx : Context Map) (d : FixDetails)
      → bytes_total_of (after_fragment table stream_id tv_sec tv_nsec data_ptr data_len code ctx d)
        ≡ bytes_total_of ctx
  unfolding after_fragment
  after_fragment-bytes ok ctx d =
      remove_fragment-bytes table stream_id (process_for_latency_measurement ctx tv_sec tv_nsec d)
      ∙ process-bytes ctx tv_sec tv_nsec d
  after_fragment-bytes message_too_short ctx d = refl
  after_fragment-bytes checksum_invalid ctx d = remove_fragment-bytes table stream_id ctx
  after_fragment-bytes tag_invalid ctx d = remove_fragment-bytes table stream_id ctx
  after_fragment-bytes empty_value ctx d = remove_fragment-bytes table stream_id ctx
  after_fragment-bytes invalid_type ctx d = remove_fragment-bytes table stream_id ctx

  complete_fragment-bytes :
      (ctx : Context Map) (f : Fragment) (len : ℕ)
      → Keeps ctx (complete_fragment table stream_id tv_sec tv_nsec data_ptr data_len ctx f len)
  unfolding complete_fragment
  complete_fragment-bytes ctx f len ctx' e =
      let (joined, longer) = append_fragment table ctx stream_id f data_ptr len in
      elim (Option-cases (try_parse_fix_message joined (pointer_to longer.s) (length longer.s))) [
        | inl undefined ↦ ground arith
        | inr (r, parse) ↦
            let kept =
              after_fragment-bytes r.2.result r.0 r.1
              ∙ try_parse-bytes joined (pointer_to longer.s) (length longer.s) r parse
              ∙ append_fragment-bytes table stream_id ctx f data_ptr len in
            ground (arith, kept)
      ]

  handle_leading-bytes :
      (ctx : Context Map) (len : ℕ)
      → Keeps ctx (handle_leading table stream_id tv_sec tv_nsec data_ptr data_len ctx len)
  unfolding handle_leading
  handle_leading-bytes ctx len ctx' e = elim (Option-cases (get_fragment table ctx stream_id)) [
    | inl new ↦ ground (arith, put_fragment-bytes table stream_id ctx data_ptr data_len ctx')
    | inr (f, found) ↦ ground (arith, complete_fragment-bytes ctx f len ctx')
  ]

  after_parse-bytes :
      (code : Code) (ctx : Context Map) (d : FixDetails) (curr len : ℕ)
      → Keeps ctx (after_parse table stream_id tv_sec tv_nsec data_ptr data_len code ctx d curr len)
  unfolding after_parse
  after_parse-bytes ok ctx d curr len ctx' e = ground (arith, process-bytes ctx tv_sec tv_nsec d)
  after_parse-bytes message_too_short ctx d curr len ctx' e =
      put_fragment-bytes table stream_id ctx (advance data_ptr curr) len ctx' e
  after_parse-bytes checksum_invalid ctx d curr len ctx' e = ground arith
  after_parse-bytes tag_invalid ctx d curr len ctx' e = ground arith
  after_parse-bytes empty_value ctx d curr len ctx' e = ground arith
  after_parse-bytes invalid_type ctx d curr len ctx' e = ground arith

  handle_message-bytes :
      (ctx : Context Map) (curr : ℕ) (next : Option ℕ) (left : ℕ) (out : Context Map × ℕ)
      → handle_message table stream_id tv_sec tv_nsec data_ptr data_len ctx curr next left
        ≡ some out
      → bytes_total_of out.0 ≡ bytes_total_of ctx
  unfolding handle_message
  handle_message-bytes ctx curr next left out e =
      let len : ℕ = elim next [ none ↦ left | some p ↦ p - curr ] in
      let (r, parse, e') =
        bind-eq-some (try_parse_fix_message ctx (advance data_ptr curr) len) _ e in
      let (ctx', done, e'') =
        bind-eq-some
          (after_parse table stream_id tv_sec tv_nsec data_ptr data_len r.2.result r.0 r.1 curr len)
          _ e' in
      let same : out.0 ≡ ctx' = ground arith in
      ap (λ (c : Context Map). bytes_total_of c) same
      ∙ after_parse-bytes r.2.result r.0 r.1 curr len ctx' done
      ∙ try_parse-bytes ctx (advance data_ptr curr) len r parse

  message_loop-bytes :
      (fuel : ℕ) (ctx : Context Map) (curr : Option ℕ) (left : ℕ) (out : Context Map × ℕ)
      → message_loop table stream_id tv_sec tv_nsec data_ptr data_len fuel ctx curr left ≡ some out
      → bytes_total_of out.0 ≡ bytes_total_of ctx
  unfolding message_loop
  message_loop-bytes zero ctx none left out e = ground arith
  message_loop-bytes zero ctx (some curr) left out e = absurd (ground arith)
  message_loop-bytes (suc fuel) ctx none left out e = ground arith
  message_loop-bytes (suc fuel) ctx (some curr) left out e =
      let next = next_message table stream_id tv_sec tv_nsec data_ptr data_len ctx curr left in
      let (r, turn, rest) =
        bind-eq-some
          (handle_message table stream_id tv_sec tv_nsec data_ptr data_len ctx curr next left) _
          e in
      message_loop-bytes fuel r.0 next r.1 out rest ∙ handle_message-bytes ctx curr next left r turn

  keep_rest-bytes :
      (ctx : Context Map) (left : ℕ)
      → Keeps ctx (keep_rest table stream_id tv_sec tv_nsec data_ptr data_len ctx left)
  unfolding keep_rest
  keep_rest-bytes ctx left ctx' e =
      ground (
        arith,
        put_fragment-bytes table stream_id ctx (advance data_ptr (data_len - left)) left ctx',
      )

  pub extract-bytes :
      (ctx : Context Map)
      → Keeps ctx (vmars_extract_fix_messages table stream_id tv_sec tv_nsec data_ptr data_len ctx)
  unfolding vmars_extract_fix_messages
  extract-bytes ctx ctx' e =
      let curr = first_message table stream_id tv_sec tv_nsec data_ptr data_len ctx in
      let fragment_len : ℕ = elim curr [ none ↦ data_len | some p ↦ p ] in
      let leading =
        handle_leading table stream_id tv_sec tv_nsec data_ptr data_len ctx fragment_len in
      let starts : Bool = elim curr [ none ↦ false | some p ↦ p == 0 ] in
      let begun : Option (Context Map) = if starts then some ctx else leading in
      let (c, first, e') = bind-eq-some begun _ e in
      let (r, loop, rest) =
        bind-eq-some
          (message_loop table stream_id tv_sec tv_nsec data_ptr data_len (data_len + 1) c curr
            (data_len - fragment_len))
          _ e' in
      keep_rest-bytes r.0 r.1 ctx' rest
      ∙ message_loop-bytes (data_len + 1) c curr (data_len - fragment_len) r loop
      ∙ begin-bytes starts ctx leading (handle_leading-bytes ctx fragment_len) c first
