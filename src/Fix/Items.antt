-- ===== src/Fix/Items.antt =====
-- A packet of parts that each begin with the pattern, through `vmars_extract_fix_messages` of
-- src/fix.c, for whatever a turn of its loop makes of a part.
use vmars.Prelude.{
  ℕ, zero, suc, ◌+◌, ◌-◌, ◌^◌, ◌≤◌, ◌<◌, ◌≡◌, refl, List, [], ◌∷◌, Option, none, some, arith,
  Pointer, length, length-append, ltb, true,
}
use vmars.KHash.{KHash}
use vmars.Search.Correct.{Occurs}
use vmars.Parser.Defs.{int_max}
use vmars.Parser.Number.{Stands, Stands-append}
use vmars.Fix.Process.{Context}
use vmars.Fix.Fragments.{Ipv4Stream, Fragment}
use vmars.Fix.Extract.{
  handle_message, message_loop, keep_rest, first_message, vmars_extract_fix_messages,
}
use vmars.Fix.Loop.{message_loop-end}
use vmars.Fix.Messages.{begin_string, Every, after_all, bytes_of, AreSeparate}
use vmars.Fix.Next.{IsBegin, search-some-start, next_message-some, next_message-none}

module _ (table : KHash Ipv4Stream Fragment) (stream_id : Ipv4Stream) (tv_sec tv_nsec : ℕ)
    (data_ptr : Pointer) (data_len : ℕ) where
  open table use {Map}

  -- A kind of part: its bytes, and what a turn of the loop at it leaves of the context. A turn
  -- consumes the part exactly, and leaves the matcher alone.
  pub record Items (X : Type 0) : Type 1 where
    pub bytes : X → List ℕ
    pub IsItem : X → Type 0
    pub after : Context Map → X → Context Map
    pub long : (x : X) → length begin_string < length (bytes x)
    pub begins : (x : X) (p : Pointer) (i : ℕ) → Stands (bytes x) p i → Occurs begin_string p i
    pub after-matcher : (ctx : Context Map) (x : X) → (after ctx x).matcher ≡ ctx.matcher
    pub handle_message-after :
        (ctx : Context Map) (x : X) (curr left : ℕ) (next : Option ℕ)
        → IsItem x
        → Stands (bytes x) data_ptr curr
        → (let len : ℕ = elim next [ none ↦ left | some p ↦ p - curr ] in len) ≡ length (bytes x)
        → length (bytes x) ≤ int_max
        → handle_message table stream_id tv_sec tv_nsec data_ptr data_len ctx curr next left
          ≡ some (after ctx x, left - length (bytes x))

  module _ {X : Type 0} (items : Items X) where
    open items use {bytes, IsItem, after, long, begins, after-matcher, handle_message-after}

    message_loop-items :
        (xs : List X) (x : X) (fuel : ℕ) (ctx : Context Map) (curr left end : ℕ)
        → IsBegin ctx.matcher
        → Every IsItem (x ∷ xs)
        → Stands (bytes_of bytes (x ∷ xs)) data_ptr curr
        → AreSeparate bytes data_ptr end curr (x ∷ xs)
        → left ≡ length (bytes_of bytes (x ∷ xs))
        → end ≡ curr + left
        → left ≤ int_max
        → left < fuel
        → message_loop table stream_id tv_sec tv_nsec data_ptr data_len fuel ctx (some curr) left
          ≡ some (after_all after ctx (x ∷ xs), 0)
    unfolding message_loop
    message_loop-items xs x zero ctx curr left end e h s apart all to_end limit enough =
        absurd (omega arith)
    message_loop-items [] x (suc fuel) ctx curr left end e h s apart all to_end limit enough =
        let size = length-append (bytes x) [] in
        let last =
          next_message-none table stream_id tv_sec tv_nsec data_ptr data_len ctx curr left e
            (λ o lt fits. apart.0 o lt (omega arith) (omega arith)) (omega arith) in
        let turn =
          handle_message-after ctx x curr left none h.0
            (Stands-append (bytes x) [] data_ptr curr s).0 (omega arith) (omega arith) in
        let rest : left - length (bytes x) ≡ 0 = omega arith in
        rw (last, turn, rest)
          (message_loop-end table stream_id tv_sec tv_nsec data_ptr data_len fuel _ 0)
    message_loop-items (y ∷ ys) x (suc fuel) ctx curr left end e h s apart all to_end limit enough =
        let n = length (bytes x) in
        let later = bytes_of bytes (y ∷ ys) in
        let size = length-append (bytes x) later in
        let size2 = length-append (bytes y) (bytes_of bytes ys) in
        let parts = Stands-append (bytes x) later data_ptr curr s in
        let here =
          begins y data_ptr (curr + n)
            (Stands-append (bytes y) (bytes_of bytes ys) data_ptr (curr + n) parts.1).0 in
        let long1 = long x in
        let long2 = long y in
        let next =
          next_message-some table stream_id tv_sec tv_nsec data_ptr data_len ctx curr n left e
            (omega arith) (omega arith) here (λ o lt before. apart.0 o lt before (omega arith))
            (omega arith) in
        let turn =
          handle_message-after ctx x curr left (some (curr + n)) h.0 parts.0 (omega arith)
            (omega arith) in
        rw (next, turn)
          (message_loop-items ys y fuel (after ctx x) (curr + n) (left - n) end
            (rw (after-matcher ctx x) e) h.1 parts.1 apart.1 (omega arith) (omega arith)
            (omega arith) (omega arith))

    -- A packet of such parts is taken apart into exactly these, in their order, and nothing is left.
    pub extract-items :
        (xs : List X) (x : X) (ctx : Context Map)
        → IsBegin ctx.matcher
        → Every IsItem (x ∷ xs)
        → Stands (bytes_of bytes (x ∷ xs)) data_ptr 0
        → AreSeparate bytes data_ptr data_len 0 (x ∷ xs)
        → data_len ≡ length (bytes_of bytes (x ∷ xs))
        → data_len ≤ int_max
        → vmars_extract_fix_messages table stream_id tv_sec tv_nsec data_ptr data_len ctx
          ≡ some (after_all after ctx (x ∷ xs))
    unfolding vmars_extract_fix_messages first_message keep_rest
    extract-items xs x ctx e h s apart all limit =
        let size = length-append (bytes x) (bytes_of bytes xs) in
        let here =
          begins x data_ptr 0 (Stands-append (bytes x) (bytes_of bytes xs) data_ptr 0 s).0 in
        let long1 = long x in
        let found = search-some-start data_ptr data_len e here (omega arith) (omega arith) in
        let fits : ltb data_len (2 ^ 31) ≡ true = ground arith in
        let whole : data_len - 0 ≡ data_len = omega arith in
        let loop =
          message_loop-items xs x (data_len + 1) ctx 0 data_len data_len e h s apart all
            (omega arith) limit (omega arith) in
        rw (fits, found, whole, loop) refl
