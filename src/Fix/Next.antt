-- ===== src/Fix/Next.antt =====
-- Where the search for the next message stops.
use native.Mathlib.Decide.{dec_lt}
use vmars.Prelude.{
  ℕ, ◌+◌, ◌-◌, ◌^◌, ◌≤◌, ◌<◌, ◌≡◌, refl, ap, none, some, true, arith, Pointer, advance, length, ltb,
  Option-cases, Bool-cases, inl, inr,
}
use vmars.KHash.{KHash}
use vmars.Search.{Matcher, boyermoore_init, boyermoore_search}
use vmars.Search.Table.{boyermoore_init_inv}
use vmars.Search.Correct.{search-here, Occurs, boyermoore_search-IsFirst}
use vmars.Fix.Process.{Context}
use vmars.Fix.Fragments.{Ipv4Stream, Fragment}
use vmars.Fix.Extract.{next_message}
use vmars.Fix.Messages.{begin_string}

abbrev pub IsBegin : Matcher → Type 0
IsBegin m = boyermoore_init begin_string ≡ some m

pub IsBegin-len : {m : Matcher} → IsBegin m → m.len ≡ length begin_string
IsBegin-len e = (boyermoore_init_inv begin_string e).len_is

Occurs-advance :
    (p : Pointer) (k q : ℕ) → Occurs begin_string (advance p k) q → Occurs begin_string p (k + q)
Occurs-advance p k q h j lt = let e : k + (q + j) ≡ k + q + j = omega arith in rw e at (h j lt)

advance-Occurs :
    (p : Pointer) (k q : ℕ) → Occurs begin_string p (k + q) → Occurs begin_string (advance p k) q
advance-Occurs p k q h j lt = let e : k + q + j ≡ k + (q + j) = omega arith in rw e at (h j lt)

advance-zero : (p : Pointer) → advance p 0 ≡ p
advance-zero p = let start : (k : ℕ) → 0 + k ≡ k = λ k. omega arith in λ i k. p (start k i)

-- The search from `k` on, of `end` bytes, finds the pattern at `k + n` if it stands there and
-- nowhere before.
pub search-some :
    {m : Matcher} (p : Pointer) (k n end : ℕ)
    → IsBegin m
    → Occurs begin_string p (k + n)
    → n + length begin_string ≤ end
    → ((o : ℕ) → o < n → ¬ Occurs begin_string p (k + o))
    → end + length begin_string ≤ 2 ^ 31
    → boyermoore_search m (advance p k) end ≡ some n
search-some {m} p k n end e here room before small =
    let first = boyermoore_search-IsFirst begin_string (advance p k) end e small in
    elim (Option-cases (boyermoore_search m (advance p k) end)) [
      | inl nothing ↦
          let none_first = rw nothing at first in
          absurd (none_first n (omega arith) room (advance-Occurs p k n here))
      | inr (q, found) ↦
          let (inside, _, there, earlier) = rw found at first in
          elim (dec_lt q n) [
            | yes lt ↦ absurd (before q lt (Occurs-advance p k q there))
            | no ge ↦ elim (dec_lt n q) [
              | yes gt ↦ absurd (earlier n (omega arith) gt (advance-Occurs p k n here))
              | no le ↦ let same : q ≡ n = omega arith in rw found (ap some same)
            ]
          ]
    ]

pub search-some-start :
    {m : Matcher} (p : Pointer) (end : ℕ)
    → IsBegin m
    → Occurs begin_string p 0
    → length begin_string ≤ end
    → end < 2 ^ 31
    → boyermoore_search m p end ≡ some 0
search-some-start {m} p end e here room small = search-here begin_string p end e here room small

pub search-none :
    {m : Matcher} (p : Pointer) (k end : ℕ)
    → IsBegin m
    → ((o : ℕ) → o + length begin_string ≤ end → ¬ Occurs begin_string p (k + o))
    → end + length begin_string ≤ 2 ^ 31
    → boyermoore_search m (advance p k) end ≡ none
search-none {m} p k end e nowhere small =
    let first = boyermoore_search-IsFirst begin_string (advance p k) end e small in
    elim (Option-cases (boyermoore_search m (advance p k) end)) [
      | inl nothing ↦ nothing
      | inr (q, found) ↦
          let (inside, _, there, earlier) = rw found at first in
          absurd (nowhere q inside (Occurs-advance p k q there))
    ]

pub search-none-start :
    {m : Matcher} (p : Pointer) (end : ℕ)
    → IsBegin m
    → ((o : ℕ) → o + length begin_string ≤ end → ¬ Occurs begin_string p o)
    → end + length begin_string ≤ 2 ^ 31
    → boyermoore_search m p end ≡ none
search-none-start {m} p end e nowhere small =
    let same = advance-zero p in
    rw same at (
      search-none p 0 end e
        (λ o fits there.
          nowhere o fits (λ j lt. let e : 0 + o ≡ o = omega arith in rw e at (there j lt)))
        small)

module _ (table : KHash Ipv4Stream Fragment) (stream_id : Ipv4Stream) (tv_sec tv_nsec : ℕ)
    (data_ptr : Pointer) (data_len : ℕ) where
  open table use {Map}

  pub next_message-some :
      (ctx : Context Map) (curr n left : ℕ)
      → IsBegin ctx.matcher
      → length begin_string ≤ n
      → n + length begin_string ≤ left
      → Occurs begin_string data_ptr (curr + n)
      → ((o : ℕ) → curr < o → o < curr + n → ¬ Occurs begin_string data_ptr o)
      → left < 2 ^ 31
      → next_message table stream_id tv_sec tv_nsec data_ptr data_len ctx curr left
        ≡ some (curr + n)
  unfolding next_message
  next_message-some ctx curr n left e long room here before int_left =
      let len = ctx.matcher.len in
      let size = IsBegin-len e in
      let k = curr + len in
      let at_n : k + (n - len) ≡ curr + n = omega arith in
      let more : ltb len left ≡ true = ground arith in
      let found =
        search-some data_ptr k (n - len) (left - len) e (rw at_n here) (omega arith)
          (λ o lt. before (k + o) (omega arith) (omega arith)) (omega arith) in
      rw (more, found) (ap some (omega arith))

  pub next_message-none :
      (ctx : Context Map) (curr left : ℕ)
      → IsBegin ctx.matcher
      → ((o : ℕ)
          → curr < o
          → o + length begin_string ≤ curr + left
          → ¬ Occurs begin_string data_ptr o)
      → left < 2 ^ 31
      → next_message table stream_id tv_sec tv_nsec data_ptr data_len ctx curr left ≡ none
  unfolding next_message
  next_message-none ctx curr left e nowhere int_left =
      let len = ctx.matcher.len in
      let size = IsBegin-len e in
      elim (Bool-cases (ltb len left)) [
        | inr short ↦ rw short refl
        | inl more ↦
            let k = curr + len in
            let found =
              search-none data_ptr k (left - len) e
                (λ o fits. nowhere (k + o) (omega arith) (ground arith)) (ground arith) in
            rw (more, found) refl
      ]
