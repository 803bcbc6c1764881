-- ===== src/Search.antt =====
-- src/simpleboyermoore.c: the Boyer-Moore-Horspool matcher that finds the start of a FIX message.
pub mod Table
pub mod Correct
mod Tests
use vmars.Prelude.{
  ℕ, zero, suc, ◌+◌, ◌-◌, ◌%◌, ◌^◌, Bool, List, [], ◌∷◌, Option, none, some, Pointer, ltb, ◌==◌,
  if◌then◌else◌, length, get_or, set, replicate,
}

-- `struct boyermoore_s`; a pattern has no NUL, so `strlen` is its length.
pub record Matcher : Type 0 where
  pub pattern : List ℕ
  pub len : ℕ
  pub bad_match : List ℕ

abbrev pub table_size : ℕ
table_size = 256

-- `c & 0xFF`
abbrev pub low_byte : ℕ → ℕ
low_byte c = c % 256

-- for (i; i < len - 1; i++) bad_match[pattern[i] & 0xFF] = len - i - 1, with the rounds left first
unfoldable pub fill : ℕ → List ℕ → ℕ → ℕ → List ℕ → List ℕ
fill zero pattern len i table = table
fill (suc n) pattern len i table =
    fill n pattern len (i + 1) (set table (low_byte (get_or pattern i 0)) (len - i - 1))

-- `none` for the empty pattern: there `len - 1` wraps, and the loop runs off the pattern.
unfoldable pub boyermoore_init : List ℕ → Option Matcher
unfolding fill
boyermoore_init [] = none
boyermoore_init pattern =
    let len = length pattern in
    some (record {
      pattern = pattern;
      len = len;
      bad_match = fill (len - 1) pattern len 0 (replicate table_size len);
    })

-- The inner loop, for j = n - 1 and k = e - 1: it stops at j = -1, the result 0, or at a mismatch.
pub compare_back : List ℕ → Pointer → ℕ → ℕ → ℕ
compare_back pattern haystack zero e = 0
compare_back pattern haystack (suc j) e =
    let rest = compare_back pattern haystack j (e - 1) in
    if haystack (e - 1) == get_or pattern j 0 then rest else suc j

-- i < length, for `int`s as their bit patterns
abbrev pub less_int : ℕ → ℕ → Bool
less_int i length = ltb ((i + 2 ^ 31) % 2 ^ 32) ((length + 2 ^ 31) % 2 ^ 32)

-- The outer loop; `i` is the bit pattern of an `int`, which the shift may wrap to a negative one: the
-- loop then reads what is not the text, here some byte. The result is an offset: k + 1 = i + 1 - len
-- at a match. The fuel is at least `length - i`, and no shift is 0.
pub scan : ℕ → Matcher → Pointer → ℕ → ℕ → Option ℕ
scan zero needle haystack length i = none
scan (suc fuel) needle haystack length i =
    let next = (i + get_or needle.bad_match (low_byte (haystack i)) 0) % 2 ^ 32 in
    let rest = scan fuel needle haystack length next in
    if less_int i length
    then if compare_back needle.pattern haystack needle.len (i + 1) == 0
      then some (i + 1 - needle.len)
      else rest
    else none

-- `NULL` is `none`, `&haystack[p]` is `some p`.
unfoldable pub boyermoore_search : Matcher → Pointer → ℕ → Option ℕ
unfolding scan compare_back
boyermoore_search needle haystack length =
    if ltb length needle.len then none else scan length needle haystack length (needle.len - 1)
