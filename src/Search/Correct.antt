-- ===== src/Search/Correct.antt =====
-- What `boyermoore_search` of src/simpleboyermoore.c finds.
use native.Mathlib.Decide.{dec_lt, ℕ_discrete}
use vmars.Prelude.{
  ℕ, zero, suc, ◌+◌, ◌-◌, ◌≤◌, ◌<◌, ◌^◌, ◌%◌, true, false, ◌≡◌, ◌≢◌, refl, sym, ap, ◌∙◌, inl, inr,
  List, Option, none, some, arith, Pointer, length, get_or, ltb, ◌==◌, Bool-cases, ==_iff,
}
use vmars.Search.{
  Matcher, low_byte, less_int, compare_back, scan, boyermoore_init, boyermoore_search,
}
use vmars.Search.Table.{IsMatcher, boyermoore_init_inv}

-- The pattern stands in the text at offset `p`.
abbrev pub Occurs : List ℕ → Pointer → ℕ → Type 0
Occurs pattern haystack p = (j : ℕ) → j < length pattern → haystack (p + j) ≡ get_or pattern j 0

compare_back_sound :
    (pattern : List ℕ) (haystack : Pointer) (n e : ℕ)
    → n ≤ e
    → compare_back pattern haystack n e ≡ 0
    → (j : ℕ) → j < n
    → haystack (e - n + j) ≡ get_or pattern j 0
unfolding compare_back
compare_back_sound pattern haystack zero e le h j lt = absurd (omega arith)
compare_back_sound pattern haystack (suc n) e le h j lt = elim (dec_lt j n) [
  | yes p ↦
      ground (arith, compare_back_sound pattern haystack n (e - 1) (omega arith) (ground arith) j p)
  | no p ↦ ground arith
]

compare_back_complete :
    (pattern : List ℕ) (haystack : Pointer) (n e : ℕ)
    → n ≤ e
    → ((j : ℕ) → j < n → haystack (e - n + j) ≡ get_or pattern j 0)
    → compare_back pattern haystack n e ≡ 0
unfolding compare_back
compare_back_complete pattern haystack zero e le h = refl
compare_back_complete pattern haystack (suc n) e le h =
    ground (arith, h n, compare_back_complete pattern haystack n (e - 1) (omega arith) below)
  where
    below : (j : ℕ) → j < n → haystack (e - 1 - n + j) ≡ get_or pattern j 0
    below j lt = ground (arith, h j)

-- The first occurrence at `from` or later that ends by `length`, `none` if there is none.
abbrev pub IsFirstFrom : ℕ → List ℕ → Pointer → ℕ → Option ℕ → Type 0
IsFirstFrom from pattern haystack end none =
    (p : ℕ) → from ≤ p → p + length pattern ≤ end → ¬ Occurs pattern haystack p
IsFirstFrom from pattern haystack end (some q) =
    (q + length pattern ≤ end)
    × (from ≤ q)
    × Occurs pattern haystack q
    × ((p : ℕ) → from ≤ p → p < q → ¬ Occurs pattern haystack p)

IsFirstFrom-skip :
    (from from' : ℕ) (pattern : List ℕ) (haystack : Pointer) (end : ℕ) (r : Option ℕ)
    → from ≤ from'
    → ((p : ℕ) → from ≤ p → p < from' → ¬ Occurs pattern haystack p)
    → IsFirstFrom from' pattern haystack end r
    → IsFirstFrom from pattern haystack end r
IsFirstFrom-skip from from' pattern haystack end none le skip h =
    λ p hp hq. elim (dec_lt p from') [ yes lt ↦ skip p hp lt | no ge ↦ h p (omega arith) hq ]
IsFirstFrom-skip from from' pattern haystack end (some q) le skip h = (
  h.0,
  omega arith,
  h.2,
  λ p hp hq. elim (dec_lt p from') [ yes lt ↦ skip p hp lt | no ge ↦ h.3 p (omega arith) hq ],
)

-- No occurrence starts between the window that ends at `i` and the one that the shift leads to.
shift_skips :
    (pattern : List ℕ) (m : Matcher) (haystack : Pointer) (i : ℕ)
    → IsMatcher pattern m
    → m.len ≤ i + 1
    → compare_back m.pattern haystack m.len (i + 1) ≢ 0
    → (p : ℕ) → i + 1 - m.len ≤ p
    → p < i + get_or m.bad_match (low_byte (haystack i)) 0 + 1 - m.len
    → ¬ Occurs pattern haystack p
shift_skips pattern m haystack i im le ne p lo hi occ = elim (ℕ_discrete p (i + 1 - m.len)) [
  | yes e ↦ ne (
      rw im.pattern_is (
        compare_back_complete pattern haystack m.len (i + 1) le (λ j lt.
          let lt' : j < length pattern = omega (arith, im.len_is) in rw (← e) (occ j lt'))))
  | no e ↦
      let s_le = im.shifts.at_most (low_byte (haystack i)) (omega arith) in
      let t = i - p in
      let here : p + t ≡ i = omega arith in
      let at_i : get_or pattern t 0 ≡ haystack i =
        sym (occ t (omega (arith, im.len_is))) ∙ ap haystack here in
      omega (arith, rw at_i at (im.shifts.seen t (omega arith)))
]

scan-IsFirst :
    (pattern : List ℕ) (m : Matcher) (haystack : Pointer) (fuel end i : ℕ)
    → IsMatcher pattern m
    → m.len ≤ i + 1
    → end ≤ fuel + i
    → end + m.len ≤ 2 ^ 31
    → i < 2 ^ 31
    → IsFirstFrom (i + 1 - m.len) pattern haystack end (scan fuel m haystack end i)
unfolding scan
scan-IsFirst pattern m haystack zero end i im le enough small int_i =
    λ p hp hq _. omega (arith, im.len_is, im.nonempty)
scan-IsFirst pattern m haystack (suc fuel) end i im le enough small int_i =
    elim (Bool-cases (less_int i end)) [
      | inr past ↦
          let behind : end ≤ i = ground arith in
          rw past (λ p hp hq _. omega (arith, im.len_is, im.nonempty))
      | inl inside ↦ elim (Bool-cases (compare_back m.pattern haystack m.len (i + 1) == 0)) [
        | inl match ↦
            let e : compare_back pattern haystack m.len (i + 1) ≡ 0 =
              rw im.pattern_is at ((==_iff _ 0).0 match) in
            let before : i < end = ground arith in
            rw (inside, match)
              (
                omega (arith, im.len_is),
                omega arith,
                λ j lt.
                    compare_back_sound pattern haystack m.len (i + 1) le e j
                      (omega (arith, im.len_is)),
                λ p a b _. omega arith,
              )
        | inr differs ↦
            let c = low_byte (haystack i) in
            let shift = get_or m.bad_match c 0 in
            let before : i < end = ground arith in
            let positive = im.shifts.positive c (omega arith) in
            let most = im.shifts.at_most c (omega arith) in
            let fits : (i + shift) % 2 ^ 32 ≡ i + shift = omega arith in
            rw (inside, differs, fits)
              (IsFirstFrom-skip _ (i + shift + 1 - m.len) pattern haystack end _ (omega arith)
                (shift_skips pattern m haystack i im le (ground arith))
                (scan-IsFirst pattern m haystack fuel end (i + shift) im (omega arith) (omega arith)
                  small (omega arith)))
      ]
    ]

-- For a matcher made by `boyermoore_init` from a pattern: `boyermoore_search` returns the first
-- offset at which the whole pattern stands within `end` bytes of text, and NULL exactly if there
-- is no such offset. The text and the pattern together are no longer than 2^31 bytes, so that the
-- index of the search is an `int`.
pub boyermoore_search-IsFirst :
    (pattern : List ℕ) {m : Matcher} (haystack : Pointer) (end : ℕ)
    → boyermoore_init pattern ≡ some m
    → end + length pattern ≤ 2 ^ 31
    → IsFirstFrom 0 pattern haystack end (boyermoore_search m haystack end)
unfolding boyermoore_search
boyermoore_search-IsFirst pattern {m} haystack end e small =
    let im = boyermoore_init_inv pattern e in
    elim (Bool-cases (ltb end m.len)) [
      | inl short ↦ rw short (λ p hp hq _. ground (arith, im.len_is))
      | inr long ↦
          let first =
            scan-IsFirst pattern m haystack end end (m.len - 1) im (omega arith) (omega arith)
              (omega (arith, im.len_is)) (omega (arith, im.len_is, im.nonempty)) in
          let start : m.len - 1 + 1 - m.len ≡ 0 = omega (arith, im.nonempty) in
          rw long (rw start at first)
    ]

scan-here :
    (pattern : List ℕ) (m : Matcher) (haystack : Pointer) (fuel end : ℕ)
    → IsMatcher pattern m
    → Occurs pattern haystack 0
    → m.len ≤ end
    → end < 2 ^ 31
    → end ≤ fuel
    → scan fuel m haystack end (m.len - 1) ≡ some 0
unfolding scan
scan-here pattern m haystack zero end im here room int_end enough =
    absurd (omega (arith, im.nonempty))
scan-here pattern m haystack (suc fuel) end im here room int_end enough =
    let one : m.len - 1 + 1 ≡ m.len = omega (arith, im.nonempty) in
    let inside : less_int (m.len - 1) end ≡ true = ground (arith, im.nonempty) in
    let start : m.len - m.len ≡ 0 = omega arith in
    let match : compare_back m.pattern haystack m.len m.len ≡ 0 = rw im.pattern_is (
      compare_back_complete pattern haystack m.len m.len (omega arith)
        (λ j lt. rw start (here j (omega (arith, im.len_is))))) in
    rw (inside, one, match, start) refl

-- A pattern at the beginning of the text is found at once, however long the text is.
pub search-here :
    (pattern : List ℕ) {m : Matcher} (haystack : Pointer) (end : ℕ)
    → boyermoore_init pattern ≡ some m
    → Occurs pattern haystack 0
    → length pattern ≤ end
    → end < 2 ^ 31
    → boyermoore_search m haystack end ≡ some 0
unfolding boyermoore_search
search-here pattern {m} haystack end e here room int_end =
    let im = boyermoore_init_inv pattern e in
    let long : ltb end m.len ≡ false = ground (arith, im.len_is) in
    rw long (
      scan-here pattern m haystack end end im here (omega (arith, im.len_is)) int_end (omega arith))
