-- ===== src/Search/Table.antt =====
-- The shift table of `boyermoore_init`.
use vmars.Prelude.{
  ℕ, zero, suc, ◌+◌, ◌-◌, ◌≤◌, ◌<◌, ◌≡◌, refl, List, [], ◌∷◌, some, arith, length, get_or, set,
  replicate, length-set, get_or-set, length-replicate, get_or-replicate, ◌==◌, if◌then◌else◌,
}
use vmars.Search.{Matcher, table_size, low_byte, fill, boyermoore_init}

-- The table after the pattern's first `i` characters.
pub record Shifts (pattern : List ℕ) (len i : ℕ) (table : List ℕ) : Type 0 where
  pub size : length table ≡ table_size
  pub positive : (c : ℕ) → c < table_size → 1 ≤ get_or table c 0
  pub at_most : (c : ℕ) → c < table_size → get_or table c 0 ≤ len
  pub seen : (t : ℕ) → t < i → get_or table (low_byte (get_or pattern t 0)) 0 ≤ len - t - 1

module _ (pattern : List ℕ) (len : ℕ) where
  set-Shifts :
      (i : ℕ) (table : List ℕ)
      → i + 1 < len
      → Shifts pattern len i table
      → Shifts pattern len (i + 1) (set table (low_byte (get_or pattern i 0)) (len - i - 1))
  set-Shifts i table h s = record {
    size = omega (arith, s.size, length-set table at_i (len - i - 1));
    positive = λ c hc. ground (arith, read c, s.positive c hc);
    at_most = λ c hc. ground (arith, read c, s.at_most c hc);
    seen = λ t ht. ground (arith, read (low_byte (get_or pattern t 0)), s.seen t);
  }
    where
      at_i : ℕ
      at_i = low_byte (get_or pattern i 0)

      read :
          (c : ℕ)
          → get_or (set table at_i (len - i - 1)) c 0
            ≡ (if at_i == c then len - i - 1 else get_or table c 0)
      read c = get_or-set table at_i c (len - i - 1) 0 (omega (arith, s.size))

  fill-Shifts :
      (n i : ℕ) (table : List ℕ)
      → i + n + 1 ≡ len
      → Shifts pattern len i table
      → Shifts pattern len (len - 1) (fill n pattern len i table)
  unfolding fill
  fill-Shifts zero i table e s = let e' : len - 1 ≡ i = omega arith in rw e' s
  fill-Shifts (suc n) i table e s =
      fill-Shifts n (i + 1) _ (omega arith) (set-Shifts i table (omega arith) s)

  replicate-Shifts : 0 < len → Shifts pattern len 0 (replicate table_size len)
  replicate-Shifts h = record {
    size = length-replicate table_size len;
    positive = λ c hc. omega (arith, get_or-replicate table_size c len 0 hc);
    at_most = λ c hc. omega (arith, get_or-replicate table_size c len 0 hc);
    seen = λ t ht. absurd (omega arith);
  }

-- What the search relies on of a matcher for `pattern`.
pub record IsMatcher (pattern : List ℕ) (m : Matcher) : Type 0 where
  pub pattern_is : m.pattern ≡ pattern
  pub len_is : m.len ≡ length pattern
  pub nonempty : 0 < m.len
  pub shifts : Shifts pattern m.len (m.len - 1) m.bad_match

-- `boyermoore_init` accepts every pattern but the empty one, and the matcher that it fills in has
-- the pattern, its length and a table in which each shift lies between 1 and the length, and the
-- shift of a character that the pattern holds before its end is at most its distance from the end.
pub boyermoore_init-IsMatcher :
    (pattern : List ℕ)
    → 0 < length pattern
    → (m : Matcher) × (boyermoore_init pattern ≡ some m) × IsMatcher pattern m
unfolding boyermoore_init
boyermoore_init-IsMatcher [] h = absurd (omega arith)
boyermoore_init-IsMatcher (x ∷ xs) h = (
  _,
  refl,
  record {
    pattern_is = refl;
    len_is = refl;
    nonempty = omega arith;
    shifts =
        let n = length (x ∷ xs) in
        fill-Shifts (x ∷ xs) n (n - 1) 0 _ (omega arith) (replicate-Shifts (x ∷ xs) n h);
  },
)

pub boyermoore_init_inv :
    (pattern : List ℕ) {m : Matcher} → boyermoore_init pattern ≡ some m → IsMatcher pattern m
unfolding boyermoore_init
boyermoore_init_inv [] e = cc
boyermoore_init_inv (x ∷ xs) {m} e =
    let (m', e', im) = boyermoore_init-IsMatcher (x ∷ xs) (omega arith) in
    let same : m' ≡ m = cc (e', e) in rw same at im
