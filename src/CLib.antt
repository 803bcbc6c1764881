-- ===== src/CLib.antt =====
-- What the source uses of the C library's conversions. A C string is its bytes, without the NUL.
use vmars.Prelude.{
  ℕ, ◌+◌, ◌-◌, ◌*◌, ◌^◌, ◌||◌, ◌&&◌, Bool, true, false, List, [], ◌∷◌, ltb, leb, ◌==◌,
  if◌then◌else◌,
}
use vmars.Prelude.Int.{ℤ, pos, negsuc, sub_ℕ}
use vmars.Parser.Defs.{is_digit}
use vmars.Ring.Defs.{to_int32}

-- isspace
abbrev is_space : ℕ → Bool
is_space c = c == 32 || (leb 9 c && leb c 13)

unfoldable pub skip_spaces : List ℕ → List ℕ
skip_spaces [] = []
skip_spaces (c ∷ s) = let rest = skip_spaces s in if is_space c then rest else c ∷ s

-- The digits at the beginning, behind the value `n`, and what stands behind them.
unfoldable pub read_decimal : ℕ → List ℕ → ℕ × List ℕ
read_decimal n [] = (n, [])
read_decimal n (c ∷ s) =
    let rest = read_decimal (n * 10 + (c - b'0')) s in if is_digit c then rest else (n, c ∷ s)

-- The nearest `long`.
abbrev to_long : Bool → ℕ → ℤ
to_long false n = if ltb n (2 ^ 63) then pos n else pos (2 ^ 63 - 1)
to_long true n = if ltb n (2 ^ 63) then sub_ℕ 0 n else negsuc (2 ^ 63 - 1)

-- With nothing to read the end is the beginning of the text.
abbrev read_digits_or : List ℕ → Bool → List ℕ → ℤ × List ℕ
read_digits_or s negative [] = (pos 0, s)
read_digits_or s negative (c ∷ rest) =
    let r = read_decimal 0 (c ∷ rest) in
    if is_digit c then (to_long negative r.0, r.1) else (pos 0, s)

abbrev read_signed : List ℕ → List ℕ → ℤ × List ℕ
read_signed s [] = (pos 0, s)
read_signed s (c ∷ rest) =
    if c == b'-'
    then read_digits_or s true rest
    else if c == b'+'
    then read_digits_or s false rest
    else read_digits_or s false (c ∷ rest)

-- `strtol(s, &endptr, 10)`, with the text at `endptr`
unfoldable pub strtol : List ℕ → ℤ × List ℕ
strtol s = read_signed s (skip_spaces s)

-- `(int)` of a `long`
abbrev pub as_int : ℤ → ℤ
as_int (pos n) = to_int32 n
as_int (negsuc n) = to_int32 (2 ^ 64 - n - 1)

unfoldable pub atoi : List ℕ → ℤ
atoi s = as_int (strtol s).0
