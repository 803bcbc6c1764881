-- ===== src/Parser/Framing.antt =====
-- The parts of a printed message that frame its fields: the header, and the checksum at its end.
use vmars.Prelude.{
  ℕ, ◌+◌, ◌*◌, ◌/◌, ◌%◌, ◌<◌, ◌≡◌, refl, List, [], ◌∷◌, some, true, false, arith, Pointer, length,
  ap,
}
use vmars.Prelude.Int.{pos, ◌+ℤ◌, ◌-ℤ◌, ◌*ℤ◌}
use vmars.Parser.Defs.{
  fix_type_of, starts_with, supplied_checksum, signed_char, checksum_text, initial_header_42,
  initial_header_44,
}
use vmars.Parser.Checksum.{sum_bytes}
use vmars.Parser.Encode.{Version, fix42, fix44, header_of, number_of, total}
use vmars.Parser.Number.{Stands}

starts_with-Stands :
    (xs : List ℕ) (buf : Pointer) (i : ℕ) → Stands xs buf i → starts_with xs buf i ≡ true
unfolding starts_with
starts_with-Stands [] buf i h = refl
starts_with-Stands (x ∷ xs) buf i h = ground (arith, starts_with-Stands xs buf (i + 1) h.1)

starts_with_other :
    (buf : Pointer) → Stands initial_header_42 buf 0 → starts_with initial_header_44 buf 0 ≡ false
unfolding starts_with
starts_with_other buf h = rw h.1.1.1.1.1.1.1.1.0 (ground arith)

pub fix_type_of-header :
    (v : Version) (buf : Pointer)
    → Stands (header_of v) buf 0
    → fix_type_of buf ≡ some (number_of v)
fix_type_of-header fix42 buf h =
    rw (starts_with_other buf h, starts_with-Stands initial_header_42 buf 0 h)
fix_type_of-header fix44 buf h = rw (starts_with-Stands initial_header_44 buf 0 h)

pub sum_bytes-Stands :
    (xs : List ℕ) (buf : Pointer) (i : ℕ) → Stands xs buf i → sum_bytes buf i (length xs) ≡ total xs
unfolding sum_bytes
sum_bytes-Stands [] buf i h = refl
sum_bytes-Stands (x ∷ xs) buf i h = ground (arith, sum_bytes-Stands xs buf (i + 1) h.1)

digit_value : (d k : ℕ) → d < 10 → (signed_char (b'0' + d) -ℤ pos b'0') *ℤ pos k ≡ pos (d * k)
unfolding ◌-ℤ◌ ◌*ℤ◌
digit_value d k h = ground arith

unit_value : (d : ℕ) → d < 10 → signed_char (b'0' + d) -ℤ pos b'0' ≡ pos d
unfolding ◌-ℤ◌
unit_value d h = ground arith

pos-+ℤ : (a b : ℕ) → pos a +ℤ pos b ≡ pos (a + b)
unfolding ◌+ℤ◌
pos-+ℤ a b = ground arith

-- The three digits that stand for a checksum are read as that checksum.
pub supplied_checksum-text :
    (c : ℕ) (buf : Pointer)
    → c < 1000
    → Stands (checksum_text c) buf 0
    → supplied_checksum buf ≡ pos c
unfolding supplied_checksum
supplied_checksum-text c buf h s =
    rw
      (
        s.0,
        s.1.0,
        s.1.1.0,
        digit_value (c / 100) 100 (omega arith),
        digit_value (c / 10 % 10) 10 (omega arith),
        unit_value (c % 10) (omega arith),
        pos-+ℤ,
        pos-+ℤ,
      )
      (ap pos (omega arith))
